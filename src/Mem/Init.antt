-- ===== src/Mem/Init.antt =====
-- init_bitmap: exactly the pages from the end of the kernel to the end of RAM become free.
use wl_00_rv.Prelude.{
  ℕ, zero, suc, ◌+◌, ◌-◌, ◌/◌, ◌%◌, ◌^◌, false, ◌≡◌, ◌≤◌, ◌<◌, refl, ap, ◌∙◌, arith, if◌then◌else◌,
  ltb, leb, ◌&&◌, lt→ltb, le→ltb,
}
use wl_00_rv.Machine.{Kernel, ok}
use wl_00_rv.Spinlock.{mem_lock, init_lock}
use wl_00_rv.Spinlock.Critical.{IsSteady, IsFree, settled, settled-IsSteady}
use wl_00_rv.Mem.{
  num_pages, page_size, mem_start, mem_end, kfree, set_page, kfree_loop, kfree_range, pg_round_up,
  pg_round_down, page_idx, occupy, occupy_below, init_bitmap,
}
use wl_00_rv.Mem.Pages.{page_addr, page_idx_lem, pg_round_up_lem, pg_round_down_lem}
use wl_00_rv.Mem.Bytes.{memset-within}
use wl_00_rv.Mem.Free.{zero_page, kfree_outcomes}

-- `t` is `s` with every page from page `k` on free and filled with zeros.
pub record Swept (k : ℕ) (s t : Kernel) : Type 0 where
  pub start : t.start_page ≡ s.start_page
  pub steady : IsSteady t
  pub free : IsFree mem_lock t
  pub pages : (j : ℕ) → t.mem_bitmap j ≡ (if leb k j && ltb j num_pages then 1 else s.mem_bitmap j)
  pub bytes : (a : ℕ) → t.ram a ≡ (if leb (page_addr k) a && ltb a mem_end then 0 else s.ram a)

-- The state behind one kfree.
freed : ℕ → Kernel → Kernel
freed k s = set_page k 1 (settled (zero_page (page_addr k) s))

module _ (k : ℕ) (s : Kernel) (steady : IsSteady s) (free : IsFree mem_lock s) where
  freed-IsSteady : IsSteady (freed k s)
  unfolding freed settled
  freed-IsSteady = record { wide = steady.wide; quiet = (settled-IsSteady s steady).quiet }

  freed-IsFree : IsFree mem_lock (freed k s)
  unfolding freed settled
  freed-IsFree = free

  kfree-freed :
      k < num_pages
      → s.start_page ≤ page_addr k
      → s.mem_bitmap k ≡ 0
      → kfree (page_addr k) s ≡ ok tt (freed k s)
  unfolding freed
  kfree-freed hi low taken = (kfree_outcomes (page_addr k) s steady free).3 k hi refl low taken

  freed-start : s.start_page ≤ page_addr k → (freed k s).start_page ≤ page_addr (suc k)
  unfolding freed settled
  freed-start low = omega arith

  freed-taken :
      ((j : ℕ) → k ≤ j → s.mem_bitmap j ≡ 0) → (j : ℕ) → suc k ≤ j → (freed k s).mem_bitmap j ≡ 0
  unfolding freed settled
  freed-taken taken j h = ground (arith, taken j)

  Swept-freed : {t : Kernel} → k < num_pages → Swept (suc k) (freed k s) t → Swept k s t
  unfolding freed settled
  Swept-freed hi w = record {
    start = w.start;
    steady = w.steady;
    free = w.free;
    pages = λ j. ground (arith, w.pages j);
    bytes = λ a. ground (arith, w.bytes a, memset-within (page_addr k) 0 page_size s.ram a);
  }

  Swept-end : num_pages ≤ k → Swept k s s
  Swept-end hi = record {
    start = refl;
    steady = steady;
    free = free;
    pages = λ j. ground arith;
    bytes = λ a. ground arith;
  }

kfree_loop-Swept :
    (n k : ℕ) (s : Kernel)
    → k + n ≡ num_pages
    → IsSteady s
    → IsFree mem_lock s
    → s.start_page ≤ page_addr k
    → ((j : ℕ) → k ≤ j → s.mem_bitmap j ≡ 0)
    → (t : Kernel) × (kfree_loop (suc n) (page_addr k) mem_end s ≡ ok tt t) × Swept k s t
unfolding kfree_loop
kfree_loop-Swept zero k s e steady free low taken =
    (s, rw (le→ltb (page_addr k) mem_end (omega arith)), Swept-end k s steady free (omega arith))
kfree_loop-Swept (suc n) k s e steady free low taken =
    let next : page_addr k + page_size ≡ page_addr (suc k) = omega arith in
    let one = kfree-freed k s steady free (omega arith) low (taken k (omega arith)) in
    let (t, run, w) =
      kfree_loop-Swept n (suc k) (freed k s) (omega arith) (freed-IsSteady k s steady free)
        (freed-IsFree k s steady free) (freed-start k s steady free low)
        (freed-taken k s steady free taken) in
    (
      t,
      rw (lt→ltb (page_addr k) mem_end (omega arith), one, next) run,
      Swept-freed k s steady free (omega arith) w,
    )

occupy_lem :
    (n : ℕ) (bitmap : ℕ → ℕ) (j : ℕ) → occupy n bitmap j ≡ (if ltb j n then 0 else bitmap j)
unfolding occupy
occupy_lem zero bitmap j = ground arith
occupy_lem (suc n) bitmap j = ground (arith, occupy_lem n bitmap j)

kfree_range_lem :
    (k : ℕ) (s : Kernel)
    → k ≤ num_pages
    → kfree_range (page_addr k) mem_end s ≡ kfree_loop (suc (num_pages - k)) (page_addr k) mem_end s
unfolding kfree_range
kfree_range_lem k s hi =
    let up : pg_round_up (page_addr k) ≡ page_addr k =
      omega (arith, pg_round_up_lem (page_addr k)) in
    let down : pg_round_down mem_end ≡ mem_end = omega (arith, pg_round_down_lem mem_end) in
    let rounds : (mem_end - page_addr k) / page_size ≡ num_pages - k = omega arith in
    rw (up, down, rounds)

-- kfree_range over the pages from page `k` to the end of RAM.
kfree_range-Swept :
    (k : ℕ) (s : Kernel)
    → k ≤ num_pages
    → IsSteady s
    → IsFree mem_lock s
    → s.start_page ≤ page_addr k
    → ((j : ℕ) → k ≤ j → s.mem_bitmap j ≡ 0)
    → (t : Kernel) × (kfree_range (page_addr k) mem_end s ≡ ok tt t) × Swept k s t
kfree_range-Swept k s hi steady free low taken =
    let (t, run, w) = kfree_loop-Swept (num_pages - k) k s (omega arith) steady free low taken in
    (t, kfree_range_lem k s hi ∙ run, w)

-- What init_bitmap leaves behind for a kernel that ends at `end`: the allocatable range starts at
-- the next page boundary, a page is free exactly if it lies in that range, and the free pages hold
-- zeros.
pub record Initialized (end : ℕ) (s t : Kernel) : Type 0 where
  pub start :
      (t.start_page % page_size ≡ 0) × (end ≤ t.start_page) × (t.start_page < end + page_size)
  pub steady : IsSteady t
  pub unlocked : IsFree mem_lock t
  pub pages :
      (j : ℕ) → j < num_pages → t.mem_bitmap j ≡ (if leb t.start_page (page_addr j) then 1 else 0)
  pub bytes : (a : ℕ) → t.ram a ≡ (if leb t.start_page a && ltb a mem_end then 0 else s.ram a)

-- The page at which the allocatable range starts.
abbrev first_page : ℕ → ℕ
first_page end = page_idx (pg_round_up end)

first_page_lem :
    (end : ℕ)
    → mem_start ≤ end
    → end ≤ mem_end
    → (pg_round_up end ≡ page_addr (first_page end))
      × (first_page end ≤ num_pages)
      × (end ≤ pg_round_up end)
      × (pg_round_up end < end + page_size)
first_page_lem end lo hi =
    let up = pg_round_up_lem end (omega arith) in
    let index = page_idx_lem (pg_round_up end) (omega arith) in
    (ground arith, ground arith, omega arith, omega arith)

-- The state in which init_bitmap calls kfree_range.
bare : ℕ → Kernel → Kernel
bare end s = record (init_lock mem_lock "mem" s) {
  start_page = pg_round_up end;
  mem_bitmap = occupy (first_page end) s.mem_bitmap;
}

module _ (end : ℕ) (s : Kernel) (lo : mem_start ≤ end) (hi : end ≤ mem_end) where
  bare-Swept :
      IsSteady s
      → ((j : ℕ) → s.mem_bitmap j ≡ 0)
      → (t : Kernel) × (kfree_range (page_addr (first_page end)) mem_end (bare end s) ≡ ok tt t)
        × Swept (first_page end) (bare end s) t
  unfolding bare init_lock
  bare-Swept steady zeros =
      kfree_range-Swept (first_page end) (bare end s) (first_page_lem end lo hi).1
        (record { wide = steady.wide; quiet = steady.quiet }) (refl, refl)
        (omega (arith, first_page_lem end lo hi))
        (λ j h. ground (arith, occupy_lem (first_page end) s.mem_bitmap j, zeros j))

  Swept-Initialized :
      {t : Kernel}
      → ((j : ℕ) → s.mem_bitmap j ≡ 0)
      → Swept (first_page end) (bare end s) t
      → Initialized end s t
  unfolding bare init_lock
  Swept-Initialized {t} zeros w =
      let (whole, few, above, near) = first_page_lem end lo hi in
      let start : t.start_page ≡ page_addr (first_page end) = w.start ∙ whole in
      record {
        start = omega (arith, w.start, whole);
        steady = w.steady;
        unlocked = w.free;
        pages =
            λ j h. ground (arith, w.pages j, zeros j, occupy_lem (first_page end) s.mem_bitmap j);
        bytes = λ a. ground (arith, w.bytes a);
      }

  -- init_bitmap, called on a bitmap of zeros (it lies in .bss), returns, and leaves exactly the
  -- whole pages between the end of the kernel and the end of RAM free.
  pub init_bitmap-Initialized :
      IsSteady s
      → ((j : ℕ) → s.mem_bitmap j ≡ 0)
      → (t : Kernel) × (init_bitmap end s ≡ ok tt t) × Initialized end s t
  unfolding init_bitmap bare init_lock occupy_below
  init_bitmap-Initialized steady zeros =
      let (t, run, w) = bare-Swept steady zeros in
      let (whole, few, above, near) = first_page_lem end lo hi in
      let positive : leb (2 ^ 31) (first_page end) ≡ false = ground (arith, few) in
      (
        t,
        rw positive (ap (λ p. kfree_range p mem_end (bare end s)) whole ∙ run),
        Swept-Initialized zeros w,
      )
