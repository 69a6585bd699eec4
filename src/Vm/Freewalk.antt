-- ===== src/Vm/Freewalk.antt =====
-- freewalk of kernel/vm.c: it gives back the pages of a table.
use wl_00_rv.Prelude.{
  ℕ, zero, suc, ◌+◌, ◌-◌, ◌/◌, ◌%◌, ◌≡◌, ◌≢◌, ◌≤◌, ◌<◌, ◌⊎◌, inl, inr, refl, ap, subst, ◌∙◌, sym,
  arith, true, false, ◌==◌, ◌!=◌, bit_and, Bool-cases,
}
use wl_00_rv.Prelude.Bits.{bit_and-one}
use wl_00_rv.Machine.{Kernel, ok, and_then}
use wl_00_rv.Mem.{page_size, num_pages, mem_start, kfree}
use wl_00_rv.Mem.Pages.{page_addr}
use wl_00_rv.Vm.Defs.{pte2pa}
use wl_00_rv.Vm.Unmap.{free_table, freewalk_loop, freewalk}
use wl_00_rv.Vm.Tables.{upper, second, HasTable, InUse, IsPagetable, IsReady}
use wl_00_rv.Vm.Freed.{Freed, kfree-Freed, Freed-none, Freed-same, Freed-then, upper-Freed}

-- One of the `n` upper entries from `i` on points to a table.
abbrev pub IsLinked : (s : Kernel) (pt i n j : ℕ) → Type 0
IsLinked s pt i n j = (i ≤ j) × (j < i + n) × HasTable s.ram pt j

-- Page `k` is the second-level table of one of those entries.
abbrev pub TablePage : (s : Kernel) (pt i n k : ℕ) → Type 0
TablePage s pt i n k = (j : ℕ) × IsLinked s pt i n j × (second s.ram pt j ≡ page_addr k)

-- The second-level tables of those entries are different pages in use, and none is the root.
record IsWalkable (s : Kernel) (pt i n : ℕ) : Type 0 where
  aligned : pt % page_size ≡ 0
  bound : i + n ≤ 1024
  page :
      (j : ℕ)
      → IsLinked s pt i n j
      → (k : ℕ) × (k < num_pages)
        × (second s.ram pt j ≡ page_addr k)
        × (s.start_page ≤ page_addr k)
        × (s.mem_bitmap k ≡ 0)
  apart : (j : ℕ) → IsLinked s pt i n j → second s.ram pt j ≢ pt
  distinct :
      (j l : ℕ)
      → IsLinked s pt i n j
      → IsLinked s pt i n l
      → second s.ram pt j ≡ second s.ram pt l
      → j ≡ l

free_table-Freed :
    (s : Kernel) (pt i n : ℕ)
    → IsReady s
    → IsWalkable s pt i (suc n)
    → (t : Kernel) × (free_table pt i s ≡ ok tt t) × Freed s t (TablePage s pt i 1)
unfolding free_table
free_table-Freed s pt i n ready walk = elim (Bool-cases (upper s.ram pt i % 2 == 1)) [
  | inl e ↦
      let has : HasTable s.ram pt i = ground arith in
      let here : IsLinked s pt i (suc n) i = (omega arith, omega arith, has) in
      let valid : (bit_and (upper s.ram pt i) 1 != 0) ≡ true =
        ground (arith, bit_and-one (upper s.ram pt i)) in
      let (k, real, page, low, taken) = walk.page i here in
      let (t, run, f) = kfree-Freed (second s.ram pt i) k s ready real page low taken in
      (
        t,
        rw valid run,
        Freed-same s t (λ j. j ≡ k) (TablePage s pt i 1)
            (λ j same. (i, (omega arith, omega arith, has), page ∙ ap page_addr (sym same)))
            (λ j linked.
              let index : linked.0 ≡ i = omega (arith, linked) in
              let same = ap (second s.ram pt) (sym index) ∙ linked.2 in omega (arith, same, page))
            f,
      )
  | inr e ↦
      let skip : (bit_and (upper s.ram pt i) 1 != 0) ≡ false =
        ground (arith, bit_and-one (upper s.ram pt i)) in
      (
        s,
        rw skip refl,
        Freed-none s (TablePage s pt i 1) ready λ k linked.
            let index : linked.0 ≡ i = omega (arith, linked) in
            let has : HasTable s.ram pt i = subst (HasTable s.ram pt) index linked.1.2 in
            ground (arith, has),
      )
]

IsLinked-first : (s : Kernel) (pt i n j : ℕ) → IsLinked s pt i 1 j → IsLinked s pt i (suc n) j
IsLinked-first s pt i n j (lo, hi, has) = (lo, omega arith, has)

-- The first table given back, then the rest.
module _ (s t : Kernel) (pt i n : ℕ) (walk : IsWalkable s pt i (suc n))
    (first : Freed s t (TablePage s pt i 1)) where
  upper-later : (j : ℕ) → j < 1024 → upper t.ram pt j ≡ upper s.ram pt j
  upper-later j hj =
      upper-Freed s t (TablePage s pt i 1) pt j first walk.aligned
        (λ k (l, linked, e) same. walk.apart l (IsLinked-first s pt i n l linked) (e ∙ same)) hj

  second-later : (j : ℕ) → IsLinked t pt (i + 1) n j → second t.ram pt j ≡ second s.ram pt j
  second-later j (lo, hi, has) = ap pte2pa (upper-later j (omega (arith, walk.bound)))

  IsLinked-later : (j : ℕ) → IsLinked t pt (i + 1) n j → IsLinked s pt i (suc n) j
  IsLinked-later j (lo, hi, has) = (
    omega arith,
    omega arith,
    ap (λ x. x % 2) (sym (upper-later j (omega (arith, walk.bound)))) ∙ has,
  )

  -- A later table is not the first one.
  table-ne :
      (j l : ℕ)
      → IsLinked t pt (i + 1) n j
      → IsLinked s pt i 1 l
      → second s.ram pt l ≢ second s.ram pt j
  table-ne j l later first_one e =
      let same =
        walk.distinct l j (IsLinked-first s pt i n l first_one) (IsLinked-later j later) e in
      omega (arith, same, later, first_one)

  IsWalkable-later : IsWalkable t pt (i + 1) n
  IsWalkable-later = record {
    aligned = walk.aligned;
    bound = omega (arith, walk.bound);
    page = λ j later.
        let (k, real, e, low, taken) = walk.page j (IsLinked-later j later) in
        (
          k,
          real,
          second-later j later ∙ e,
          subst (λ x. x ≤ page_addr k) (sym first.start) low,
          first.kept k (λ (l, linked, e'). table-ne j l later linked (e' ∙ sym e)) ∙ taken,
        );
    apart = λ j later e. walk.apart j (IsLinked-later j later) (sym (second-later j later) ∙ e);
    distinct = λ j l hj hl e.
        walk.distinct j l (IsLinked-later j hj) (IsLinked-later l hl)
          (sym (second-later j hj) ∙ (e ∙ second-later l hl));
  }

  TablePage-cases :
      (k : ℕ) → TablePage s pt i (suc n) k → TablePage s pt i 1 k ⊎ TablePage t pt (i + 1) n k
  TablePage-cases k (j, (lo, hi, has), e) = elim (Bool-cases (i == j)) [
    | inl here ↦ inl (j, (lo, ground arith, has), e)
    | inr there ↦
        let same = upper-later j (omega (arith, walk.bound)) in
        inr (j, (ground arith, omega arith, ap (λ x. x % 2) same ∙ has), ap pte2pa same ∙ e)
  ]

  Freed-later :
      (u : Kernel) → Freed t u (TablePage t pt (i + 1) n) → Freed s u (TablePage s pt i (suc n))
  Freed-later u rest =
      let apart = λ (k : ℕ) (p : TablePage s pt i 1 k) (q : TablePage t pt (i + 1) n k).
        table-ne q.0 p.0 q.1 p.1 (p.2 ∙ sym (sym (second-later q.0 q.1) ∙ q.2)) in
      Freed-same s u (λ k. TablePage s pt i 1 k ⊎ TablePage t pt (i + 1) n k)
        (TablePage s pt i (suc n))
        (λ k r. elim r [
          | inl p ↦ (p.0, IsLinked-first s pt i n p.0 p.1, p.2)
          | inr q ↦ (q.0, IsLinked-later q.0 q.1, sym (second-later q.0 q.1) ∙ q.2)
        ])
        TablePage-cases
        (Freed-then s t u (TablePage s pt i 1) (TablePage t pt (i + 1) n) apart first rest)

freewalk_loop-Freed :
    (n pt i : ℕ) (s : Kernel)
    → IsReady s
    → IsWalkable s pt i n
    → (t : Kernel) × (freewalk_loop n pt i s ≡ ok tt t) × Freed s t (TablePage s pt i n)
unfolding freewalk_loop
freewalk_loop-Freed zero pt i s ready walk =
    (s, refl, Freed-none s (TablePage s pt i 0) ready λ k p. omega (arith, p.1))
freewalk_loop-Freed (suc n) pt i s ready walk =
    let (t, round, first) = free_table-Freed s pt i n ready walk in
    let (u, run, rest) =
      freewalk_loop-Freed n pt (i + 1) t first.ready (IsWalkable-later s t pt i n walk first) in
    (
      u,
      ap (λ m. and_then m λ _. freewalk_loop n pt (i + 1)) round ∙ run,
      Freed-later s t pt i n walk first u rest,
    )

-- The tables of `pt` are pages that kfree accepts.
pub record IsAllocated (s : Kernel) (pt : ℕ) : Type 0 where
  pub table : IsPagetable s pt
  pub root : s.start_page ≤ pt
  pub tables : (i : ℕ) → i < 1024 → HasTable s.ram pt i → s.start_page ≤ second s.ram pt i

-- The number of a page in use.
pub page_number :
    (s : Kernel) (a : ℕ)
    → InUse s a
    → (k : ℕ) × (k < num_pages) × (a ≡ page_addr k) × (s.mem_bitmap k ≡ 0)
page_number s a used = (
  (a - mem_start) / page_size,
  omega (arith, used.low, used.high),
  omega (arith, used.aligned, used.low),
  used.taken,
)

IsAllocated-IsWalkable : (s : Kernel) (pt : ℕ) → IsAllocated s pt → IsWalkable s pt 0 1024
IsAllocated-IsWalkable s pt alloc = record {
  aligned = alloc.table.root.aligned;
  bound = omega arith;
  page = λ j (lo, hi, has).
      let (k, real, e, taken) = page_number s (second s.ram pt j) (alloc.table.tables j hi has) in
      (k, real, e, subst (λ x. s.start_page ≤ x) e (alloc.tables j hi has), taken);
  apart = λ j (lo, hi, has). alloc.table.apart j hi has;
  distinct = λ j l (lo, hi, has) (lo', hi', has'). alloc.table.distinct j l hi hi' has has';
}

-- freewalk returns with the root and the second-level tables free, and with no other page of the
-- allocator and no byte outside those pages changed.
pub freewalk-Freed :
    (pt : ℕ) (s : Kernel)
    → IsReady s
    → IsAllocated s pt
    → (t : Kernel) × (freewalk pt s ≡ ok tt t)
      × Freed s t (λ k. TablePage s pt 0 1024 k ⊎ (page_addr k ≡ pt))
unfolding freewalk
freewalk-Freed pt s ready alloc =
    let (t, walked, tables) =
      freewalk_loop-Freed 1024 pt 0 s ready (IsAllocated-IsWalkable s pt alloc) in
    let (k, real, e, taken) = page_number s pt alloc.table.root in
    let other = λ (p : TablePage s pt 0 1024 k). alloc.table.apart p.0 p.1.1 p.1.2 (p.2 ∙ sym e) in
    let (u, freed, root) =
      kfree-Freed pt k t tables.ready real e (omega (arith, alloc.root, e, tables.start))
        (tables.kept k other ∙ taken) in
    (
      u,
      ap (λ m. and_then m λ _. kfree pt) walked ∙ freed,
      Freed-then s t u (TablePage s pt 0 1024) (λ j. page_addr j ≡ pt)
          (λ j (l, (lo, hi, has), e') same. alloc.table.apart l hi has (e' ∙ same)) tables
          (Freed-same t u (λ j. j ≡ k) (λ j. page_addr j ≡ pt) (λ j same. ap page_addr same ∙ sym e)
            (λ j same. omega (arith, same, e)) root),
    )
