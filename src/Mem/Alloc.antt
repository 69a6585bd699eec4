-- ===== src/Mem/Alloc.antt =====
-- kalloc takes the lowest free page, and answers NULL only if there is none.
use wl_00_rv.Prelude.{
  ℕ, zero, suc, ◌+◌, ◌≡◌, ◌≢◌, ◌≤◌, ◌<◌, ◌⊎◌, inl, inr, ap, arith, Option, none, some, ◌!=◌, ◌==◌,
  Bool-cases,
}
use wl_00_rv.Machine.{Kernel, Run, ok}
use wl_00_rv.Spinlock.{mem_lock}
use wl_00_rv.Spinlock.Critical.{IsSteady, IsFree, entered, settled, lock-entered, unlock-entered}
use wl_00_rv.Mem.{num_pages, scan, claim, kalloc, set_page}
use wl_00_rv.Mem.Pages.{page_addr}

-- The outcome of the scan of `n` pages from `i` on.
abbrev pub FirstFree : (n i : ℕ) → (ℕ → ℕ) → Option ℕ → Type 0
FirstFree n i bitmap none = (j : ℕ) → i ≤ j → j < i + n → bitmap j ≡ 0
FirstFree n i bitmap (some k) =
    (i ≤ k) × (k < i + n) × (bitmap k ≢ 0) × ((j : ℕ) → i ≤ j → j < k → bitmap j ≡ 0)

FirstFree-later :
    (n i : ℕ) (bitmap : ℕ → ℕ) (found : Option ℕ)
    → bitmap i ≡ 0
    → FirstFree n (i + 1) bitmap found
    → FirstFree (suc n) i bitmap found
FirstFree-later n i bitmap none taken f = λ j lo hi. elim (Bool-cases (i == j)) [
  | inl e ↦ ground arith
  | inr e ↦ f j (ground arith) (omega arith)
]
FirstFree-later n i bitmap (some k) taken (lo, hi, is_free, below) = (
  omega arith,
  omega arith,
  is_free,
  λ j lo hi. elim (Bool-cases (i == j)) [
    | inl e ↦ ground arith
    | inr e ↦ below j (ground arith) (omega arith)
  ],
)

scan-FirstFree : (n i : ℕ) (bitmap : ℕ → ℕ) → FirstFree n i bitmap (scan n i bitmap)
unfolding scan
scan-FirstFree zero i bitmap = λ j lo hi. absurd (omega arith)
scan-FirstFree (suc n) i bitmap = elim (Bool-cases (bitmap i != 0)) [
  | inl e ↦ rw e (omega arith, omega arith, ground arith, λ j lo hi. absurd (omega arith))
  | inr e ↦ rw e (FirstFree-later n i bitmap _ (ground arith) (scan-FirstFree n (i + 1) bitmap))
]

-- What kalloc leaves behind, by what its scan found.
abbrev pub allocated : Option ℕ → Kernel → Run ℕ
allocated none s = ok 0 (settled s)
allocated (some i) s = ok (page_addr i) (set_page i 0 (settled s))

claim-allocated :
    (found : Option ℕ) (s : Kernel)
    → IsSteady s
    → IsFree mem_lock s
    → FirstFree num_pages 0 s.mem_bitmap found
    → claim found (entered mem_lock s) ≡ allocated found s
unfolding claim settled entered
claim-allocated none s steady free found = rw (unlock-entered mem_lock s s steady free)
claim-allocated (some i) s steady free found =
    rw (unlock-entered mem_lock s (set_page i 0 s) steady free)
      (ap (λ a. ok a (set_page i 0 (settled s))) (omega arith))

pub kalloc-allocated :
    (s : Kernel)
    → IsSteady s
    → IsFree mem_lock s
    → kalloc s ≡ allocated (scan num_pages 0 s.mem_bitmap) s
unfolding kalloc entered
kalloc-allocated s steady free = rw (lock-entered mem_lock s steady.wide free) (
    claim-allocated (scan num_pages 0 s.mem_bitmap) s steady free
      (scan-FirstFree num_pages 0 s.mem_bitmap))

allocated_cases :
    (found : Option ℕ) (s : Kernel)
    → FirstFree num_pages 0 s.mem_bitmap found
    → kalloc s ≡ allocated found s
    → (((j : ℕ) → j < num_pages → s.mem_bitmap j ≡ 0) × (kalloc s ≡ ok 0 (settled s)))
      ⊎ ((i : ℕ) × (i < num_pages)
          × (s.mem_bitmap i ≢ 0)
          × ((j : ℕ) → j < i → s.mem_bitmap j ≡ 0)
          × (kalloc s ≡ ok (page_addr i) (set_page i 0 (settled s))))
allocated_cases none s f e = inl (λ j hi. f j (omega arith) (omega arith), e)
allocated_cases (some i) s (lo, hi, is_free, below) e =
    inr (i, omega arith, is_free, λ j lt. below j (omega arith) lt, e)

-- With mem_lock free, kalloc returns NULL and changes nothing but the saved interrupt bit if every
-- page is taken, else it takes the lowest free page and returns its address.
pub kalloc_lem :
    (s : Kernel)
    → IsSteady s
    → IsFree mem_lock s
    → (((j : ℕ) → j < num_pages → s.mem_bitmap j ≡ 0) × (kalloc s ≡ ok 0 (settled s)))
      ⊎ ((i : ℕ) × (i < num_pages)
          × (s.mem_bitmap i ≢ 0)
          × ((j : ℕ) → j < i → s.mem_bitmap j ≡ 0)
          × (kalloc s ≡ ok (page_addr i) (set_page i 0 (settled s))))
kalloc_lem s steady free =
    allocated_cases (scan num_pages 0 s.mem_bitmap) s (scan-FirstFree num_pages 0 s.mem_bitmap)
      (kalloc-allocated s steady free)
