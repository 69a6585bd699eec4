-- ===== src/Vm/Range.antt =====
-- What it means that a range of pages has been mapped.
use wl_00_rv.Prelude.{
  ℕ, suc, ◌+◌, ◌*◌, ◌-◌, ◌/◌, ◌%◌, ◌^◌, ◌≡◌, ◌<◌, ◌⊎◌, inl, inr, refl, ap, ◌∙◌, sym, arith, true,
  false, ◌==◌, ◌&&◌, if◌then◌else◌, Bool, Bool-cases, leb, ltb,
}
use wl_00_rv.Machine.{Kernel}
use wl_00_rv.Mem.{page_size, num_pages, mem_start}
use wl_00_rv.Mem.Pages.{page_addr}
use wl_00_rv.Vm.Defs.{minus_one}
use wl_00_rv.Vm.Entry.{leaf}
use wl_00_rv.Vm.Tables.{entry, InUse}
use wl_00_rv.Vm.Extends.{Extends}
use wl_00_rv.Vm.Map.{Mapped}

-- The address `a` lies in the `n` pages from `va` on.
abbrev pub inside : (va n a : ℕ) → Bool
inside va n a = leb va a && ltb a (va + n * page_size)

-- From `s` to `t` the `n` pages from `va` on are mapped to those from `pa` on, and no other is.
abbrev pub MappedRange : (s t : Kernel) (pt va n pa flags : ℕ) → Type 0
MappedRange s t pt va n pa flags =
    (a : ℕ)
    → a < 2 ^ 32
    → entry t.ram pt a ≡ (
        if inside va n a
        then leaf (pa + (a / page_size * page_size - va)) flags
        else entry s.ram pt a)

-- No page is left.
abbrev pub Full : Kernel → Type 0
Full s = (j : ℕ) → j < num_pages → s.mem_bitmap j ≡ 0

pub Full-Extends : (s t : Kernel) (pt : ℕ) → Extends s t pt → Full s → Full t
Full-Extends s t pt ext full j hj =
    let index : (page_addr j - mem_start) / page_size ≡ j = omega arith in
    let used : InUse s (page_addr j) = record {
      aligned = omega arith;
      low = omega arith;
      high = omega arith;
      taken = ap s.mem_bitmap index ∙ full j hj;
    } in
    ap t.mem_bitmap (sym index) ∙ (ext.in_use (page_addr j) used).taken

pub MappedRange-suc :
    (s t u : Kernel) (pt va n pa flags : ℕ)
    → va % page_size ≡ 0
    → Mapped s t pt va pa flags
    → MappedRange t u pt (va + page_size) n (pa + page_size) flags
    → MappedRange s u pt va (suc n) pa flags
MappedRange-suc s t u pt va n pa flags hv first rest a ha =
    elim (Bool-cases (va / page_size == a / page_size)) [
      | inl e ↦
          let past : inside (va + page_size) n a ≡ false = ground arith in
          let here : inside va (suc n) a ≡ true = ground arith in
          let place : pa ≡ pa + (a / page_size * page_size - va) = ground arith in
          rw here (rest a ha ∙ rw past (first a ha ∙ rw e (ap (λ x. leaf x flags) place)))
      | inr e ↦ elim (Bool-cases (inside (va + page_size) n a)) [
        | inl i ↦
            let here : inside va (suc n) a ≡ true = ground arith in
            let place : pa + page_size + (a / page_size * page_size - (va + page_size))
                ≡ pa + (a / page_size * page_size - va) =
              ground arith in
            rw here (rest a ha ∙ rw i (ap (λ x. leaf x flags) place))
        | inr i ↦
            let here : inside va (suc n) a ≡ false = ground arith in
            rw here (rest a ha ∙ rw i (first a ha ∙ rw e refl))
      ]
    ]

pub MappedRange-zero : (s : Kernel) (pt va pa flags : ℕ) → MappedRange s s pt va 0 pa flags
MappedRange-zero s pt va pa flags a ha =
    let empty : inside va 0 a ≡ false = ground arith in rw empty refl

-- What mappages leaves behind with the result `r`: every page mapped, or those below the first for
-- which no second-level table could be allocated.
abbrev pub Outcome : (s t : Kernel) (pt va n pa flags r : ℕ) → Type 0
Outcome s t pt va n pa flags r =
    Extends s t pt
    × (((r ≡ 0) × MappedRange s t pt va n pa flags)
        ⊎ ((r ≡ minus_one) × Full t × ((k : ℕ) × (k < n) × MappedRange s t pt va k pa flags)))

-- None of the `n` pages from `va` on is mapped.
abbrev pub Unmapped : (ram : ℕ → ℕ) (pt va n : ℕ) → Type 0
Unmapped ram pt va n = (a : ℕ) → a < 2 ^ 32 → inside va n a ≡ true → entry ram pt a % 2 ≡ 0
