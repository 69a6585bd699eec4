-- ===== src/Vm/Mappages/Steps.antt =====
-- The rounds of the loop of mappages, and how their outcomes add up.
use wl_00_rv.Prelude.{
  ℕ, suc, ◌+◌, ◌*◌, ◌/◌, ◌%◌, ◌≡◌, ◌≢◌, inl, inr, refl, ap, ap₂, ◌∙◌, arith, true, false, ◌==◌,
  ◌!=◌, add32, u32, codes,
}
use wl_00_rv.Machine.{Kernel, ok, and_then}
use wl_00_rv.Spinlock.Critical.{settled}
use wl_00_rv.Kprint.Output.{error-sent}
use wl_00_rv.Mem.{page_size}
use wl_00_rv.Vm.Defs.{mappage, map_loop, minus_one}
use wl_00_rv.Vm.Tables.{IsReady}
use wl_00_rv.Vm.Extends.{Extends, Extends-trans, Extends-reported, SameEntries, reported}
use wl_00_rv.Vm.Map.{Mapped}
use wl_00_rv.Vm.Range.{MappedRange-suc, MappedRange-zero, Full, Full-Extends, Outcome, Unmapped}

pub map_loop-stop :
    (fuel pt c p flags : ℕ) (s : Kernel) → map_loop (suc fuel) pt c c p flags s ≡ ok 0 s
unfolding map_loop
map_loop-stop fuel pt c p flags s = let stop : (c != c) ≡ false = ground arith in rw stop refl

pub map_loop-step :
    (fuel pt c e p flags r : ℕ) (s t : Kernel)
    → c ≢ e
    → mappage pt c p flags s ≡ ok r t
    → r ≢ 0
    → map_loop (suc fuel) pt c e p flags s
      ≡ map_loop fuel pt (add32 c page_size) e (add32 p page_size) flags t
unfolding map_loop
map_loop-step fuel pt c e p flags r s t ne mapped real =
    let more : (c != e) ≡ true = ground arith in
    let some_pte : (r == 0) ≡ false = ground arith in rw (more, mapped, some_pte) refl

pub map_loop-fail :
    (fuel pt c e p flags : ℕ) (s t : Kernel)
    → c ≢ e
    → mappage pt c p flags s ≡ ok 0 t
    → IsReady t
    → map_loop (suc fuel) pt c e p flags s
      ≡ ok minus_one (reported (codes "mappages: failed to map va to pa") t)
unfolding map_loop
map_loop-fail fuel pt c e p flags s t ne failed ready =
    let more : (c != e) ≡ true = ground arith in
    rw (more, failed)
      (ap (λ m. and_then m λ _ u. ok minus_one u)
        (error-sent (codes "mappages: failed to map va to pa") t ready.calm ready.steady
          ready.console))

pub Unmapped-step :
    (s t : Kernel) (pt va n pa flags : ℕ)
    → va % page_size ≡ 0
    → Mapped s t pt va pa flags
    → Unmapped s.ram pt va (suc n)
    → Unmapped t.ram pt (va + page_size) n
Unmapped-step s t pt va n pa flags hv first free a ha i =
    let other : (va / page_size == a / page_size) ≡ false = ground arith in
    let was = free a ha (ground arith) in ap (λ x. x % 2) (first a ha ∙ rw other refl) ∙ was

-- A failure with the first page left unmapped.
pub map_loop-failed :
    (n pt va pa flags : ℕ) (s t : Kernel)
    → u32 va ≢ u32 (va + suc n * page_size)
    → mappage pt (u32 va) (u32 pa) flags s ≡ ok 0 t
    → Extends s t pt
    → Full s
    → SameEntries s t pt
    → (r : ℕ) × (u : Kernel) × (map_loop
          (suc (suc n))
          pt
          (u32 va)
          (u32 (va + suc n * page_size))
          (u32 pa)
          flags
          s
        ≡ ok r u)
      × Outcome s u pt va (suc n) pa flags r
unfolding settled
map_loop-failed n pt va pa flags s t ne e ext full same =
    let text = codes "mappages: failed to map va to pa" in
    (
      minus_one,
      reported text t,
      map_loop-fail (suc n) pt (u32 va) (u32 (va + suc n * page_size)) (u32 pa) flags s t ne e
          ext.ready,
      (
        Extends-reported text s t pt ext,
        inr (
          refl,
          Full-Extends s (reported text t) pt (Extends-reported text s t pt ext) full,
          (0, omega arith, λ a ha. same a ∙ MappedRange-zero s pt va pa flags a ha),
        ),
      ),
    )

pub next_args :
    (n pt va pa flags : ℕ) (t : Kernel)
    → map_loop
        (suc n)
        pt
        (add32 (u32 va) page_size)
        (u32 (va + suc n * page_size))
        (add32 (u32 pa) page_size)
        flags
        t
      ≡ map_loop
          (suc n)
          pt
          (u32 (va + page_size))
          (u32 (va + page_size + n * page_size))
          (u32 (pa + page_size))
          flags
          t
next_args n pt va pa flags t =
    let e : va + suc n * page_size ≡ va + page_size + n * page_size = omega arith in
    let next : add32 (u32 va) page_size ≡ u32 (va + page_size) = omega arith in
    let nextp : add32 (u32 pa) page_size ≡ u32 (pa + page_size) = omega arith in
    ap₂ (λ x y. map_loop (suc n) pt x (u32 y) (add32 (u32 pa) page_size) flags t) next e
    ∙ ap
        (λ x.
          map_loop (suc n) pt (u32 (va + page_size)) (u32 (va + page_size + n * page_size)) x flags
            t)
        nextp

pub Outcome-suc :
    (s t u : Kernel) (pt va n pa flags r : ℕ)
    → va % page_size ≡ 0
    → Extends s t pt
    → Mapped s t pt va pa flags
    → Outcome t u pt (va + page_size) n (pa + page_size) flags r
    → Outcome s u pt va (suc n) pa flags r
Outcome-suc s t u pt va n pa flags r hv ext first (ext', out) = (
  Extends-trans s t u pt ext ext',
  elim out [
    | inl (z, rest) ↦ inl (z, MappedRange-suc s t u pt va n pa flags hv first rest)
    | inr (z, full, (k, below, rest)) ↦
        inr (z, full, (suc k, omega arith, MappedRange-suc s t u pt va k pa flags hv first rest))
  ],
)
