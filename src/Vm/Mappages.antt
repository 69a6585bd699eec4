-- ===== src/Vm/Mappages.antt =====
-- mappages of kernel/vm.c: the loop maps exactly its range, and its fuel suffices.
pub mod Steps
use wl_00_rv.Prelude.{
  ℕ, zero, suc, ◌+◌, ◌*◌, ◌/◌, ◌%◌, ◌^◌, ◌≡◌, ◌≢◌, ◌≤◌, ◌<◌, inl, inr, refl, ap, ap₂, subst, ◌∙◌,
  arith, true, false, ◌==◌, ◌!=◌, add32, u32, codes,
}
use wl_00_rv.Machine.{Kernel, ok, and_then}
use wl_00_rv.Spinlock.Critical.{settled}
use wl_00_rv.Kprint.Output.{error-sent}
use wl_00_rv.Mem.{page_size}
use wl_00_rv.Vm.Defs.{mappage, mappages, map_loop, minus_one}
use wl_00_rv.Vm.Tables.{IsPagetable, IsReady}
use wl_00_rv.Vm.Extends.{
  Extends, Extends-refl, Extends-trans, Extends-reported, SameEntries, reported,
}
use wl_00_rv.Vm.Map.{Mapped, mappage-Mapped}
use wl_00_rv.Vm.Range.{MappedRange-suc, MappedRange-zero, Full, Full-Extends, Outcome, Unmapped}
use wl_00_rv.Vm.Mappages.Steps.{
  map_loop-stop, map_loop-step, map_loop-fail, Unmapped-step, map_loop-failed, next_args,
  Outcome-suc,
}

map_loop-Outcome :
    (n pt va pa flags : ℕ) (s : Kernel)
    → IsReady s
    → IsPagetable s pt
    → va % page_size ≡ 0
    → va + n * page_size ≤ 2 ^ 32
    → n * page_size < 2 ^ 32
    → pa % page_size ≡ 0
    → pa + n * page_size ≤ 2 ^ 32
    → flags < 1024
    → Unmapped s.ram pt va n
    → (r : ℕ) × (t : Kernel) × (map_loop
          (suc n)
          pt
          (u32 va)
          (u32 (va + n * page_size))
          (u32 pa)
          flags
          s
        ≡ ok r t)
      × Outcome s t pt va n pa flags r
map_loop-Outcome zero pt va pa flags s ready table hv top small hp topp hf free = (
  0,
  s,
  ap (λ e. map_loop 1 pt (u32 va) e (u32 pa) flags s) (omega arith)
      ∙ map_loop-stop 0 pt (u32 va) (u32 pa) flags s,
  (Extends-refl s pt ready table, inl (refl, MappedRange-zero s pt va pa flags)),
)
map_loop-Outcome (suc n) pt va pa flags s ready table hv top small hp topp hf free =
    let e = u32 (va + suc n * page_size) in
    let ne : u32 va ≢ e = omega arith in
    let low : u32 va ≡ va = omega arith in
    let lowp : u32 pa ≡ pa = omega arith in
    let (r, t, run, ext, out) =
      mappage-Mapped pt (u32 va) (u32 pa) flags s ready table (omega arith) (omega arith)
        (omega arith) (omega arith) hf (rw low (free va (omega arith) (ground arith))) in
    elim out [
      | inl (null, full, same) ↦
          map_loop-failed n pt va pa flags s t ne (run ∙ ap (λ x. ok x t) null) ext full same
      | inr (real, first) ↦
          let first' =
            subst (λ p. Mapped s t pt va p flags) lowp
              (subst (λ v. Mapped s t pt v (u32 pa) flags) low first) in
          let (r', u, run', (ext', out')) =
            map_loop-Outcome n pt (va + page_size) (pa + page_size) flags t ext.ready ext.table
              (omega arith) (omega arith) (omega arith) (omega arith) (omega arith) hf
              (Unmapped-step s t pt va n pa flags hv first' free) in
          (
            r',
            u,
            map_loop-step (suc n) pt (u32 va) e (u32 pa) flags r s t ne run real
                ∙ next_args n pt va pa flags t
                ∙ run',
            Outcome-suc s t u pt va n pa flags r' hv ext first' (ext', out'),
          )
    ]

mappages-map_loop :
    (pt va pa n flags : ℕ) (s : Kernel)
    → va % page_size ≡ 0
    → pa % page_size ≡ 0
    → 0 < n
    → va < 2 ^ 32
    → pa < 2 ^ 32
    → mappages pt va pa (n * page_size) flags s
      ≡ map_loop (suc n) pt (u32 va) (u32 (va + n * page_size)) (u32 pa) flags s
unfolding mappages
mappages-map_loop pt va pa n flags s hv hp some_pages wide widep =
    let aligned : n * page_size % page_size ≡ 0 = omega arith in
    let rounds : n * page_size / page_size ≡ n = omega arith in
    let nonzero : (n * page_size == 0) ≡ false = ground arith in
    let low : va ≡ u32 va = omega arith in
    let lowp : pa ≡ u32 pa = omega arith in
    rw (hv, hp, aligned, nonzero, rounds)
      (ap₂ (λ x y. map_loop (suc n) pt x (u32 (va + n * page_size)) y flags s) low lowp)

-- mappages returns: it maps the whole range and answers 0, or it runs out of memory, answers -1 and
-- leaves a proper prefix of the range mapped. No other translation changes, and no memory outside
-- the table. (The range lies within the address space, and none of it is mapped.)
pub mappages-Outcome :
    (pt va pa n flags : ℕ) (s : Kernel)
    → IsReady s
    → IsPagetable s pt
    → va % page_size ≡ 0
    → pa % page_size ≡ 0
    → 0 < n
    → n < 2 ^ 20
    → va + n * page_size ≤ 2 ^ 32
    → pa + n * page_size ≤ 2 ^ 32
    → flags < 1024
    → Unmapped s.ram pt va n
    → (r : ℕ) × (t : Kernel) × (mappages pt va pa (n * page_size) flags s ≡ ok r t)
      × Outcome s t pt va n pa flags r
mappages-Outcome pt va pa n flags s ready table hv hp some_pages small top topp hf free =
    let (r, t, run, out) =
      map_loop-Outcome n pt va pa flags s ready table hv top (omega arith) hp topp hf free in
    let e = mappages-map_loop pt va pa n flags s hv hp some_pages (omega arith) (omega arith) in
    (r, t, e ∙ run, out)
