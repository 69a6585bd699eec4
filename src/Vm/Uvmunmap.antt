-- ===== src/Vm/Uvmunmap.antt =====
-- uvmunmap of kernel/vm.c: the loop gives back exactly the mapped pages of its range, and its fuel
-- suffices.
use wl_00_rv.Prelude.{
  ℕ, zero, suc, ◌+◌, ◌*◌, ◌/◌, ◌%◌, ◌^◌, ◌≡◌, ◌<◌, refl, ap, ◌∙◌, arith, true, false, ltb, add32,
}
use wl_00_rv.Machine.{Kernel, ok, and_then, ◌>>=◌}
use wl_00_rv.Mem.{page_size}
use wl_00_rv.Vm.Defs.{find_pte}
use wl_00_rv.Vm.Unmap.{drop_pte, unmap_loop, uvmunmap}
use wl_00_rv.Vm.Tables.{IsPagetable, IsReady}
use wl_00_rv.Vm.Owned.{Owns, Owns-narrow, Released, Released-zero, Released-suc, Owns-later}
use wl_00_rv.Vm.Drop.{drop-Released}

Owns-first : (s : Kernel) (pt va n : ℕ) → Owns s pt va (suc n) → Owns s pt va 1
Owns-first s pt va n own = Owns-narrow s pt va (suc n) va 1 (λ a i. ground arith) own

unmap_loop-step :
    (fuel pt va end : ℕ) (s t : Kernel)
    → va < end
    → va + page_size < 2 ^ 32
    → (find_pte pt va false >>= drop_pte true) s ≡ ok tt t
    → unmap_loop (suc fuel) pt va end true s ≡ unmap_loop fuel pt (va + page_size) end true t
unfolding unmap_loop
unmap_loop-step fuel pt va end s t more top dropped =
    let go : ltb va end ≡ true = ground arith in
    let next : add32 va page_size ≡ va + page_size = omega arith in
    rw go (
      ap (λ m. and_then m λ _. unmap_loop fuel pt (add32 va page_size) end true) dropped
      ∙ ap (λ x. unmap_loop fuel pt x end true t) next)

unmap_loop-Released :
    (n pt va : ℕ) (s : Kernel)
    → IsReady s
    → IsPagetable s pt
    → va % page_size ≡ 0
    → va + n * page_size < 2 ^ 32
    → Owns s pt va n
    → (t : Kernel) × (unmap_loop (suc n) pt va (va + n * page_size) true s ≡ ok tt t)
      × Released s t pt va n
unfolding unmap_loop
unmap_loop-Released zero pt va s ready table aligned top own =
    let stop : ltb va (va + 0 * page_size) ≡ false = ground arith in
    (s, rw stop refl, Released-zero s pt va ready table)
unmap_loop-Released (suc n) pt va s ready table aligned top own =
    let (t, dropped, first) =
      drop-Released pt va s ready table aligned (omega arith) (Owns-first s pt va n own) in
    let (u, run, rest) =
      unmap_loop-Released n pt (va + page_size) t first.ready first.table (omega arith)
        (omega arith) (Owns-later s t pt va n aligned first own) in
    let end : va + suc n * page_size ≡ va + page_size + n * page_size = omega arith in
    (
      u,
      unmap_loop-step (suc n) pt va (va + suc n * page_size) s t (omega arith) (omega arith) dropped
          ∙ ap (λ e. unmap_loop (suc n) pt (va + page_size) e true t) end
          ∙ run,
      Released-suc s t pt va n aligned first u own rest,
    )

-- uvmunmap returns. Every page of its range is then unmapped, and the pages that were mapped there
-- are free; no other translation, no other page of the allocator and no byte outside the table and
-- those pages has changed. (The range lies within the address space, and its pages are their own.)
pub uvmunmap-Released :
    (n pt va : ℕ) (s : Kernel)
    → IsReady s
    → IsPagetable s pt
    → va % page_size ≡ 0
    → va + n * page_size < 2 ^ 32
    → Owns s pt va n
    → (t : Kernel) × (uvmunmap pt va (n * page_size) true s ≡ ok tt t) × Released s t pt va n
unfolding uvmunmap
uvmunmap-Released n pt va s ready table aligned top own =
    let (t, run, out) = unmap_loop-Released n pt va s ready table aligned top own in
    let size : n * page_size % page_size ≡ 0 = omega arith in
    let rounds : n * page_size / page_size ≡ n = omega arith in
    let end : add32 va (n * page_size) ≡ va + n * page_size = omega arith in
    (t, rw (aligned, size, rounds) (ap (λ e. unmap_loop (suc n) pt va e true s) end ∙ run), out)
