-- ===== src/Vm/Uvmfree.antt =====
-- uvmfree of kernel/vm.c: an address space given back as a whole.
use wl_00_rv.Prelude.{
  ℕ, ◌*◌, ◌-◌, ◌/◌, ◌%◌, ◌≡◌, inl, inr, refl, ap, subst, ◌∙◌, arith, true, if◌then◌else◌, ltb,
  Bool-cases,
}
use wl_00_rv.Machine.{Kernel, ok, and_then, pure, ◌>>◌}
use wl_00_rv.Mem.{page_size}
use wl_00_rv.Vm.Defs.{user_base}
use wl_00_rv.Vm.Unmap.{uvmunmap, freewalk, uvmfree}
use wl_00_rv.Vm.Tables.{IsReady}
use wl_00_rv.Vm.Owned.{Owns-kept, Released, Released-zero}
use wl_00_rv.Vm.Uvmunmap.{uvmunmap-Released}
use wl_00_rv.Vm.Freed.{Freed}
use wl_00_rv.Vm.Freewalk.{freewalk-Freed}
use wl_00_rv.Vm.Space.{stack_base, UserPage, IsUserSpace, IsAllocated-u, Freed-space}

-- The memory below the stack, where there is any.
unmap_memory :
    (size pt : ℕ) (s : Kernel)
    → IsReady s
    → size % page_size ≡ 0
    → IsUserSpace s pt ((size - user_base) / page_size)
    → (t : Kernel) × ((if ltb user_base size
            then uvmunmap pt user_base (size - user_base) true
            else pure tt)
          s
        ≡ ok tt t)
      × Released s t pt user_base ((size - user_base) / page_size)
unmap_memory size pt s ready aligned space = elim (Bool-cases (ltb user_base size)) [
  | inl e ↦
      let n = (size - user_base) / page_size in
      let whole : size - user_base ≡ n * page_size = ground arith in
      let (t, run, out) =
        uvmunmap-Released n pt user_base s ready space.tables.table refl
          (omega (arith, space.below)) space.memory in
      (t, rw e (ap (λ x. uvmunmap pt user_base x true s) whole ∙ run), out)
  | inr e ↦
      let none_left : 0 ≡ (size - user_base) / page_size = ground arith in
      (
        s,
        rw e refl,
        subst (Released s s pt user_base) none_left
            (Released-zero s pt user_base ready space.tables.table),
      )
]

uvmfree-steps :
    (size pt : ℕ) (s t u v : Kernel)
    → size % page_size ≡ 0
    → (if ltb user_base size then uvmunmap pt user_base (size - user_base) true else pure tt) s
      ≡ ok tt t
    → uvmunmap pt stack_base page_size true t ≡ ok tt u
    → freewalk pt u ≡ ok tt v
    → uvmfree pt size s ≡ ok tt v
unfolding uvmfree
uvmfree-steps size pt s t u v aligned memory stack walk = rw aligned (
    ap (λ m. and_then m λ _. uvmunmap pt stack_base page_size true >> freewalk pt) memory
    ∙ ap (λ m. and_then m λ _. freewalk pt) stack
    ∙ walk)

-- uvmfree of a whole number of pages returns with every page of the address space free: its memory
-- from USER_BASE up to the size, its stack, its second-level tables and its root. No other page of
-- the allocator, no byte outside those pages and nothing else of the state has changed, but for the
-- interrupt bits that harts save. (The memory ends below the stack, and nothing is mapped twice.)
pub uvmfree-Freed :
    (size pt : ℕ) (s : Kernel)
    → IsReady s
    → size % page_size ≡ 0
    → IsUserSpace s pt ((size - user_base) / page_size)
    → (t : Kernel) × (uvmfree pt size s ≡ ok tt t)
      × Freed s t (UserPage s pt ((size - user_base) / page_size))
uvmfree-Freed size pt s ready aligned space =
    let n = (size - user_base) / page_size in
    let (t, run, first) = unmap_memory size pt s ready aligned space in
    let own =
      Owns-kept s t pt user_base n stack_base 1 first (λ a i. ground (arith, space.below))
        space.apart space.stack in
    let (u, run', next) =
      uvmunmap-Released 1 pt stack_base t first.ready first.table refl (omega arith) own in
    let (v, run'', walk) =
      freewalk-Freed pt u next.ready (IsAllocated-u s t u pt n space first next) in
    (
      v,
      uvmfree-steps size pt s t u v aligned run run' run'',
      Freed-space s t u pt n space first next v walk,
    )
