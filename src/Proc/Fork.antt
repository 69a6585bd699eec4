-- ===== src/Proc/Fork.antt =====
-- uvmcopy and fork of kernel/proc.c.
use wl_00_rv.Prelude.{
  ℕ, zero, suc, ◌+◌, ◌*◌, ◌-◌, ◌/◌, Bool, true, false, ltb, ◌==◌, if◌then◌else◌, add32, bit_and,
  none, some, codes, List,
}
use wl_00_rv.Machine.{Kernel, ready, ok, undefined, Cmd, pure, ◌>>=◌, ◌>>◌, modify}
use wl_00_rv.Spinlock.{lock, unlock, proc_lock, wait_lock}
use wl_00_rv.Kprint.{error}
use wl_00_rv.Mem.{page_size, memmove, kalloc, kfree}
use wl_00_rv.Vm.Defs.{
  pte_v, pte2pa, pte_flags, user_base, user_stack_top, minus_one, find_pte, mappage, load, store,
}
use wl_00_rv.Proc.Slots.{set_proc, deref, myproc, releaseproc, procalloc, negative}

-- sizeof(struct trapframe_t), and the places of its fields.
abbrev pub tf_size : ℕ
tf_size = 152

abbrev pub tf_k_sp : ℕ
tf_k_sp = 0

abbrev pub tf_reg : ℕ → ℕ
tf_reg i = 20 + 4 * i

-- A page of the parent with the entry `pte`, copied to `va` of the child: true on success.
copy_page : (new_pt va pte : ℕ) (no_memory no_map : List ℕ) → Cmd Bool
copy_page new_pt va pte no_memory no_map = kalloc >>= λ mem.
    if mem == 0
    then error no_memory >> pure false
    else modify (λ s. record s { ram = memmove mem (pte2pa pte) page_size s.ram })
      >> (mappage new_pt va mem (pte_flags pte) >>= λ mapped.
          if mapped == 0 then error no_map >> kfree mem >> pure false else pure true)

-- Behind the find_pte in the loop of uvmcopy: pages that are not mapped are passed over.
copy_if_mapped : (new_pt va slot : ℕ) → Cmd Bool
unfolding copy_page
copy_if_mapped new_pt va slot s =
    if slot == 0
    then ok true s
    else if bit_and (load slot s) pte_v == 0
    then ok true s
    else copy_page new_pt va (load slot s) (codes "uvmcopy: kalloc") (codes "uvmcopy: mappage") s

-- The for loop of uvmcopy, on fuel: true if it ends by its condition.
copy_loop : (fuel old_pt new_pt va sz : ℕ) → Cmd Bool
copy_loop zero old_pt new_pt va sz s = undefined
copy_loop (suc fuel) old_pt new_pt va sz s =
    let rest =
      (find_pte old_pt va false >>= copy_if_mapped new_pt va >>= λ copied.
      if copied then copy_loop fuel old_pt new_pt (add32 va page_size) sz else pure false)
        s in
    if ltb va sz then rest else ok true s

-- The user stack, behind its find_pte.
copy_stack : (new_pt slot : ℕ) → Cmd Bool
unfolding copy_page
copy_stack new_pt slot s =
    let no_stack = (error (codes "uvmcopy: parent has no stack mapped") >> pure false) s in
    if slot == 0
    then no_stack
    else if bit_and (load slot s) pte_v == 0
    then no_stack
    else copy_page new_pt (user_stack_top - page_size) (load slot s)
        (codes "uvmcopy: kalloc (stack)") (codes "uvmcopy: mappage (stack)") s

-- One round for each page below sz, and one to leave the loop.
unfoldable pub uvmcopy : (old_pt new_pt sz : ℕ) → Cmd ℕ
unfolding copy_loop copy_if_mapped copy_stack
uvmcopy old_pt new_pt sz =
    copy_loop (suc (sz / page_size + 1)) old_pt new_pt user_base sz >>= λ copied.
    if copied
    then (find_pte old_pt (user_stack_top - page_size) false >>= copy_stack new_pt >>= λ stacked.
        pure (if stacked then 0 else minus_one))
    else pure minus_one

-- *(np->tf) = *(p->tf) with the child's own k_sp, and a0 = 0.
copy_trapframe : (tf from : ℕ) → Kernel → Kernel
copy_trapframe tf from s =
    let child_ksp = load (tf + tf_k_sp) s in
    store (tf + tf_reg 10) 0
      (store (tf + tf_k_sp) child_ksp (record s { ram = memmove tf from tf_size s.ram }))

-- Behind a successful uvmcopy: the child `c` of `p` becomes ready.
start_child : (p c : ℕ) → Cmd ℕ
unfolding copy_trapframe
start_child p c s =
    let t =
      copy_trapframe (s.proctable c).tf (s.proctable p).tf
        (set_proc c (λ q. record q { sz = (s.proctable p).sz }) s) in
    let u = set_proc c (λ q. record q { name = (s.proctable p).name }) t in
    (lock wait_lock
        >> lock (proc_lock c)
        >> modify (set_proc c λ q. record q { parent = some p; state = ready })
        >> unlock (proc_lock c)
        >> (unlock wait_lock >> pure (u.proctable c).pid))
      u

-- Behind a uvmcopy that failed.
drop_child : (p c : ℕ) → Cmd ℕ
drop_child p c =
    modify (λ s. set_proc c (λ q. record q { sz = (s.proctable p).sz }) s)
    >> lock (proc_lock c)
    >> releaseproc c
    >> (unlock (proc_lock c) >> pure minus_one)

unfoldable pub fork : (trampoline forkret : ℕ) → Cmd ℕ
unfolding start_child drop_child
fork trampoline forkret = myproc >>= λ me. procalloc trampoline forkret >>= λ child. elim child [
  | none ↦ error (codes "sys_fork: procalloc fail") >> pure minus_one
  | some c ↦ deref me λ p s.
      (uvmcopy (s.proctable p).pt (s.proctable c).pt (s.proctable p).sz >>= λ result.
      if negative result then drop_child p c else start_child p c)
        s
]
