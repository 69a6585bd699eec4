-- ===== src/Proc/First.antt =====
-- uvmfirst and init_userproc of kernel/proc.c: the first user process. The addresses of the kernel's
-- entry points are arguments.
use wl_00_rv.Prelude.{
  ℕ, ◌+◌, ◌-◌, ◌==◌, if◌then◌else◌, bit_or, add32, none, some, List, [], ◌∷◌, ◌++◌, codes,
}
use wl_00_rv.Machine.{Kernel, ready, undefined, Cmd, ◌>>=◌, ◌>>◌, modify, panic}
use wl_00_rv.Spinlock.{lock, unlock, proc_lock}
use wl_00_rv.Mem.{page_size, kalloc}
use wl_00_rv.Vm.Defs.{pte_v, pte_r, pte_w, pte_u, user_stack_top, mappage, store, make_satp}
use wl_00_rv.Proc.Slots.{set_proc, deref, negative, procalloc}
use wl_00_rv.Proc.Fork.{tf_k_sp, tf_reg}
use wl_00_rv.Exec.Load.{Program, find_program, Loaded, load_elf}

-- memmove(name, text, n) of a text of n bytes
abbrev pub overwrite : (text name : List ℕ) → List ℕ
overwrite [] name = name
overwrite (c ∷ text) [] = []
overwrite (c ∷ text) (d ∷ name) = c ∷ overwrite text name

-- The symbols kerneltrap and u_trap_handle.
pub record Entries : Type 0 where
  pub kerneltrap : ℕ
  pub u_trap_handle : ℕ

-- The trapframe of the first process.
first_trapframe : Entries → (p sp entry : ℕ) → Kernel → Kernel
first_trapframe entries p sp entry s =
    let q = s.proctable p in
    store (q.tf + 12) entries.u_trap_handle (
      store (q.tf + 4) entries.kerneltrap (
        store (q.tf + 8) (make_satp s.kptable) (
          store (q.tf + tf_k_sp) (add32 q.kstack page_size)
            (store (q.tf + tf_reg 2) sp (store (q.tf + 16) entry s)))))

-- Behind load_elf: the stack, the trapframe and the slot.
first_stack : Entries → (p sp : ℕ) → Loaded → Cmd (Unit {0})
unfolding first_trapframe
first_stack entries p sp loaded = kalloc >>= λ stack.
    if stack == 0
    then panic "uvmfirst: out of memory"
    else ((λ s.
          mappage (s.proctable p).pt (user_stack_top - page_size) stack
            (bit_or (bit_or (bit_or pte_r pte_w) pte_u) pte_v) s)
        >>= λ pte.
            if pte == 0
            then panic "uvmfirst: mappage"
            else deref loaded.entry (λ entry. modify (first_trapframe entries p sp entry))
              >> modify (
                  set_proc p λ q. record q {
                    sz = loaded.sz;
                    name = overwrite (codes "init" ++ 0 ∷ []) q.name;
                    state = ready;
                  })
              >> unlock (proc_lock p))

unfoldable pub uvmfirst : Entries → List Program → (p sp : ℕ) → Cmd (Unit {0})
unfolding first_stack
uvmfirst entries programs p sp =
    lock (proc_lock p) >> (elim (find_program (codes "init" ++ 0 ∷ []) programs) [
      | none ↦ λ s. undefined
      | some found ↦ elim found [
        | none ↦ panic "uvmfirst: no init program"
        | some program ↦ (λ s. load_elf (s.proctable p).pt program.img program.len s) >>= λ loaded.
            if negative loaded.result
            then panic "uvmfirst: cannot load init ELF"
            else first_stack entries p sp loaded
      ]
    ])

unfoldable pub init_userproc : Entries → List Program → (trampoline forkret : ℕ) → Cmd (Unit {0})
unfolding uvmfirst
init_userproc entries programs trampoline forkret = procalloc trampoline forkret >>= λ slot.
    elim slot [
      | none ↦ panic "init_userproc: procalloc fail"
      | some p ↦ uvmfirst entries programs p user_stack_top
    ]
