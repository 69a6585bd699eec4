-- ===== src/Trap/Handlers.antt =====
-- The trap handlers of kernel/trap.c. The addresses of the entry points in assembly are arguments,
-- and so are the clock at the reads of a handler and what a process finds when it runs again.
use wl_00_rv.Prelude.{
  ℕ, ◌+◌, ◌/◌, ◌%◌, ◌^◌, Bool, ◌==◌, ◌!=◌, if◌then◌else◌, bit_and, bit_or, add32, Option, none,
  some, [], ◌∷◌, codes, true,
}
use wl_00_rv.Text.{word, str, text_of}
use wl_00_rv.Machine.{
  Kernel, Run, running, ok, undefined, Cmd, pure, ◌>>=◌, ◌>>◌, modify, panic, is_interrupt,
  interrupt_on, interrupt_off,
}
use wl_00_rv.Kprint.{printf}
use wl_00_rv.Mem.{page_size}
use wl_00_rv.Vm.Defs.{load, store, minus_one, make_satp}
use wl_00_rv.Csr.Bits.{sstatus_spp, sstatus_spie}
use wl_00_rv.Csr.Supervisor.{
  r_sip, w_sip, w_stvec, w_sscratch, r_tp, r_sstatus, w_sstatus, w_sepc, w_satp, r_stval,
}
use wl_00_rv.Csr.Timer.{r_time64, w_stimecmp64}
use wl_00_rv.Proc.Slots.{is_state, deref, myproc}
use wl_00_rv.Proc.Switch.{yield}
use wl_00_rv.Proc.Fork.{tf_k_sp}
use wl_00_rv.Proc.Exit.{kexit}
use wl_00_rv.Syscall.{syscall}
use wl_00_rv.Trap.{clockintr}

-- TIMER_INTERVAL, the time between two ticks
abbrev pub timer_interval : ℕ
timer_interval = 10000000 / 100

-- The places of two more fields of struct trapframe_t.
abbrev pub tf_epc : ℕ
tf_epc = 16

abbrev pub tf_k_hartid : ℕ
tf_k_hartid = 148

unfoldable pub init_trap : (kerneltrap : ℕ) → Kernel → Kernel
init_trap kerneltrap = w_stvec kerneltrap

-- Behind the r_time64: the next tick is one interval away.
unfoldable pub rearm_from : Option ℕ → Cmd (Unit {0})
rearm_from none s = undefined
rearm_from (some now) s = ok tt (w_stimecmp64 ((now + timer_interval) % 2 ^ 64) s)

-- w_stimecmp64(r_time64() + TIMER_INTERVAL); two rounds of r_time64 are enough (Csr/Timer).
unfoldable pub rearm : (clock : ℕ → ℕ) → Cmd (Unit {0})
rearm clock = rearm_from (r_time64 2 clock 0)

unfoldable pub devintr : (clock : ℕ → ℕ) (scause : ℕ) → Cmd ℕ
unfolding rearm rearm_from
devintr clock scause s =
    let code = bit_and scause 0x7fff_ffff in
    if code == 1
    then ok 1 (w_sip (bit_and (r_sip s) 0xffff_fffd) s)
    else if code == 5
    then (rearm clock >> clockintr >> pure 2) s
    else if code == 9
    then ok 3 s
    else ok 0 s

-- utrapret of the process `p`, up to its jump to usertrapret with p->tf in a0.
unfoldable pub return_user : (usertrap p : ℕ) → Kernel → Kernel
unfolding interrupt_off
return_user usertrap p s =
    let q = s.proctable p in
    let t = w_sscratch q.tf (w_stvec usertrap (interrupt_off s)) in
    let u =
      store (q.tf + tf_k_hartid) (r_tp t) (store (q.tf + tf_k_sp) (add32 q.kstack page_size) t) in
    let x = bit_or (bit_and (r_sstatus u) 0xffff_feff) sstatus_spie in
    w_satp (make_satp q.pt) (w_sepc (load (q.tf + tf_epc) u) (w_sstatus x u))

unfoldable pub utrapret : (usertrap : ℕ) → Cmd (Unit {0})
unfolding return_user
utrapret usertrap = myproc >>= λ me. deref me λ p. modify (return_user usertrap p)

-- Whether scause tells of an interrupt.
abbrev pub is_interrupt_cause : ℕ → Bool
is_interrupt_cause scause = bit_and scause 0x8000_0000 != 0

-- Faulting user code ends its process.
user_fault : (resume : Kernel → Kernel) (p scause sepc : ℕ) → Cmd ℕ
user_fault resume p scause sepc =
    (λ s.
      printf (codes "pid %d (%s): killed, scause %p sepc %p stval %p\n")
        (word (s.proctable p).pid
          ∷ str (text_of (s.proctable p).name)
          ∷ word scause
          ∷ word sepc
          ∷ word (r_stval s)
          ∷ [])
        s)
    >> kexit resume minus_one
    >> pure 0

-- p->tf->epc = sepc
abbrev pub set_epc : (p pc : ℕ) → Kernel → Kernel
set_epc p pc s = store ((s.proctable p).tf + tf_epc) pc s

-- The three kinds of traps from user mode; the result is the variable dev.
user_cause :
    (clock : ℕ → ℕ) (resume : Kernel → Kernel) (syscalls : ℕ → Cmd ℕ) (p scause sepc : ℕ) → Cmd ℕ
unfolding user_fault
user_cause clock resume syscalls p scause sepc =
    if is_interrupt_cause scause
    then (devintr clock scause >>= λ dev.
        if dev == 0
        then printf (codes "u_trap_handle: unexpected interrupt scause %p\n") (word scause ∷ [])
          >> panic "u_trap_handle"
        else pure dev)
    else if scause == 8
    then modify (λ s. set_epc p (add32 (load ((s.proctable p).tf + tf_epc) s) 4) s)
      >> modify interrupt_on
      >> syscall syscalls
      >> pure 0
    else user_fault resume p scause sepc

unfoldable pub u_trap_handle :
    (clock : ℕ → ℕ) (resume : Kernel → Kernel) (syscalls : ℕ → Cmd ℕ) (usertrap scause sepc : ℕ)
    → Cmd (Unit {0})
unfolding user_cause
u_trap_handle clock resume syscalls usertrap scause sepc s =
    if bit_and (r_sstatus s) sstatus_spp != 0
    then panic "u_trap_handle: trap not from u-mode" s
    else (myproc >>= λ me. deref me λ p.
          modify (set_epc p sepc)
          >> (user_cause clock resume syscalls p scause sepc >>= λ dev.
              (if dev == 2 then yield resume else pure tt) >> utrapret usertrap))
        s

-- Behind the devintr of s_trap_handle.
unfoldable pub expect_known : (scause sepc dev : ℕ) → Cmd ℕ
expect_known scause sepc dev =
    if dev == 0
    then printf (codes "unexpected interrupt: scause %p, sepc %p\n") (word scause ∷ word sepc ∷ [])
      >> panic "s_trap_handle"
    else pure dev

-- The two kinds of traps from supervisor mode; the result is the variable dev.
unfoldable pub kernel_cause : (clock : ℕ → ℕ) (scause sepc : ℕ) → Cmd ℕ
unfolding expect_known
kernel_cause clock scause sepc =
    if is_interrupt_cause scause
    then devintr clock scause >>= expect_known scause sepc
    else modify (λ s. record s { hang = true })
      >> printf (codes "scause: %p\n") (word scause ∷ [])
      >> printf (codes "sepc:   %p\n") (word sepc ∷ [])
      >> (λ s. printf (codes "stval:  %p (Bad Address)\n") (word (r_stval s) ∷ []) s)
      >> panic "unhandled exception in kernel"

-- A tick takes the hart from a process that runs.
unfoldable pub preempt : (resume : Kernel → Kernel) (me : Option ℕ) (dev : ℕ) → Cmd (Unit {0})
preempt resume me dev s =
    let tick : Run (Unit {0}) = elim me [
      | none ↦ ok tt s
      | some p ↦ if is_state (s.proctable p).state running then yield resume s else ok tt s
    ] in
    if dev == 2 then tick else ok tt s

unfoldable pub s_trap_handle :
    (clock : ℕ → ℕ) (resume : Kernel → Kernel) (scause sepc : ℕ) → Cmd (Unit {0})
unfolding kernel_cause preempt
s_trap_handle clock resume scause sepc s =
    let sstatus = r_sstatus s in
    if bit_and sstatus sstatus_spp == 0
    then panic "s_trap_handle: trap not from s-mode" s
    else if is_interrupt s
    then panic "s_trap_handle: interrupts enabled" s
    else (myproc >>= λ me.
          kernel_cause clock scause sepc
          >>= preempt resume me
          >> modify λ t. w_sstatus sstatus (w_sepc sepc t))
        s
