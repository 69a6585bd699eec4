-- ===== src/Trap/Supervisor.antt =====
-- devintr and s_trap_handle of kernel/trap.c on a hart that runs no process.
use wl_00_rv.Prelude.{
  ℕ, ◌+◌, ◌/◌, ◌%◌, ◌^◌, ◌≡◌, ◌<◌, refl, ap, ◌∙◌, arith, Bool, true, false, some, none, Option, inl,
  inr, Bool-cases, ◌==◌, ◌!=◌, if◌then◌else◌, bit_and, List, [], ◌∷◌, codes,
}
use wl_00_rv.Prelude.Bits.{bit_and-shifted, bit_and-one}
use wl_00_rv.Text.{word, format}
use wl_00_rv.Machine.{Kernel, ok, and_then, panic, Cmd, ◌>>=◌, ◌>>◌, modify, is_interrupt}
use wl_00_rv.Spinlock.{this_cpu, tickslock, proc_lock}
use wl_00_rv.Spinlock.Interrupts.{sie, bit_and-sie}
use wl_00_rv.Spinlock.Critical.{IsSteady, IsFree, settled, settled-IsSteady}
use wl_00_rv.Kprint.{printf}
use wl_00_rv.Kprint.Output.{sent, printf-hanging}
use wl_00_rv.Csr.Supervisor.{r_sip, w_sip, w_sstatus, w_sepc, r_stval}
use wl_00_rv.Csr.Timer.{r_time64, w_stimecmp64}
use wl_00_rv.Csr.Masks.{spp, bit_and-spp}
use wl_00_rv.Proc.Slots.{nproc}
use wl_00_rv.Syscall.Dispatch.{myproc-settled, settled-IsFree}
use wl_00_rv.Trap.{clockintr, ticked, clockintr-on}
use wl_00_rv.Trap.Handlers.{
  timer_interval, devintr, rearm, rearm_from, expect_known, is_interrupt_cause, kernel_cause,
  preempt, s_trap_handle,
}

-- `s` with the next tick asked for, one interval behind `now`.
abbrev pub rearmed : (now : ℕ) → Kernel → Kernel
rearmed now = w_stimecmp64 ((now + timer_interval) % 2 ^ 64)

-- `s` behind a timer interrupt at `now`.
abbrev pub timed : (now : ℕ) → Kernel → Kernel
timed now s = if s.tp == 0 then ticked (settled (rearmed now s)) else rearmed now s

rearm-rearmed :
    (clock : ℕ → ℕ) (now : ℕ) (s : Kernel)
    → r_time64 2 clock 0 ≡ some now
    → rearm clock s ≡ ok tt (rearmed now s)
unfolding rearm rearm_from
rearm-rearmed clock now s read = ap (λ r. rearm_from r s) read

rearmed-IsSteady : (now : ℕ) (s : Kernel) → IsSteady s → IsSteady (rearmed now s)
unfolding w_stimecmp64
rearmed-IsSteady now s steady = record { wide = steady.wide; quiet = steady.quiet }

rearmed-IsFree : (now lk : ℕ) (s : Kernel) → IsFree lk s → IsFree lk (rearmed now s)
unfolding w_stimecmp64
rearmed-IsFree now lk s free = free

ok-if : (b : Bool) (s t : Kernel) → (if b then ok tt s else ok tt t) ≡ ok tt (if b then s else t)
ok-if true s t = refl
ok-if false s t = refl

clockintr-rearmed :
    (now : ℕ) (s : Kernel)
    → IsSteady s
    → IsFree tickslock s
    → ((j : ℕ) → j < nproc → IsFree (proc_lock j) s)
    → clockintr (rearmed now s) ≡ ok tt (timed now s)
unfolding w_stimecmp64
clockintr-rearmed now s steady free slots =
    clockintr-on (rearmed now s) (rearmed-IsSteady now s steady)
      (rearmed-IsFree now tickslock s free)
      (λ j hj. rearmed-IsFree now (proc_lock j) s (slots j hj))
    ∙ ok-if (s.tp == 0) (ticked (settled (rearmed now s))) (rearmed now s)

devintr-timed :
    (clock : ℕ → ℕ) (now : ℕ) (s : Kernel)
    → r_time64 2 clock 0 ≡ some now
    → IsSteady s
    → IsFree tickslock s
    → ((j : ℕ) → j < nproc → IsFree (proc_lock j) s)
    → devintr clock 0x8000_0005 s ≡ ok 2 (timed now s)
unfolding devintr
devintr-timed clock now s read steady free slots =
    ap (λ m. and_then (and_then m (λ _. clockintr)) (λ _. ok 2)) (rearm-rearmed clock now s read)
    ∙ ap (λ m. and_then m (λ _. ok 2)) (clockintr-rearmed now s steady free slots)

-- Behind a trap, the saved pc and status are put back.
abbrev pub resumed : (sepc : ℕ) (s t : Kernel) → Kernel
resumed sepc s t = w_sstatus s.sstatus (w_sepc sepc t)

-- A hart without a process gives nothing up.
preempt-none :
    (resume : Kernel → Kernel) (dev : ℕ) (t : Kernel) → preempt resume none dev t ≡ ok tt t
unfolding preempt
preempt-none resume dev t = elim (Bool-cases (dev == 2)) [ inl e ↦ rw e refl | inr e ↦ rw e refl ]

module _ (clock : ℕ → ℕ) (resume : Kernel → Kernel) (sepc : ℕ) (s : Kernel) (steady : IsSteady s)
    (from : spp s.sstatus ≡ 1) (off : sie s.sstatus ≡ 0) (idle : (this_cpu s).proc ≡ none) where
  -- Behind the checks and the myproc of s_trap_handle.
  abbrev serve : (scause : ℕ) → Option ℕ → Cmd (Unit {0})
  serve scause me = kernel_cause clock scause sepc >>= preempt resume me >> modify (resumed sepc s)

  s_trap_handle-serve :
      (scause : ℕ) → s_trap_handle clock resume scause sepc s ≡ serve scause none (settled s)
  unfolding s_trap_handle is_interrupt
  s_trap_handle-serve scause =
      let kernel : (bit_and s.sstatus (2 ^ 8) == 0) ≡ false =
        ground (arith, bit_and-spp s.sstatus) in
      let quiet : (bit_and s.sstatus 2 != 0) ≡ false = ground (arith, bit_and-sie s.sstatus) in
      rw (kernel, quiet)
        (ap (λ m. and_then m (serve scause)) (myproc-settled s steady)
          ∙ ap (λ me. serve scause me (settled s)) idle)

  -- Behind an interrupt that devintr knows, what was interrupted goes on.
  s_trap_handle-known :
      (scause dev : ℕ) (t : Kernel)
      → kernel_cause clock scause sepc (settled s) ≡ ok dev t
      → s_trap_handle clock resume scause sepc s ≡ ok tt (resumed sepc s t)
  s_trap_handle-known scause dev t cause =
      s_trap_handle-serve scause
      ∙ ap (λ m. and_then (and_then m (preempt resume none)) λ _. modify (resumed sepc s)) cause
      ∙ ap (λ m. and_then m λ _. modify (resumed sepc s)) (preempt-none resume dev t)

  cause-software :
      kernel_cause clock 0x8000_0001 sepc (settled s)
      ≡ ok 1 (w_sip (bit_and (r_sip s) 0xffff_fffd) (settled s))
  unfolding kernel_cause devintr settled
  cause-software = refl

  cause-external : kernel_cause clock 0x8000_0009 sepc (settled s) ≡ ok 3 (settled s)
  unfolding kernel_cause devintr
  cause-external = refl

  cause-timer :
      (now : ℕ)
      → r_time64 2 clock 0 ≡ some now
      → IsFree tickslock s
      → ((j : ℕ) → j < nproc → IsFree (proc_lock j) s)
      → kernel_cause clock 0x8000_0005 sepc (settled s) ≡ ok 2 (timed now (settled s))
  unfolding kernel_cause
  cause-timer now read free slots =
      ap (λ m. and_then m (expect_known 0x8000_0005 sepc))
        (devintr-timed clock now (settled s) read (settled-IsSteady s steady)
          (settled-IsFree tickslock s free) (λ j hj. settled-IsFree (proc_lock j) s (slots j hj)))

  -- An exception in the kernel prints what it was, without print_lock, and panics.
  cause-exception :
      (scause : ℕ) (t1 t2 t3 : List ℕ)
      → scause < 2 ^ 31
      → format (codes "scause: %p\n") (word scause ∷ []) ≡ some t1
      → format (codes "sepc:   %p\n") (word sepc ∷ []) ≡ some t2
      → format (codes "stval:  %p (Bad Address)\n") (word (r_stval s) ∷ []) ≡ some t3
      → kernel_cause clock scause sepc (settled s)
        ≡ panic "unhandled exception in kernel"
            (sent t3 (sent t2 (sent t1 (record (settled s) { hang = true }))))
  unfolding kernel_cause settled
  cause-exception scause t1 t2 t3 small e1 e2 e3 =
      let plain : is_interrupt_cause scause ≡ false =
        ground (arith, bit_and-shifted 31 scause 1, bit_and-one (scause / 2 ^ 31)) in
      let u = record (settled s) { hang = true } in
      let p1 = printf-hanging (codes "scause: %p\n") (word scause ∷ []) t1 u e1 refl in
      let p2 = printf-hanging (codes "sepc:   %p\n") (word sepc ∷ []) t2 (sent t1 u) e2 refl in
      let p3 =
        printf-hanging (codes "stval:  %p (Bad Address)\n") (word (r_stval s) ∷ []) t3
          (sent t2 (sent t1 u)) e3 refl in
      let last : Cmd ℕ = panic "unhandled exception in kernel" in
      let third : Cmd (Unit {0}) =
        λ t. printf (codes "stval:  %p (Bad Address)\n") (word (r_stval t) ∷ []) t in
      let second : Cmd (Unit {0}) = printf (codes "sepc:   %p\n") (word sepc ∷ []) in
      rw plain (
        ap (λ m. and_then (and_then (and_then m λ _. second) λ _. third) λ _. last) p1
        ∙ ap (λ m. and_then (and_then m λ _. third) λ _. last) p2
        ∙ ap (λ m. and_then m λ _. last) p3)

-- What s_trap_handle does with a trap that interrupts the kernel on a hart without a process, its
-- interrupts off and the locks free. A software interrupt is acknowledged; a timer interrupt asks
-- for the next tick and, on hart 0, counts this one; an external one is passed over: then the pc and
-- the status are put back as they were. An exception sends the cause, the pc and the address, without
-- taking print_lock, and panics.
pub s_trap_handle_outcomes :
    (clock : ℕ → ℕ) (resume : Kernel → Kernel) (sepc : ℕ) (s : Kernel) (now scause : ℕ)
    (t1 t2 t3 : List ℕ)
    → IsSteady s
    → spp s.sstatus ≡ 1
    → sie s.sstatus ≡ 0
    → (this_cpu s).proc ≡ none
    → IsFree tickslock s
    → ((j : ℕ) → j < nproc → IsFree (proc_lock j) s)
    → r_time64 2 clock 0 ≡ some now
    → scause < 2 ^ 31
    → format (codes "scause: %p\n") (word scause ∷ []) ≡ some t1
    → format (codes "sepc:   %p\n") (word sepc ∷ []) ≡ some t2
    → format (codes "stval:  %p (Bad Address)\n") (word (r_stval s) ∷ []) ≡ some t3
    → (s_trap_handle clock resume 0x8000_0001 sepc s
        ≡ ok tt (resumed sepc s (w_sip (bit_and (r_sip s) 0xffff_fffd) (settled s))))
      × (s_trap_handle clock resume 0x8000_0005 sepc s
          ≡ ok tt (resumed sepc s (timed now (settled s))))
      × (s_trap_handle clock resume 0x8000_0009 sepc s ≡ ok tt (resumed sepc s (settled s)))
      × (s_trap_handle clock resume scause sepc s
          ≡ panic "unhandled exception in kernel"
              (sent t3 (sent t2 (sent t1 (record (settled s) { hang = true })))))
s_trap_handle_outcomes clock resume sepc s now scause t1 t2 t3 steady from off idle free slots read
      small e1 e2 e3 =
    (
      s_trap_handle-known clock resume sepc s steady from off idle 0x8000_0001 1
          (w_sip (bit_and (r_sip s) 0xffff_fffd) (settled s))
          (cause-software clock resume sepc s steady from off idle),
      s_trap_handle-known clock resume sepc s steady from off idle 0x8000_0005 2
          (timed now (settled s))
          (cause-timer clock resume sepc s steady from off idle now read free slots),
      s_trap_handle-known clock resume sepc s steady from off idle 0x8000_0009 3 (settled s)
          (cause-external clock resume sepc s steady from off idle),
      s_trap_handle-serve clock resume sepc s steady from off idle scause
          ∙ ap (λ m. and_then (and_then m (preempt resume none)) λ _. modify (resumed sepc s))
              (cause-exception clock resume sepc s steady from off idle scause t1 t2 t3 small e1 e2
                e3),
    )
