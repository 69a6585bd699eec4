-- ===== src/Proc/Yield.antt =====
-- sched and yield of kernel/proc.c: the checks of sched hold when a process gives its hart up, and
-- what it finds when it gets a hart back.
use wl_00_rv.Prelude.{
  ℕ, ◌^◌, ◌<◌, ◌≡◌, ◌≢◌, refl, ap, subst, ◌∙◌, arith, true, false, ◌==◌, ◌!=◌, if◌then◌else◌, some,
  none, bit_and, ==_self,
}
use wl_00_rv.Machine.{Kernel, Cmd, ready, running, ok, and_then, modify, ◌>>◌, is_interrupt}
use wl_00_rv.Spinlock.{this_cpu, set_cpu, set_lock, holding, lock, unlock, proc_lock}
use wl_00_rv.Spinlock.Interrupts.{sie, bit_and-sie}
use wl_00_rv.Spinlock.Critical.{
  IsSteady, IsFree, entered, settled, lock-entered, settled-IsSteady, popped, pop_off_lem,
  holding-entered, with_hart,
}
use wl_00_rv.Proc.Slots.{is_state, set_proc, deref}
use wl_00_rv.Proc.Switch.{sched, yield}
use wl_00_rv.Syscall.Dispatch.{myproc-settled, settled-IsFree}

-- The process `i` gives its hart up: it holds its own lock and no other, is no longer running, and
-- cannot be interrupted.
pub record IsOffered (i : ℕ) (o : Kernel) : Type 0 where
  pub mine : (this_cpu o).proc ≡ some i
  pub held : holding (proc_lock i) o ≡ true
  pub alone : (this_cpu o).depth ≡ 1
  pub stopped : is_state (o.proctable i).state running ≡ false
  pub quiet : sie o.sstatus ≡ 0

-- The state `t` with the interrupt bit that the process saved on the hart that it left.
abbrev pub regained : (o t : Kernel) → Kernel
regained o t = set_cpu (record (this_cpu t) { intena = (this_cpu o).intena }) t

pub sched-regained :
    (resume : Kernel → Kernel) (i : ℕ) (o : Kernel)
    → IsOffered i o
    → sched resume o ≡ ok tt (regained o (resume o))
unfolding sched is_interrupt
sched-regained resume i o given =
    let on : (bit_and o.sstatus 2 != 0) ≡ false =
      ground (arith, bit_and-sie o.sstatus, given.quiet) in
    let one : ((this_cpu o).depth != 1) ≡ false = ground (arith, given.alone) in
    rw (given.mine, given.held, one, given.stopped, on) refl

-- The state in which yield gives the hart to the scheduler.
abbrev pub offered : (i : ℕ) → Kernel → Kernel
offered i s = set_proc i (λ q. record q { state = ready }) (entered (proc_lock i) (settled s))

offered-IsOffered :
    (i : ℕ) (s : Kernel)
    → IsSteady s
    → (this_cpu s).proc ≡ some i
    → (this_cpu s).depth ≡ 0
    → IsOffered i (offered i s)
unfolding entered settled
offered-IsOffered i s steady here outside = record {
  mine = rw (==_self s.tp) (ground (arith, here));
  held = holding-entered (proc_lock i) (settled s) (offered i s);
  alone = rw (==_self s.tp) (ground (arith, outside));
  stopped = rw (==_self i) refl;
  quiet = omega arith;
}

-- This hart holds `lk` and no other lock, with interrupts off.
pub record IsAlone (lk : ℕ) (t : Kernel) : Type 0 where
  pub wide : t.sstatus < 2 ^ 32
  pub held : holding lk t ≡ true
  pub alone : (this_cpu t).depth ≡ 1
  pub quiet : sie t.sstatus ≡ 0

-- The interrupt bit that the hart saved.
abbrev pub saved : Kernel → ℕ
saved o = if (this_cpu o).intena == 0 then 0 else 1

-- `u` is `t` behind the end of the critical section of `lk`, with the interrupt bit `bit`.
pub record IsBack (lk bit : ℕ) (t u : Kernel) : Type 0 where
  pub wide : u.sstatus < 2 ^ 32
  pub free : IsFree lk u
  pub outside : (this_cpu u).depth ≡ 0
  pub interrupts : sie u.sstatus ≡ bit
  pub locks : (other : ℕ) → other ≢ lk → u.locks other ≡ t.locks other
  pub rest : with_hart t u ≡ t

pub regained-IsBack :
    (lk : ℕ) (o t : Kernel)
    → IsAlone lk t
    → (u : Kernel) × (unlock lk (regained o t) ≡ ok tt u) × IsBack lk (saved o) t u
unfolding unlock holding popped
regained-IsBack lk o t given =
    let r = regained o t in
    let v = set_lock lk (record (r.locks lk) { lock = 0; cpu = none }) r in
    (
      popped v,
      rw given.held (pop_off_lem v given.quiet (rw (==_self t.tp) (omega (arith, given.alone)))),
      record {
        wide = rw (==_self t.tp) (ground (arith, given.wide, given.quiet));
        free = rw (==_self lk) (refl, refl);
        outside = rw (==_self t.tp) (omega (arith, given.alone));
        interrupts = rw (==_self t.tp) (ground (arith, given.alone, given.quiet));
        locks = λ other ne. let far : (lk == other) ≡ false = ground arith in rw far refl;
        rest = refl;
      },
    )

saved-offered : (i : ℕ) (s : Kernel) → (this_cpu s).depth ≡ 0 → saved (offered i s) ≡ sie s.sstatus
unfolding entered settled
saved-offered i s outside = rw (==_self s.tp) (ground (arith, outside))

-- The body of yield, behind its myproc.
abbrev give_up : (resume : Kernel → Kernel) (k : ℕ) → Cmd (Unit {0})
give_up resume k =
    lock (proc_lock k)
    >> modify (set_proc k λ q. record q { state = ready })
    >> sched resume
    >> unlock (proc_lock k)

yield-give_up :
    (resume : Kernel → Kernel) (i : ℕ) (s : Kernel)
    → IsSteady s
    → (this_cpu s).proc ≡ some i
    → IsFree (proc_lock i) s
    → yield resume s
      ≡ and_then (and_then (ok tt (offered i s)) λ _. sched resume) λ _. unlock (proc_lock i)
unfolding yield
yield-give_up resume i s steady here free =
    ap (λ m. and_then m λ p. deref p (give_up resume)) (myproc-settled s steady)
    ∙ ap (λ p. deref p (give_up resume) (settled s)) here
    ∙ ap
        (λ m.
          and_then
            (and_then (and_then m λ _. modify (set_proc i λ q. record q { state = ready }))
              λ _. sched resume)
            λ _. unlock (proc_lock i))
        (lock-entered (proc_lock i) (settled s) (settled-IsSteady s steady).wide
          (settled-IsFree (proc_lock i) s free))

-- yield gives the hart up with the process READY, its own lock the only one held and interrupts off,
-- so no check of sched fails. When a hart that holds that lock alone comes back to it, yield returns
-- with the lock given back and interrupts as they were before, on whichever hart that is.
pub yield-IsBack :
    (resume : Kernel → Kernel) (i : ℕ) (s : Kernel)
    → IsSteady s
    → (this_cpu s).proc ≡ some i
    → (this_cpu s).depth ≡ 0
    → IsFree (proc_lock i) s
    → IsAlone (proc_lock i) (resume (offered i s))
    → IsOffered i (offered i s)
      × (u : Kernel) × (yield resume s ≡ ok tt u)
      × IsBack (proc_lock i) (sie s.sstatus) (resume (offered i s)) u
yield-IsBack resume i s steady here outside free given =
    let o = offered i s in
    let off = offered-IsOffered i s steady here outside in
    let (u, unlocked, back) = regained-IsBack (proc_lock i) o (resume o) given in
    (
      off,
      u,
      yield-give_up resume i s steady here free
          ∙ ap (λ m. and_then m λ _. unlock (proc_lock i)) (sched-regained resume i o off)
          ∙ unlocked,
      subst (λ bit. IsBack (proc_lock i) bit (resume o) u) (saved-offered i s outside) back,
    )
