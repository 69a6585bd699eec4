-- ===== src/Proc/Switch.antt =====
-- The scheduler and the blocking calls of kernel/proc.c. swtch leaves the state that another context
-- finds; what it is when this context runs again is the argument `resume`.
use wl_00_rv.Prelude.{
  ℕ, zero, suc, ◌+◌, Bool, true, false, ◌&&◌, ◌||◌, not, ◌==◌, ◌!=◌, if◌then◌else◌, none, some,
}
use wl_00_rv.Machine.{
  Kernel, Proc, ready, running, waiting, zombie, ok, Cmd, pure, ◌>>=◌, ◌>>◌, modify, panic,
  is_interrupt, interrupt_on, interrupt_off,
}
use wl_00_rv.Spinlock.{this_cpu, set_cpu, holding, lock, unlock, proc_lock}
use wl_00_rv.Proc.Slots.{nproc, is_state, set_proc, deref, myproc, releaseproc}

-- Sleep channels are the addresses of a process and of ticks; NULL is 0.
abbrev pub proc_chan : ℕ → ℕ
proc_chan i = i + 1

abbrev pub ticks_chan : ℕ
ticks_chan = nproc + 1

unfoldable pub sched : (resume : Kernel → Kernel) → Cmd (Unit {0})
sched resume s =
    let c = this_cpu s in
    deref c.proc
      (λ i s.
        (let t = resume s in
          if not (holding (proc_lock i) s)
          then panic "sched: no lock" s
          else if c.depth != 1
          then panic "sched: multiple lock held" s
          else if is_state (s.proctable i).state running
          then panic "sched: process still running" s
          else if is_interrupt s
          then panic "sched: interruptible" s
          else ok tt (set_cpu (record (this_cpu t) { intena = c.intena }) t)))
      s

unfoldable pub yield : (resume : Kernel → Kernel) → Cmd (Unit {0})
unfolding sched
yield resume = myproc >>= λ p. deref p λ i.
    lock (proc_lock i)
    >> modify (set_proc i λ q. record q { state = ready })
    >> sched resume
    >> unlock (proc_lock i)

unfoldable pub sleep : (resume : Kernel → Kernel) (chan lk : ℕ) → Cmd (Unit {0})
unfolding sched
sleep resume chan lk = myproc >>= λ p. deref p λ i.
    lock (proc_lock i)
    >> unlock lk
    >> modify (set_proc i λ q. record q { chan = chan; state = waiting })
    >> sched resume
    >> modify (set_proc i λ q. record q { chan = 0 })
    >> unlock (proc_lock i)
    >> lock lk

-- The slot of a process behind wakeup(chan).
abbrev pub woken : (chan : ℕ) → Proc → Proc
woken chan q =
    if (q.chan == chan) && is_state q.state waiting then record q { state = ready } else q

-- The for loop of wakeup.
unfoldable pub wakeup_loop : (rounds i chan : ℕ) → Cmd (Unit {0})
wakeup_loop zero i chan s = ok tt s
wakeup_loop (suc n) i chan s =
    (lock (proc_lock i)
        >> modify (set_proc i (woken chan))
        >> unlock (proc_lock i)
        >> wakeup_loop n (i + 1) chan)
      s

unfoldable pub wakeup : (chan : ℕ) → Cmd (Unit {0})
unfolding wakeup_loop
wakeup chan = wakeup_loop nproc 0 chan

-- Behind the swtch of scheduler, which the process `i` ends: c->proc = 0, and an orphan that has
-- exited is released.
returned : ℕ → Cmd (Unit {0})
returned i s =
    let t = set_cpu (record (this_cpu s) { proc = none }) s in
    let q = t.proctable i in
    (if is_state q.state zombie && (elim q.parent [ none ↦ true | some p ↦ false ])
        then releaseproc i
        else pure tt)
      t

-- One round of the for loop of scheduler; the result is whether the slot was run. `run` is the state
-- in which the process gives the hart back.
unfoldable pub visit : (run : ℕ → Kernel → Kernel) (i : ℕ) → Cmd Bool
unfolding returned
visit run i = lock (proc_lock i) >> λ s.
    (if is_state (s.proctable i).state ready
        then modify (set_proc i λ q. record q { state = running })
          >> modify (λ t. set_cpu (record (this_cpu t) { proc = some i }) t)
          >> modify (run i)
          >> returned i
          >> (unlock (proc_lock i) >> pure true)
        else unlock (proc_lock i) >> pure false)
      s

-- The for loop of scheduler; the result is its variable run.
scheduler_loop : (run : ℕ → Kernel → Kernel) (left i : ℕ) (ran : Bool) → Cmd Bool
scheduler_loop run zero i ran = pure ran
scheduler_loop run (suc n) i ran = visit run i >>= λ b. scheduler_loop run n (i + 1) (b || ran)

-- One round of the while loop of scheduler, up to its wfi: the window in which interrupts are on has
-- no effect on the hart but theirs, which is left out.
unfoldable pub scheduler_round : (run : ℕ → Kernel → Kernel) → Cmd Bool
unfolding scheduler_loop interrupt_on interrupt_off
scheduler_round run =
    modify (λ s. interrupt_off (interrupt_on s)) >> scheduler_loop run nproc 0 false

-- forkret, up to its utrapret.
unfoldable pub forkret : Cmd (Unit {0})
forkret = myproc >>= λ p. deref p λ i. unlock (proc_lock i)
