-- ===== src/Tests/Processes.antt =====
-- The process table on the concrete machine.
use wl_00_rv.Prelude.{
  List, [], ◌∷◌, true, ℕ, ◌+◌, ◌%◌, ◌^◌, ◌≢◌, ◌≡◌, refl, arith, ◌==◌, if◌then◌else◌, some,
}
use wl_00_rv.Machine.{Kernel, Proc, ok, waiting, running}
use wl_00_rv.Spinlock.Critical.{settled, entered, popped}
use wl_00_rv.Spinlock.Interrupts.{sie}
use wl_00_rv.Spinlock.{holding, proc_lock, wait_lock}
use wl_00_rv.Proc.Slots.{nproc, set_proc}
use wl_00_rv.Proc.Switch.{wakeup, ticks_chan, proc_chan, yield, sleep}
use wl_00_rv.Proc.Exit.{find_reaper}
use wl_00_rv.Proc.Yield.{IsOffered, offered, IsBack, yield-IsBack}
use wl_00_rv.Proc.Sleep
use wl_00_rv.Proc.Sleep.{IsAsleep, IsAwake, swapped, sleep-IsAwake}
use wl_00_rv.Proc.Wakeup.{IsWoken, wakeup-settled}
use wl_00_rv.Proc.Handshake.{Event, sleeper, waker, changes, run, initial}
use wl_00_rv.Proc.Handshake.Safety.{wakeup_due, no_lost_wakeup}
use wl_00_rv.Trap.{clockintr, clockintr-ticked}
use wl_00_rv.Tests.State.{machine, cpu, no_proc, free_lock, machine-IsSteady}

-- The process 3 sleeps until the next tick, and the process 4 runs.
abbrev dozing : Proc
dozing = record no_proc { pid = 1; state = waiting; chan = ticks_chan }

abbrev procs : ℕ → Proc
procs i =
    if i == 3
    then dozing
    else if i == 4
    then record no_proc { pid = 2; state = running }
    else no_proc

abbrev asleep : Kernel
asleep = record machine { proctable = procs }

adopter : find_reaper nproc 0 4 procs ≡ some 3
unfolding find_reaper
adopter = refl

wakeup-settled_example :
    (after : ℕ → Proc) × (wakeup ticks_chan asleep
      ≡ ok tt (record (settled asleep) { proctable = after }))
    × IsWoken ticks_chan procs after
wakeup-settled_example =
    wakeup-settled ticks_chan asleep
      (record { wide = machine-IsSteady.wide; quiet = machine-IsSteady.quiet }) λ j hj. (refl, refl)

-- The process sleeps, and a hart changes the condition before it calls wakeup.
abbrev history : List Event
history = sleeper ∷ sleeper ∷ sleeper ∷ sleeper ∷ sleeper ∷ waker ∷ changes ∷ []

history-waits : ((run history initial).waiting ≡ true) × ((run history initial).condition ≡ true)
unfolding run
history-waits = (refl, refl)

no_lost_wakeup_example : wakeup_due (run history initial).lk ≡ true
no_lost_wakeup_example = no_lost_wakeup history history-waits.0 history-waits.1

clockintr-ticked_example :
    (asleep.tp ≢ 0 → clockintr asleep ≡ ok tt asleep)
    × (asleep.tp ≡ 0
        → (after : ℕ → Proc) × (clockintr asleep
            ≡ ok tt (record (settled asleep) { ticks = (0 + 1) % 2 ^ 32; proctable = after }))
          × IsWoken ticks_chan procs after)
clockintr-ticked_example =
    clockintr-ticked asleep
      (record { wide = machine-IsSteady.wide; quiet = machine-IsSteady.quiet }) (refl, refl)
      λ j hj. (refl, refl)

-- The process 4 runs on hart 0, and calls yield.
abbrev busy : Kernel
busy = record asleep { cpus = λ _. record cpu { proc = some 4 } }

-- The scheduler picks the process again at once.
abbrev picked : Kernel → Kernel
picked = set_proc 4 (λ q. record q { state = running })

yield-IsBack_example :
    IsOffered 4 (offered 4 busy)
    × (u : Kernel) × (yield picked busy ≡ ok tt u)
    × IsBack (proc_lock 4) (sie busy.sstatus) (picked (offered 4 busy)) u
unfolding entered settled holding
yield-IsBack_example =
    yield-IsBack picked 4 busy (record { wide = omega arith; quiet = λ h. absurd (h refl) }) refl
      refl (refl, refl) (record { wide = omega arith; held = refl; alone = refl; quiet = refl })

-- The process 4 waits for a child, inside the critical section of wait_lock.
abbrev waits : Kernel
waits = record busy {
  sstatus = 0;
  cpus = λ _. record cpu { proc = some 4; depth = 1; intena = 2 };
  locks = λ lk. if lk == wait_lock then record free_lock { lock = 1; cpu = some 0 } else free_lock;
}

sleep-IsAwake_example :
    IsAsleep 4 (proc_chan 4) wait_lock (Sleep.asleep 4 (proc_chan 4) wait_lock waits)
    × (v : Kernel) × (sleep picked (proc_chan 4) wait_lock waits ≡ ok tt v)
    × IsAwake 4 wait_lock waits (picked (Sleep.asleep 4 (proc_chan 4) wait_lock waits)) v
unfolding swapped popped entered settled holding
sleep-IsAwake_example =
    sleep-IsAwake picked 4 (proc_chan 4) wait_lock waits (omega arith)
      (record { wide = omega arith; held = refl; alone = refl; quiet = refl }) refl (refl, refl)
      (record { wide = omega arith; held = refl; alone = refl; quiet = refl }) (refl, refl)
