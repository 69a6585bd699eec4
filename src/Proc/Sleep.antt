-- ===== src/Proc/Sleep.antt =====
-- sleep of kernel/proc.c: called inside the critical section of a lock, it gives the lock back while
-- the process waits, and takes it again.
use wl_00_rv.Prelude.{
  ℕ, ◌^◌, ◌<◌, ◌≡◌, ◌≢◌, refl, ap, subst, sym, ◌∙◌, arith, false, ◌==◌, some, none, ==_self,
}
use wl_00_rv.Machine.{Kernel, Proc, Run, waiting, Cmd, ok, and_then, modify, ◌>>◌}
use wl_00_rv.Spinlock.{this_cpu, set_lock, holding, lock, unlock, proc_lock}
use wl_00_rv.Spinlock.Interrupts.{sie}
use wl_00_rv.Spinlock.Critical.{
  IsSteady, IsFree, entered, settled, lock-entered, settled-IsSteady, popped, pop_off_lem,
  holding-entered,
}
use wl_00_rv.Proc.Slots.{set_proc, deref}
use wl_00_rv.Proc.Switch.{sched, sleep}
use wl_00_rv.Proc.Yield.{
  IsOffered, IsAlone, IsBack, regained, sched-regained, regained-IsBack, saved,
}
use wl_00_rv.Syscall.Dispatch.{myproc-settled, settled-IsFree}

-- Behind the two lock operations: the process holds its own lock, and `lk` is free.
unfoldable pub swapped : (i lk : ℕ) → Kernel → Kernel
swapped i lk s =
    let e = entered (proc_lock i) (settled s) in
    popped (set_lock lk (record (e.locks lk) { lock = 0; cpu = none }) e)

-- The state in which sleep gives the hart to the scheduler.
abbrev pub asleep : (i chan lk : ℕ) → Kernel → Kernel
asleep i chan lk s = set_proc i (λ q. record q { chan = chan; state = waiting }) (swapped i lk s)

-- A process that sleeps on `chan`, with the lock of its condition free.
pub record IsAsleep (i chan lk : ℕ) (o : Kernel) : Type 0 where
  pub offers : IsOffered i o
  pub state : (o.proctable i).state ≡ waiting
  pub channel : (o.proctable i).chan ≡ chan
  pub unlocked : IsFree lk o

module _ (i chan lk : ℕ) (s : Kernel) (other : lk ≢ proc_lock i) (inside : IsAlone lk s)
    (here : (this_cpu s).proc ≡ some i) (free : IsFree (proc_lock i) s) where
  steady : IsSteady s
  steady = record { wide = inside.wide; quiet = λ deep. inside.quiet }

  unlock-swapped : unlock lk (entered (proc_lock i) (settled s)) ≡ ok tt (swapped i lk s)
  unfolding unlock holding entered settled swapped
  unlock-swapped =
      let far : (proc_lock i == lk) ≡ false = ground arith in
      rw (far, inside.held) (pop_off_lem _ (omega arith) (rw (==_self s.tp) (omega arith)))

  asleep-IsAsleep : IsAsleep i chan lk (asleep i chan lk s)
  unfolding entered settled swapped popped holding
  asleep-IsAsleep =
      let far : (proc_lock i == lk) ≡ false = ground arith in
      let back : (lk == proc_lock i) ≡ false = ground arith in
      record {
        offers = record {
          mine = rw (==_self s.tp) (ground (arith, here));
          held = rw (back, ==_self (proc_lock i)) (==_self s.tp);
          alone = rw (==_self s.tp) (ground (arith, inside.alone));
          stopped = rw (==_self i) refl;
          quiet = rw (==_self s.tp) (ground (arith, inside.alone, inside.quiet));
        };
        state = rw (==_self i) refl;
        channel = rw (==_self i) refl;
        unlocked = rw (==_self lk) (refl, refl);
      }

  -- The body of sleep, behind its myproc.
  abbrev give_up : (resume : Kernel → Kernel) (k : ℕ) → Cmd (Unit {0})
  give_up resume k =
      lock (proc_lock k)
      >> unlock lk
      >> modify (set_proc k λ q. record q { chan = chan; state = waiting })
      >> sched resume
      >> modify (set_proc k λ q. record q { chan = 0 })
      >> unlock (proc_lock k)
      >> lock lk

  -- What follows the swtch back to the process.
  abbrev take_back : (o t : Kernel) → Run (Unit {0})
  take_back o t =
      and_then (unlock (proc_lock i) (set_proc i (λ q. record q { chan = 0 }) (regained o t)))
        λ _. lock lk

  sleep-take_back :
      (resume : Kernel → Kernel)
      → sleep resume chan lk s ≡ take_back (asleep i chan lk s) (resume (asleep i chan lk s))
  unfolding sleep
  sleep-take_back resume =
      let o = asleep i chan lk s in
      let wakes = λ (m : Run (Unit {0})).
        and_then
          (and_then (and_then m λ _. modify (set_proc i λ q. record q { chan = 0 }))
            λ _. unlock (proc_lock i))
          λ _. lock lk in
      let waits = λ (m : Run (Unit {0})). wakes (
        and_then
          (and_then m λ _. modify (set_proc i λ q. record q { chan = chan; state = waiting }))
          λ _. sched resume) in
      ap (λ m. and_then m λ p. deref p (give_up resume)) (myproc-settled s steady)
      ∙ ap (λ p. deref p (give_up resume) (settled s)) here
      ∙ ap (λ m. waits (and_then m λ _. unlock lk))
          (lock-entered (proc_lock i) (settled s) (settled-IsSteady s steady).wide
            (settled-IsFree (proc_lock i) s free))
      ∙ ap waits unlock-swapped
      ∙ ap wakes (sched-regained resume i o asleep-IsAsleep.offers)

  saved-asleep : saved (asleep i chan lk s) ≡ saved s
  unfolding entered settled swapped popped
  saved-asleep = rw (==_self s.tp) (ground (arith, inside.alone))

-- lock() outside any critical section enters one.
entered-IsAlone :
    (lk bit : ℕ) (u : Kernel)
    → u.sstatus < 2 ^ 32
    → (this_cpu u).depth ≡ 0
    → sie u.sstatus ≡ bit
    → IsAlone lk (entered lk u) × (saved (entered lk u) ≡ bit)
unfolding entered
entered-IsAlone lk bit u wide outside on = (
  record {
    wide = omega arith;
    held = holding-entered lk u (entered lk u);
    alone = rw (==_self u.tp) (ground (arith, outside));
    quiet = omega arith;
  },
  rw (==_self u.tp) (ground (arith, outside, on)),
)

set_proc-IsAlone :
    (lk i : ℕ) (t : Kernel) → IsAlone lk t → IsAlone lk (set_proc i (λ q. record q { chan = 0 }) t)
unfolding holding
set_proc-IsAlone lk i t inside = record {
  wide = inside.wide;
  held = inside.held;
  alone = inside.alone;
  quiet = inside.quiet;
}

-- What sleep comes back with: `lk` held again, the process on no channel, the saved interrupt bit as
-- it was, and the rest of the process table as it was found.
pub record IsAwake (i lk : ℕ) (s t v : Kernel) : Type 0 where
  pub inside : IsAlone lk v
  pub bit : saved v ≡ saved s
  pub channel : (v.proctable i).chan ≡ 0
  pub slots : (j : ℕ) → j ≢ i → v.proctable j ≡ t.proctable j

taken_back :
    (i lk bit : ℕ) (s t u : Kernel)
    → IsBack (proc_lock i) bit (set_proc i (λ q. record q { chan = 0 }) t) u
    → bit ≡ saved s
    → IsFree lk u
    → (lock lk u ≡ ok tt (entered lk u)) × IsAwake i lk s t (entered lk u)
unfolding entered
taken_back i lk bit s t u back kept free =
    let (inside, on) = entered-IsAlone lk bit u back.wide back.outside back.interrupts in
    let procs = ap (λ (k : Kernel). k.proctable) back.rest in
    (
      lock-entered lk u back.wide free,
      record {
        inside = inside;
        bit = on ∙ kept;
        channel = ap (λ (f : ℕ → Proc). (f i).chan) procs ∙ rw (==_self i) refl;
        slots = λ j other.
            let far : (i == j) ≡ false = ground arith in
            ap (λ (f : ℕ → Proc). f j) procs ∙ rw far refl;
      },
    )

-- sleep, inside the critical section of `lk` and with the lock of the process free: it gives the hart
-- up with the process WAITING on the channel, `lk` free, and the lock of the process the only one
-- held, so no check of sched fails. When a hart that holds that lock alone comes back to it while
-- `lk` is free, sleep returns with `lk` the only lock held and the process on no channel.
pub sleep-IsAwake :
    (resume : Kernel → Kernel) (i chan lk : ℕ) (s : Kernel)
    → lk ≢ proc_lock i
    → IsAlone lk s
    → (this_cpu s).proc ≡ some i
    → IsFree (proc_lock i) s
    → IsAlone (proc_lock i) (resume (asleep i chan lk s))
    → IsFree lk (resume (asleep i chan lk s))
    → IsAsleep i chan lk (asleep i chan lk s)
      × (v : Kernel) × (sleep resume chan lk s ≡ ok tt v)
      × IsAwake i lk s (resume (asleep i chan lk s)) v
sleep-IsAwake resume i chan lk s other inside here free given unlocked =
    let o = asleep i chan lk s in
    let t = resume o in
    let woken = set_proc i (λ q. record q { chan = 0 }) t in
    let (u, unlocks, back) =
      regained-IsBack (proc_lock i) o woken (set_proc-IsAlone (proc_lock i) i t given) in
    let unheld = subst (λ l. (l.lock ≡ 0) × (l.cpu ≡ none)) (sym (back.locks lk other)) unlocked in
    let (locks, awake) =
      taken_back i lk (saved o) s t u back (saved-asleep i chan lk s other inside here free)
        unheld in
    (
      asleep-IsAsleep i chan lk s other inside here free,
      entered lk u,
      sleep-take_back i chan lk s other inside here free resume
          ∙ ap (λ m. and_then m λ _. lock lk) unlocks
          ∙ locks,
      awake,
    )
