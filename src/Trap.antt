-- ===== src/Trap.antt =====
-- The clock of kernel/trap.c; the children have its trap handlers.
pub mod Handlers
pub mod Supervisor
pub mod Return
use wl_00_rv.Prelude.{
  ℕ, ◌+◌, ◌%◌, ◌^◌, ◌<◌, ◌≡◌, ◌≢◌, ap, fun_ext, ◌∙◌, arith, ◌==◌, false, if◌then◌else◌, add32,
  ==_self,
}
use wl_00_rv.Machine.{Kernel, Proc, ok, and_then, Cmd, ◌>>◌, modify}
use wl_00_rv.Spinlock.{lock, unlock, init_lock, tickslock, proc_lock}
use wl_00_rv.Spinlock.Critical.{IsSteady, IsFree, entered, settled, lock-entered, unlock-entered}
use wl_00_rv.Proc.Slots.{nproc}
use wl_00_rv.Proc.Switch.{wakeup, ticks_chan}
use wl_00_rv.Proc.Wakeup.{woken_slots, wakeup-woken_slots, IsWoken, woken_slots-IsWoken}

unfoldable pub init_clock : Kernel → Kernel
init_clock s = record (init_lock tickslock "ticks" s) { ticks = 0 }

-- The critical section of clockintr, behind lock(&tickslock).
count_tick : Cmd (Unit {0})
count_tick =
    modify (λ t. record t { ticks = add32 t.ticks 1 }) >> wakeup ticks_chan >> unlock tickslock

-- cpu_id() is r_tp().
unfoldable pub clockintr : Cmd (Unit {0})
unfolding count_tick
clockintr s = if s.tp == 0 then (lock tickslock >> count_tick) s else ok tt s

entered-IsSteady : (lk : ℕ) (s : Kernel) → IsSteady s → IsSteady (entered lk s)
unfolding entered
entered-IsSteady lk s steady = record {
  wide = omega (arith, steady.wide);
  quiet = λ deep. omega arith;
}

entered-IsFree :
    (lk other : ℕ) (s : Kernel) → lk ≢ other → IsFree other s → IsFree other (entered lk s)
unfolding entered
entered-IsFree lk other s ne free = let far : (lk == other) ≡ false = ground arith in rw far free

-- Inside a critical section push_off saves no interrupt bit.
settled-entered : (lk : ℕ) (s : Kernel) → settled (entered lk s) ≡ entered lk s
unfolding entered settled
settled-entered lk s =
    ap (λ cs. record (entered lk s) { cpus = cs }) (fun_ext λ j. rw (==_self s.tp) (ground arith))

-- `s` behind a tick
abbrev pub ticked : Kernel → Kernel
ticked s = record s {
  ticks = add32 s.ticks 1;
  proctable = woken_slots nproc 0 ticks_chan s.proctable;
}

count_tick-ticked :
    (s : Kernel)
    → IsSteady s
    → IsFree tickslock s
    → ((j : ℕ) → j < nproc → IsFree (proc_lock j) s)
    → count_tick (entered tickslock s) ≡ ok tt (ticked (settled s))
unfolding count_tick entered settled
count_tick-ticked s steady free slots =
    let u = record (entered tickslock s) { ticks = add32 s.ticks 1 } in
    let e = entered-IsSteady tickslock s steady in
    ap (λ m. and_then m λ _. unlock tickslock)
      (wakeup-woken_slots ticks_chan u (record { wide = e.wide; quiet = e.quiet })
        λ j hj. entered-IsFree tickslock (proc_lock j) s (omega arith) (slots j hj))
    ∙ (ap
          (λ t. unlock tickslock (record t {
            ticks = add32 s.ticks 1;
            proctable = woken_slots nproc 0 ticks_chan s.proctable;
          }))
          (settled-entered tickslock s)
        ∙ unlock-entered tickslock s (ticked s) steady free)

-- clockintr, with the state that it leaves.
pub clockintr-on :
    (s : Kernel)
    → IsSteady s
    → IsFree tickslock s
    → ((j : ℕ) → j < nproc → IsFree (proc_lock j) s)
    → clockintr s ≡ (if s.tp == 0 then ok tt (ticked (settled s)) else ok tt s)
unfolding clockintr
clockintr-on s steady free slots =
    ap (λ m. if s.tp == 0 then m else ok tt s)
      (ap (λ m. and_then m λ _. count_tick) (lock-entered tickslock s steady.wide free)
        ∙ count_tick-ticked s steady free slots)

-- With the locks free, a clock interrupt on hart 0 counts a tick, wakes every process that sleeps on
-- the clock, and leaves the rest of the state as before, but for the saved interrupt bit; on another
-- hart it changes nothing.
pub clockintr-ticked :
    (s : Kernel)
    → IsSteady s
    → IsFree tickslock s
    → ((j : ℕ) → j < nproc → IsFree (proc_lock j) s)
    → (s.tp ≢ 0 → clockintr s ≡ ok tt s)
      × (s.tp ≡ 0
          → (procs : ℕ → Proc) × (clockintr s
              ≡ ok tt (record (settled s) { ticks = (s.ticks + 1) % 2 ^ 32; proctable = procs }))
            × IsWoken ticks_chan s.proctable procs)
unfolding clockintr settled
clockintr-ticked s steady free slots = (
  λ other. ground arith,
  λ first. (
    woken_slots nproc 0 ticks_chan s.proctable,
    clockintr-on s steady free slots
        ∙ ap (λ x. if x == 0 then ok tt (ticked (settled s)) else ok tt s) first,
    woken_slots-IsWoken ticks_chan s.proctable,
  ),
)
