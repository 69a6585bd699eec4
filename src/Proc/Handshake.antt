-- ===== src/Proc/Handshake.antt =====
-- sleep and wakeup of kernel/proc.c between a process and the harts that wake it, at the grain of
-- the locks: the process tests a condition under the lock lk and sleeps while it does not hold, as in
-- wait and sys_sleep; a waker changes the condition and calls wakeup, in either order, between
-- lock(lk) and unlock(lk), as in kexit and clockintr. The steps are interleaved in any order.
pub mod Safety
use wl_00_rv.Prelude.{Bool, true, false, ◌&&◌, not, if◌then◌else◌, List, [], ◌∷◌, ◌≡◌}

-- Where the waker that holds lk stands.
pub data Phase : Type 0 where
  called : Phase  -- before wakeup takes p->lock
  waking : Phase  -- in wakeup, with p->lock held
  woke : Phase  -- behind wakeup

-- Who holds lk.
pub data Lk : Type 0 where
  free : Lk
  by_sleeper : Lk
  by_waker : Phase → Lk

-- Who holds p->lock; `by_other` is a hart with no part in this.
pub data ProcLock : Type 0 where
  unlocked sleepers wakers by_other : ProcLock

-- Where the process stands.
pub data Pc : Type 0 where
  outside : Pc
  testing : Pc  -- lk held, before the test of the condition
  calling : Pc  -- in sleep, before lock(&p->lock)
  entered : Pc  -- before unlock(lk)
  marking : Pc  -- before p->state = WAITING
  switching : Pc  -- before the scheduler's unlock of p->lock
  asleep : Pc  -- until the scheduler runs the process again
  clearing : Pc  -- before unlock(&p->lock)
  relocking : Pc  -- before lock(lk)
  leaving : Pc  -- lk held, the condition holds

pub record System : Type 0 where
  pub lk : Lk
  pub proc_lock : ProcLock
  pub waiting : Bool  -- p->state == WAITING, on the channel
  pub condition : Bool
  pub pc : Pc

-- A step of the process; it stays where it must wait.
unfoldable pub sleeper_step : System → System
sleeper_step s = elim s.pc [
  | outside ↦ elim s.lk [
    | free ↦ record s { lk = by_sleeper; pc = testing }
    | by_sleeper ↦ s
    | by_waker p ↦ s
  ]
  | testing ↦ if s.condition then record s { pc = leaving } else record s { pc = calling }
  | calling ↦ elim s.proc_lock [
    | unlocked ↦ record s { proc_lock = sleepers; pc = entered }
    | sleepers ↦ s
    | wakers ↦ s
    | by_other ↦ s
  ]
  | entered ↦ record s { lk = free; pc = marking }
  | marking ↦ record s { waiting = true; pc = switching }
  | switching ↦ record s { proc_lock = unlocked; pc = asleep }
  | asleep ↦ elim s.proc_lock [
    | unlocked ↦ if s.waiting then s else record s { proc_lock = sleepers; pc = clearing }
    | sleepers ↦ s
    | wakers ↦ s
    | by_other ↦ s
  ]
  | clearing ↦ record s { proc_lock = unlocked; pc = relocking }
  | relocking ↦ elim s.lk [
    | free ↦ record s { lk = by_sleeper; pc = testing }
    | by_sleeper ↦ s
    | by_waker p ↦ s
  ]
  | leaving ↦ record s { lk = free; condition = false; pc = outside }
]

-- wakeup takes p->lock.
begin_wakeup : System → System
begin_wakeup s = elim s.proc_lock [
  | unlocked ↦ record s { lk = by_waker waking; proc_lock = wakers }
  | sleepers ↦ s
  | wakers ↦ s
  | by_other ↦ s
]

-- A step of a waker towards the end of its section.
unfoldable pub waker_step : System → System
unfolding begin_wakeup
waker_step s = elim s.lk [
  | free ↦ record s { lk = by_waker called }
  | by_sleeper ↦ s
  | by_waker phase ↦ elim phase [
    | called ↦ begin_wakeup s
    | waking ↦ record s { lk = by_waker woke; proc_lock = unlocked; waiting = false }
    | woke ↦ record s { lk = free }
  ]
]

-- A waker changes the condition, at any place of its section.
unfoldable pub change : System → System
change s = elim s.lk [ free ↦ s | by_sleeper ↦ s | by_waker phase ↦ record s { condition = true } ]

-- Another hart takes or gives back p->lock, as the scheduler does when it passes by.
unfoldable pub pass_by : System → System
pass_by s = elim s.proc_lock [
  | unlocked ↦ record s { proc_lock = by_other }
  | sleepers ↦ s
  | wakers ↦ s
  | by_other ↦ record s { proc_lock = unlocked }
]

pub data Event : Type 0 where
  sleeper waker changes passes : Event

unfoldable pub step : Event → System → System
unfolding sleeper_step waker_step change pass_by
step sleeper s = sleeper_step s
step waker s = waker_step s
step changes s = change s
step passes s = pass_by s

-- Both sides stand outside.
abbrev pub initial : System
initial = record {
  lk = free;
  proc_lock = unlocked;
  waiting = false;
  condition = false;
  pc = outside;
}

unfoldable pub run : List Event → System → System
unfolding step
run [] s = s
run (e ∷ es) s = run es (step e s)
