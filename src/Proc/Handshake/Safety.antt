-- ===== src/Proc/Handshake/Safety.antt =====
-- No wakeup is lost: the invariant is checked in every state.
use wl_00_rv.Prelude.{
  Bool, true, false, ◌&&◌, ◌||◌, not, if◌then◌else◌, List, [], ◌∷◌, ◌≡◌, refl, arith,
}
use wl_00_rv.Proc.Handshake.{
  called, waking, woke, Lk, free, by_sleeper, by_waker, ProcLock, unlocked, sleepers, wakers,
  by_other, Pc, outside, testing, calling, entered, marking, switching, asleep, clearing, relocking,
  leaving, System, Event, sleeper, waker, changes, passes, step, initial, run,
}

infixr 2 ◌implies◌
abbrev ◌implies◌ : Bool → Bool → Bool
a implies b = not a || b

abbrev same : Bool → Bool → Bool
same a b = if a then b else not b

abbrev has_lk : Lk → Bool
has_lk free = false
has_lk by_sleeper = true
has_lk (by_waker p) = false

-- A waker holds lk and its wakeup has still to look at the process.
abbrev pub wakeup_due : Lk → Bool
wakeup_due free = false
wakeup_due by_sleeper = false
wakeup_due (by_waker called) = true
wakeup_due (by_waker waking) = true
wakeup_due (by_waker woke) = false

abbrev in_wakeup : Lk → Bool
in_wakeup free = false
in_wakeup by_sleeper = false
in_wakeup (by_waker called) = false
in_wakeup (by_waker waking) = true
in_wakeup (by_waker woke) = false

abbrev behind_wakeup : Lk → Bool
behind_wakeup free = false
behind_wakeup by_sleeper = false
behind_wakeup (by_waker called) = false
behind_wakeup (by_waker waking) = false
behind_wakeup (by_waker woke) = true

abbrev is_sleepers : ProcLock → Bool
is_sleepers unlocked = false
is_sleepers sleepers = true
is_sleepers wakers = false
is_sleepers by_other = false

abbrev is_wakers : ProcLock → Bool
is_wakers unlocked = false
is_wakers sleepers = false
is_wakers wakers = true
is_wakers by_other = false

-- What a place in the code says of lk, of p->lock and of the process.
record Facts : Type 0 where
  holds_lk : Bool
  holds_proc : Bool
  committed : Bool  -- tested the condition, and will sleep
  marked : Bool  -- will be or is marked as waiting, with lk given back
  may_wait : Bool

abbrev facts : (holds_lk holds_proc committed marked may_wait : Bool) → Facts
facts a b c d e = record { holds_lk = a; holds_proc = b; committed = c; marked = d; may_wait = e }

abbrev facts_at : Pc → Facts
facts_at outside = facts false false false false false
facts_at testing = facts true false false false false
facts_at calling = facts true false true false false
facts_at entered = facts true true true false false
facts_at marking = facts false true true true false
facts_at switching = facts false true true true true
facts_at asleep = facts false false false false true
facts_at clearing = facts false true false false false
facts_at relocking = facts false false false false false
facts_at leaving = facts true false false false false

-- The invariant.
invariant : System → Bool
invariant s =
    let f = facts_at s.pc in
    same f.holds_lk (has_lk s.lk)
    && same f.holds_proc (is_sleepers s.proc_lock)
    && same (in_wakeup s.lk) (is_wakers s.proc_lock)
    && (s.waiting implies f.may_wait)
    && ((f.committed || s.waiting) && s.condition implies wakeup_due s.lk)
    && (behind_wakeup s.lk implies not (f.marked || s.waiting))

every_bool : (Bool → Bool) → Bool
every_bool t = t true && t false

every_lk : (Lk → Bool) → Bool
every_lk t =
    t free && t by_sleeper && t (by_waker called) && t (by_waker waking) && t (by_waker woke)

every_lock : (ProcLock → Bool) → Bool
every_lock t = t unlocked && t sleepers && t wakers && t by_other

every_pc : (Pc → Bool) → Bool
every_pc t =
    t outside
    && t testing
    && t calling
    && t entered
    && t marking
    && t switching
    && t asleep
    && t clearing
    && t relocking
    && t leaving

every_event : (Event → Bool) → Bool
every_event t = t sleeper && t waker && t changes && t passes

every_bool-at : (t : Bool → Bool) → every_bool t ≡ true → (b : Bool) → t b ≡ true
unfolding every_bool
every_bool-at t h true = ground arith
every_bool-at t h false = ground arith

every_lk-at : (t : Lk → Bool) → every_lk t ≡ true → (x : Lk) → t x ≡ true
unfolding every_lk
every_lk-at t h free = ground arith
every_lk-at t h by_sleeper = ground arith
every_lk-at t h (by_waker called) = ground arith
every_lk-at t h (by_waker waking) = ground arith
every_lk-at t h (by_waker woke) = ground arith

every_lock-at : (t : ProcLock → Bool) → every_lock t ≡ true → (x : ProcLock) → t x ≡ true
unfolding every_lock
every_lock-at t h unlocked = ground arith
every_lock-at t h sleepers = ground arith
every_lock-at t h wakers = ground arith
every_lock-at t h by_other = ground arith

every_pc-at : (t : Pc → Bool) → every_pc t ≡ true → (x : Pc) → t x ≡ true
unfolding every_pc
every_pc-at t h outside = ground arith
every_pc-at t h testing = ground arith
every_pc-at t h calling = ground arith
every_pc-at t h entered = ground arith
every_pc-at t h marking = ground arith
every_pc-at t h switching = ground arith
every_pc-at t h asleep = ground arith
every_pc-at t h clearing = ground arith
every_pc-at t h relocking = ground arith
every_pc-at t h leaving = ground arith

every_event-at : (t : Event → Bool) → every_event t ≡ true → (x : Event) → t x ≡ true
unfolding every_event
every_event-at t h sleeper = ground arith
every_event-at t h waker = ground arith
every_event-at t h changes = ground arith
every_event-at t h passes = ground arith

abbrev system : Lk → ProcLock → (waiting condition : Bool) → Pc → System
system lk p w c pc = record { lk = lk; proc_lock = p; waiting = w; condition = c; pc = pc }

every_system : (System → Bool) → Bool
every_system t =
    every_lk
      λ lk. every_lock λ p. every_bool λ w. every_bool λ c. every_pc λ pc. t (system lk p w c pc)

every_system-at : (t : System → Bool) → every_system t ≡ true → (s : System) → t s ≡ true
unfolding every_system
every_system-at t h s =
    every_pc-at (λ pc. t (system s.lk s.proc_lock s.waiting s.condition pc))
      (every_bool-at (λ c. every_pc λ pc. t (system s.lk s.proc_lock s.waiting c pc))
        (every_bool-at (λ w. every_bool λ c. every_pc λ pc. t (system s.lk s.proc_lock w c pc))
          (every_lock-at
            (λ p. every_bool λ w. every_bool λ c. every_pc λ pc. t (system s.lk p w c pc))
            (every_lk-at
              (λ lk.
                every_lock
                  λ p. every_bool λ w. every_bool λ c. every_pc λ pc. t (system lk p w c pc))
              h s.lk)
            s.proc_lock)
          s.waiting)
        s.condition)
      s.pc

-- All states, each with every step.
table : every_event (λ e. every_system λ s. (invariant s implies invariant (step e s))) ≡ true
unfolding every_event every_system every_lk every_lock every_bool every_pc invariant step
table = refl

step-invariant : (e : Event) (s : System) → invariant s ≡ true → invariant (step e s) ≡ true
step-invariant e s h =
    let row =
      every_system-at (λ s. (invariant s implies invariant (step e s)))
        (every_event-at (λ e. every_system λ s. (invariant s implies invariant (step e s))) table e)
        s in
    ground arith

run-invariant : (es : List Event) (s : System) → invariant s ≡ true → invariant (run es s) ≡ true
unfolding run
run-invariant [] s h = h
run-invariant (e ∷ es) s h = run-invariant es (step e s) (step-invariant e s h)

-- In every history of the process and its wakers: when the process is marked as waiting although the
-- condition holds, a waker holds lk and has still to come to the process in its wakeup.
pub no_lost_wakeup :
    (es : List Event)
    → (run es initial).waiting ≡ true
    → (run es initial).condition ≡ true
    → wakeup_due (run es initial).lk ≡ true
unfolding invariant
no_lost_wakeup es waits holds = let inv = run-invariant es initial refl in ground arith
