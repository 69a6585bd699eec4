-- ===== src/Spinlock/Harts.antt =====
-- kernel/spinlock.c, one lock under many harts: each read, write and atomic swap of the lock is a
-- step of its own, and the harts are interleaved in any order. A hart calls lock() and unlock() in
-- turn, as often as it likes. `cpu` is written and read as in the source, outside the swaps.
pub mod Safety
pub mod Progress
use wl_00_rv.Prelude.{
  ℕ, suc, ◌≡◌, ◌<◌, Bool, true, false, Option, none, some, ◌==◌, ◌!=◌, if◌then◌else◌,
}
use wl_00_rv.Machine.{update}

-- the fields of the lock that the harts share
pub record Shared : Type 0 where
  pub word : ℕ
  pub cpu : Option ℕ

-- Where a hart stands.
pub data Pc : Type 0 where
  idle : Pc  -- outside, or before the call of lock
  test_word : Pc  -- `lk->lock` in the holding() of lock
  test_cpu : Pc  -- `lk->cpu` in the holding() of lock
  swap : Pc  -- the loop of lock
  acquired : Pc  -- before `lk->cpu = this_cpu()`
  critical : Pc  -- between lock and unlock
  check_word : Pc  -- `lk->lock` in the holding() of unlock
  check_cpu : Pc  -- `lk->cpu` in the holding() of unlock
  clear_cpu : Pc  -- before `lk->cpu = NULL`
  give_back : Pc  -- before the swap of unlock
  panicked : Pc  -- in one of the two panics

is_hart : Option ℕ → ℕ → Bool
is_hart none i = false
is_hart (some c) i = c == i

-- One step of hart `i`.
unfoldable pub move : ℕ → Shared → Pc → Shared × Pc
unfolding is_hart
move i m idle = (m, test_word)
move i m test_word = (m, if m.word != 0 then test_cpu else swap)
move i m test_cpu = (m, if is_hart m.cpu i then panicked else swap)
move i m swap = (record m { word = 1 }, if m.word != 0 then swap else acquired)
move i m acquired = (record m { cpu = some i }, critical)
move i m critical = (m, check_word)
move i m check_word = (m, if m.word != 0 then check_cpu else panicked)
move i m check_cpu = (m, if is_hart m.cpu i then clear_cpu else panicked)
move i m clear_cpu = (record m { cpu = none }, give_back)
move i m give_back = (record m { word = 0 }, idle)
move i m panicked = (m, panicked)

pub record System : Type 0 where
  pub mem : Shared
  pub pc : ℕ → Pc

-- Hart `i` makes a step.
unfoldable pub step : ℕ → System → System
unfolding move
step i s = let r = move i s.mem (s.pc i) in record { mem = r.0; pc = update s.pc i r.1 }

-- behind init_lock
abbrev pub initial : System
initial = record { mem = record { word = 0; cpu = none }; pc = λ _. idle }

-- What `n` harts can reach.
pub data Reach (n : ℕ) : System → Type 0 where
  start : Reach n initial
  later : {s : System} → Reach n s → (i : ℕ) → i < n → Reach n (step i s)
