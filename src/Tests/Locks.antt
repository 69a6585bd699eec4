-- ===== src/Tests/Locks.antt =====
-- kernel/spinlock.c at concrete inputs.
use wl_00_rv.Prelude.{Option, some, ℕ, ◌≡◌, ◌≢◌, ◌<◌, ◌≤◌, refl, arith, true}
use wl_00_rv.Machine.{ok, spinning, panic}
use wl_00_rv.Spinlock.{mem_lock, lock, unlock, set_lock}
use wl_00_rv.Spinlock.Critical.{
  IsFree, entered, settled, pushed, with_hart, unlock-entered, lock_outcomes,
}
use wl_00_rv.Spinlock.Harts.{System, Pc, initial, step, Reach, start, later}
use wl_00_rv.Spinlock.Harts.Safety.{owns, mutual_exclusion}
use wl_00_rv.Spinlock.Harts.Progress.{turns, no_deadlock}
use wl_00_rv.Spinlock.Harts.Safety.Refine.{Atomic, History, Abstracts, harts-refine-Atomic}
use wl_00_rv.Tests.State.{machine, machine-IsSteady}

unlock-entered_example :
    unlock mem_lock (with_hart (entered mem_lock machine) machine)
    ≡ ok tt (with_hart (settled machine) machine)
unlock-entered_example = unlock-entered mem_lock machine machine machine-IsSteady (refl, refl)

lock_outcomes_example :
    (IsFree mem_lock machine → lock mem_lock machine ≡ ok tt (entered mem_lock machine))
    × ((machine.locks mem_lock).lock ≢ 0
        → (machine.locks mem_lock).cpu ≡ some machine.tp
        → lock mem_lock machine ≡ panic "trying to lock locked spinlock" (pushed machine))
    × ((machine.locks mem_lock).lock ≢ 0
        → (machine.locks mem_lock).cpu ≢ some machine.tp
        → lock mem_lock machine
          ≡ spinning mem_lock
              (set_lock mem_lock (record (machine.locks mem_lock) { lock = 1 }) (pushed machine)))
lock_outcomes_example = lock_outcomes mem_lock machine (omega arith)

-- Two harts call lock(); hart 1 takes it, and hart 0 spins.
abbrev contended : System
contended = step 0 (step 1 (step 0 (step 1 (step 0 (step 1 initial)))))

contended-Reach : Reach 2 contended
contended-Reach =
    later
      (later
        (later (later (later (later start 1 (omega arith)) 0 (omega arith)) 1 (omega arith)) 0
          (omega arith))
        1 (omega arith))
      0 (omega arith)

one_waits : (contended.pc 0 ≡ Pc.swap) × (contended.pc 1 ≡ Pc.acquired)
unfolding step
one_waits = (refl, refl)

mutual_exclusion_example :
    ((i j : ℕ) → owns (contended.pc i) ≡ true → owns (contended.pc j) ≡ true → i ≡ j)
    × (contended.mem.word ≡ 1 → (i : ℕ) × (owns (contended.pc i) ≡ true))
    × ((i : ℕ) → contended.pc i ≢ Pc.panicked)
mutual_exclusion_example = mutual_exclusion contended-Reach

-- Hart 0, which waits while hart 1 has the lock.
no_deadlock_example :
    (a : ℕ) × (k : ℕ) × (l : ℕ) × (a < 2)
    × (k ≤ 6)
    × (l ≤ 4)
    × ((turns l 0 (turns k a contended)).pc 0 ≡ Pc.critical)
    × ((h : ℕ) → owns (contended.pc h) ≡ true → a ≡ h)
no_deadlock_example = no_deadlock contended-Reach 0 (omega arith)

harts-refine-Atomic_example :
    (holder : Option ℕ) × History 2 holder
    × Abstracts contended.mem contended.pc holder
    × ((i : ℕ)
        → (holder' : Option ℕ) × Atomic i holder holder'
          × Abstracts (step i contended).mem (step i contended).pc holder')
harts-refine-Atomic_example = harts-refine-Atomic contended-Reach
