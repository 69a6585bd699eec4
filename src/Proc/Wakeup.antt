-- ===== src/Proc/Wakeup.antt =====
-- wakeup of kernel/proc.c: every sleeper on the channel becomes ready, and nothing else changes.
use wl_00_rv.Prelude.{
  ℕ, zero, suc, ◌+◌, ◌≡◌, ◌≢◌, ◌≤◌, ◌<◌, inl, inr, refl, ap, fun_ext, ◌∙◌, arith, true, false, ◌&&◌,
  ◌==◌, leb, ltb, if◌then◌else◌, Bool-cases, ==_self,
}
use wl_00_rv.Machine.{
  Kernel, Proc, ProcState, unused, new, ready, running, waiting, zombie, ok, and_then, modify,
  update, ◌>>◌,
}
use wl_00_rv.Spinlock.{lock, unlock, proc_lock}
use wl_00_rv.Spinlock.Critical.{
  IsSteady, IsFree, entered, settled, lock-entered, unlock-entered, settled-IsSteady,
}
use wl_00_rv.Proc.Slots.{nproc, is_state, set_proc}
use wl_00_rv.Proc.Switch.{woken, wakeup, wakeup_loop}

-- A critical section of a slot that only changes its process.
section-settled :
    (i : ℕ) (f : Proc → Proc) (s : Kernel)
    → IsSteady s
    → IsFree (proc_lock i) s
    → (lock (proc_lock i) >> modify (set_proc i f) >> unlock (proc_lock i)) s
      ≡ ok tt (set_proc i f (settled s))
unfolding entered settled
section-settled i f s steady free =
    rw (lock-entered (proc_lock i) s steady.wide free)
      (unlock-entered (proc_lock i) s (set_proc i f s) steady free)

pub settled-settled : (s : Kernel) → settled (settled s) ≡ settled s
unfolding settled
settled-settled s = ap (λ c. record s { cpus = c }) (fun_ext λ j. rw (==_self s.tp) (ground arith))

-- The slots from `i` on, `n` of them, woken.
abbrev pub woken_slots : (n i chan : ℕ) → (ℕ → Proc) → ℕ → Proc
woken_slots n i chan procs j = if leb i j && ltb j (i + n) then woken chan (procs j) else procs j

woken_slots-suc :
    (n i chan : ℕ) (procs : ℕ → Proc) (j : ℕ)
    → woken_slots (suc n) (i + 1) chan (update procs i (woken chan (procs i))) j
      ≡ woken_slots (suc (suc n)) i chan procs j
woken_slots-suc n i chan procs j = elim (Bool-cases (i == j)) [
  | inl e ↦
      let before : (leb (i + 1) j && ltb j (i + 1 + suc n)) ≡ false = ground arith in
      let here : (leb i j && ltb j (i + suc (suc n))) ≡ true = ground arith in
      let same : i ≡ j = ground arith in rw (before, here, e) (ap (λ k. woken chan (procs k)) same)
  | inr e ↦
      let inside : (leb (i + 1) j && ltb j (i + 1 + suc n)) ≡ (leb i j && ltb j (i + suc (suc n))) =
        ground arith in
      rw (inside, e) refl
]

wakeup_loop-settled :
    (n i chan : ℕ) (s : Kernel)
    → IsSteady s
    → ((j : ℕ) → j < nproc → IsFree (proc_lock j) s)
    → i + suc n ≤ nproc
    → wakeup_loop (suc n) i chan s
      ≡ ok tt (record (settled s) { proctable = woken_slots (suc n) i chan s.proctable })
unfolding wakeup_loop settled
wakeup_loop-settled zero i chan s steady free fits =
    ap (λ m. and_then m λ _. wakeup_loop 0 (i + 1) chan)
      (section-settled i (woken chan) s steady (free i (omega arith)))
    ∙ ap (λ ps. ok tt (record (settled s) { proctable = ps })) (fun_ext λ j. ground arith)
wakeup_loop-settled (suc n) i chan s steady free fits =
    let t = set_proc i (woken chan) (settled s) in
    ap (λ m. and_then m λ _. wakeup_loop (suc n) (i + 1) chan)
      (section-settled i (woken chan) s steady (free i (omega arith)))
    ∙ (wakeup_loop-settled n (i + 1) chan t
          (let q = settled-IsSteady s steady in record { wide = q.wide; quiet = q.quiet }) free
          (omega arith)
        ∙ (ap (λ u. ok tt (record u { proctable = woken_slots (suc n) (i + 1) chan t.proctable }))
              (settled-settled s)
            ∙ ap (λ ps. ok tt (record (settled s) { proctable = ps }))
                (fun_ext λ j. woken_slots-suc n i chan s.proctable j)))

pub wakeup-woken_slots :
    (chan : ℕ) (s : Kernel)
    → IsSteady s
    → ((j : ℕ) → j < nproc → IsFree (proc_lock j) s)
    → wakeup chan s
      ≡ ok tt (record (settled s) { proctable = woken_slots nproc 0 chan s.proctable })
unfolding wakeup
wakeup-woken_slots chan s steady free = wakeup_loop-settled 31 0 chan s steady free (omega arith)

-- What wakeup(chan) promises of the process table: from `before` to `after` each process that sleeps
-- on `chan` became ready, and nothing else changed.
pub record IsWoken (chan : ℕ) (before after : ℕ → Proc) : Type 0 where
  pub sleepers :
      (j : ℕ)
      → j < nproc
      → (before j).state ≡ waiting
      → (before j).chan ≡ chan
      → after j ≡ record (before j) { state = ready }
  pub awake : (j : ℕ) → (before j).state ≢ waiting → after j ≡ before j
  pub elsewhere : (j : ℕ) → (before j).chan ≢ chan → after j ≡ before j
  pub beyond : (j : ℕ) → nproc ≤ j → after j ≡ before j

is_waiting : (st : ProcState) → st ≢ waiting → is_state st waiting ≡ false
is_waiting waiting ne = absurd (ne refl)
is_waiting unused ne = refl
is_waiting new ne = refl
is_waiting ready ne = refl
is_waiting running ne = refl
is_waiting zombie ne = refl

pub woken_slots-IsWoken :
    (chan : ℕ) (procs : ℕ → Proc) → IsWoken chan procs (woken_slots nproc 0 chan procs)
woken_slots-IsWoken chan procs = record {
  sleepers = λ j hj asleep on.
      let here : (leb 0 j && ltb j (0 + nproc)) ≡ true = ground arith in
      let sleeps : ((procs j).chan == chan) ≡ true = ground arith in rw (here, sleeps, asleep) refl;
  awake = λ j ne. rw (is_waiting (procs j).state ne) (ground arith);
  elsewhere = λ j ne.
      let other : ((procs j).chan == chan) ≡ false = ground arith in rw other (ground arith);
  beyond = λ j hj. let out : (leb 0 j && ltb j (0 + nproc)) ≡ false = ground arith in rw out refl;
}

-- With the locks of the slots free, wakeup returns: every process that sleeps on the channel is
-- ready, every other process and the rest of the state are as before, but for the saved interrupt
-- bit of the hart.
pub wakeup-settled :
    (chan : ℕ) (s : Kernel)
    → IsSteady s
    → ((j : ℕ) → j < nproc → IsFree (proc_lock j) s)
    → (procs : ℕ → Proc) × (wakeup chan s ≡ ok tt (record (settled s) { proctable = procs }))
      × IsWoken chan s.proctable procs
wakeup-settled chan s steady free = (
  woken_slots nproc 0 chan s.proctable,
  wakeup-woken_slots chan s steady free,
  woken_slots-IsWoken chan s.proctable,
)
