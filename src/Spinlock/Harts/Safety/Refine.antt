-- ===== src/Spinlock/Harts/Safety/Refine.antt =====
-- The spinlock of kernel/spinlock.c as an atomic lock: the swaps are where it is taken and given
-- back, and every other access is invisible.
use wl_00_rv.Prelude.{
  ℕ, ◌≡◌, ◌<◌, refl, ap, arith, true, Option, none, some, Bool-cases, ◌!=◌, inl, inr,
}
use wl_00_rv.Machine.{update}
use wl_00_rv.Spinlock.Harts.{
  Shared, Pc, swap, give_back, move, System, step, initial, Reach, start, later,
}
use wl_00_rv.Spinlock.Harts.Safety.{owns, Inv, Reach-Inv}

-- An atomic lock: its holder changes only when hart `i` takes it free, or gives its own back.
pub data Atomic (i : ℕ) (holder holder' : Option ℕ) : Type 0 where
  keeps : holder' ≡ holder → Atomic i holder holder'
  takes : holder ≡ none → holder' ≡ some i → Atomic i holder holder'
  gives : holder ≡ some i → holder' ≡ none → Atomic i holder holder'

-- What an atomic lock that starts free can come to, with `n` harts.
pub data History (n : ℕ) : Option ℕ → Type 0 where
  free : History n none
  after :
      {holder : Option ℕ}
      → History n holder
      → (i : ℕ) (holder' : Option ℕ) → i < n
      → Atomic i holder holder'
      → History n holder'

-- The holder is the hart that owns the lock.
pub record Abstracts (m : Shared) (pc : ℕ → Pc) (holder : Option ℕ) : Type 0 where
  pub owner : (i : ℕ) → owns (pc i) ≡ true → holder ≡ some i
  pub owned : (i : ℕ) → holder ≡ some i → owns (pc i) ≡ true
  pub word : holder ≡ none → m.word ≡ 0

module _ {m : Shared} {pc : ℕ → Pc} (inv : Inv m pc) (holder : Option ℕ)
    (shows : Abstracts m pc holder) (i : ℕ) where
  open inv use {one, taken, mine}

  unheld : (h : Option ℕ) → holder ≡ h → m.word ≡ 0 → h ≡ none
  unheld none e zero_word = refl
  unheld (some j) e zero_word = absurd (omega (arith, taken j (shows.owned j e)))

  simulates :
      (p : Pc)
      → pc i ≡ p
      → (holder' : Option ℕ) × Atomic i holder holder'
        × Abstracts (move i m p).0 (update pc i (move i m p).1) holder'
  unfolding move
  simulates swap e = elim (Bool-cases (m.word != 0)) [
    | inl t ↦ (
      holder,
      keeps refl,
      record {
        owner = λ a x. ground (arith, shows.owner a);
        owned = λ a x. ground (arith, shows.owned a);
        word = λ x. ground (arith, shows.word x);
      },
    )
    | inr t ↦ (
      some i,
      takes (unheld holder refl (ground arith)) refl,
      record {
        owner = λ a x. ground (arith, taken a);
        owned = λ a x. ground arith;
        word = λ x. cc;
      },
    )
  ]
  simulates give_back e = (
    none,
    gives (shows.owner i (ap owns e)) refl,
    record { owner = λ a x. ground (arith, one i a); owned = λ a x. cc; word = λ x. refl },
  )
  simulates _ e = (
    holder,
    keeps refl,
    record {
      owner = λ a x. ground (arith, shows.owner a, shows.owner i);
      owned = λ a x. ground (arith, shows.owned a, taken i, mine i);
      word = λ x. shows.word x;
    },
  )

Reach-simulates :
    {n : ℕ} {s : System} (holder : Option ℕ) (i : ℕ)
    → Reach n s
    → Abstracts s.mem s.pc holder
    → (holder' : Option ℕ) × Atomic i holder holder'
      × Abstracts (step i s).mem (step i s).pc holder'
unfolding step
Reach-simulates {n} {s} holder i r shows = simulates (Reach-Inv r) holder shows i (s.pc i) refl

-- The spinlock refines an atomic lock. Whatever the harts do, access by access, an atomic lock can
-- come to the holder that the lock then has, where it has one, and the next access of any hart is a
-- step of the atomic lock: it keeps the holder, takes the lock while it is free, or gives it back.
pub harts-refine-Atomic :
    {n : ℕ} {s : System}
    → Reach n s
    → (holder : Option ℕ) × History n holder
      × Abstracts s.mem s.pc holder
      × ((i : ℕ)
          → (holder' : Option ℕ) × Atomic i holder holder'
            × Abstracts (step i s).mem (step i s).pc holder')
harts-refine-Atomic {n} start =
    let shows : Abstracts initial.mem initial.pc none = record {
      owner = λ i x. cc;
      owned = λ i x. cc;
      word = λ x. refl;
    } in
    (none, free, shows, λ i. Reach-simulates {n = n} none i start shows)
harts-refine-Atomic {n} (later {s} r i lt) =
    let (holder, history, shows, next) = harts-refine-Atomic r in
    let (holder', moved, shows') = next i in
    (
      holder',
      after history i holder' lt moved,
      shows',
      λ j. Reach-simulates {n = n} holder' j (later r i lt) shows',
    )
