-- ===== src/Spinlock/Harts/Safety.antt =====
-- Mutual exclusion, and the tests of holding() under interleaving.
pub mod Refine
use wl_00_rv.Prelude.{
  ℕ, ◌≡◌, ◌≢◌, ◌≤◌, refl, arith, Bool, true, false, some, Bool-cases, ◌!=◌, inl, inr,
}
use wl_00_rv.Machine.{update}
use wl_00_rv.Spinlock.Harts.{
  Shared, Pc, test_cpu, swap, acquired, critical, check_word, check_cpu, clear_cpu, give_back,
  panicked, move, System, step, initial, Reach, start, later,
}

-- From the swap that took the lock to the swap that gives it back.
abbrev pub owns : Pc → Bool
owns acquired = true
owns critical = true
owns check_word = true
owns check_cpu = true
owns clear_cpu = true
owns give_back = true
owns _ = false

-- While `cpu` names the hart.
abbrev pub stamped : Pc → Bool
stamped critical = true
stamped check_word = true
stamped check_cpu = true
stamped clear_cpu = true
stamped _ = false

pub record Inv (m : Shared) (pc : ℕ → Pc) : Type 0 where
  pub bit : m.word ≤ 1
  pub one : (i j : ℕ) → owns (pc i) ≡ true → owns (pc j) ≡ true → i ≡ j
  pub taken : (i : ℕ) → owns (pc i) ≡ true → m.word ≡ 1
  pub owned : m.word ≡ 1 → (i : ℕ) × (owns (pc i) ≡ true)
  pub mine : (i : ℕ) → stamped (pc i) ≡ true → m.cpu ≡ some i
  pub theirs : (i : ℕ) → m.cpu ≡ some i → stamped (pc i) ≡ true
  pub calm : (i : ℕ) → pc i ≢ panicked

module _ {m : Shared} {pc : ℕ → Pc} (inv : Inv m pc) (i : ℕ) where
  open inv use {bit, one, taken, owned, mine, theirs, calm}

  after : Pc → Shared
  after p = (move i m p).0

  next : Pc → Pc
  next p = (move i m p).1

  move-calm : (p : Pc) → pc i ≡ p → next p ≢ panicked
  unfolding next move
  move-calm test_cpu e = ground (arith, theirs i)
  move-calm check_cpu e = ground (arith, mine i)
  move-calm check_word e = ground (arith, taken i)
  move-calm panicked e = absurd (calm i e)
  move-calm _ e = ground arith

  keep_one :
      (p : Pc)
      → pc i ≡ p
      → (a b : ℕ) → owns (update pc i (next p) a) ≡ true
      → owns (update pc i (next p) b) ≡ true
      → a ≡ b
  unfolding next move
  keep_one swap e a b x y = ground (arith, one a b, taken a, taken b)
  keep_one _ e a b x y = ground (arith, one a b, one i a, one i b)

  keep_bit : (p : Pc) → (after p).word ≤ 1
  unfolding after move
  keep_bit swap = omega arith
  keep_bit _ = omega arith

  keep_taken :
      (p : Pc) → pc i ≡ p → (a : ℕ) → owns (update pc i (next p) a) ≡ true → (after p).word ≡ 1
  unfolding next after move
  keep_taken give_back e a x = ground (arith, one i a)
  keep_taken _ e a x = ground (arith, taken a, taken i)

  keep_owned :
      (p : Pc) → pc i ≡ p → (after p).word ≡ 1 → (a : ℕ) × (owns (update pc i (next p) a) ≡ true)
  unfolding next after move
  keep_owned swap e w = elim (Bool-cases (m.word != 0)) [
    | inl t ↦ let (a, x) = owned (ground arith) in (a, ground arith)
    | inr t ↦ (i, ground arith)
  ]
  keep_owned give_back e w = absurd (omega arith)
  keep_owned _ e w = let (a, x) = owned w in (a, ground (arith, theirs i, mine i, taken i))

  keep_mine :
      (p : Pc)
      → pc i ≡ p
      → (a : ℕ) → stamped (update pc i (next p) a) ≡ true
      → (after p).cpu ≡ some a
  unfolding next after move
  keep_mine acquired e a x = ground (arith, one i a)
  keep_mine clear_cpu e a x = ground (arith, one i a)
  keep_mine _ e a x = ground (arith, mine a, mine i)

  keep_theirs :
      (p : Pc)
      → pc i ≡ p
      → (a : ℕ) → (after p).cpu ≡ some a
      → stamped (update pc i (next p) a) ≡ true
  unfolding next after move
  keep_theirs acquired e a x = ground arith
  keep_theirs clear_cpu e a x = ground arith
  keep_theirs _ e a x = ground (arith, theirs a, theirs i, mine i, taken i)

  keep_calm : (p : Pc) → pc i ≡ p → (a : ℕ) → update pc i (next p) a ≢ panicked
  keep_calm p e a x = ground (arith, move-calm p e, calm a)

  move-Inv : Inv (after (pc i)) (update pc i (next (pc i)))
  move-Inv = record {
    bit = keep_bit (pc i);
    one = keep_one (pc i) refl;
    taken = keep_taken (pc i) refl;
    owned = keep_owned (pc i) refl;
    mine = keep_mine (pc i) refl;
    theirs = keep_theirs (pc i) refl;
    calm = keep_calm (pc i) refl;
  }

initial-Inv : Inv initial.mem initial.pc
initial-Inv = record {
  bit = omega arith;
  one = λ i j x y. cc;
  taken = λ i x. cc;
  owned = λ e. absurd (omega arith);
  mine = λ i x. cc;
  theirs = λ i x. cc;
  calm = λ i x. cc;
}

pub Reach-Inv : {n : ℕ} {s : System} → Reach n s → Inv s.mem s.pc
unfolding step next after
Reach-Inv start = initial-Inv
Reach-Inv (later r i lt) = move-Inv (Reach-Inv r) i

-- However the harts are interleaved, two of them never own the lock together, a taken lock has an
-- owner, and holding() answers rightly at both of its calls: no hart ever ends in a panic.
pub mutual_exclusion :
    {n : ℕ} {s : System}
    → Reach n s
    → ((i j : ℕ) → owns (s.pc i) ≡ true → owns (s.pc j) ≡ true → i ≡ j)
      × (s.mem.word ≡ 1 → (i : ℕ) × (owns (s.pc i) ≡ true))
      × ((i : ℕ) → s.pc i ≢ panicked)
mutual_exclusion r = let inv = Reach-Inv r in (inv.one, inv.owned, inv.calm)
