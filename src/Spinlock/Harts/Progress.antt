-- ===== src/Spinlock/Harts/Progress.antt =====
-- The owner of a spinlock that runs gives the lock back, and a hart that then runs gets it.
use wl_00_rv.Prelude.{
  ℕ, zero, suc, ltb, ◌≡◌, ◌≤◌, ◌<◌, refl, ap, ◌∙◌, arith, true, false, Bool-cases, ◌==◌, inl, inr,
  ==_self,
}
use wl_00_rv.Spinlock.Harts.{
  is_hart, Pc, idle, test_word, test_cpu, swap, acquired, critical, check_word, check_cpu,
  clear_cpu, give_back, panicked, move, System, step, Reach, start, later,
}
use wl_00_rv.Spinlock.Harts.Safety.{owns, stamped, Reach-Inv}

-- `k` steps of hart `i`, one after the other.
abbrev pub turns : (k i : ℕ) → System → System
turns zero i s = s
turns (suc k) i s = turns k i (step i s)

Reach-turns : {n : ℕ} (k i : ℕ) (s : System) → Reach n s → i < n → Reach n (turns k i s)
Reach-turns zero i s r hi = r
Reach-turns (suc k) i s r hi = Reach-turns k i (step i s) (later r i hi) hi

-- A hart that is none of the `n` stays idle.
idle_beyond : {n : ℕ} {s : System} → Reach n s → (j : ℕ) → n ≤ j → s.pc j ≡ idle
unfolding step
idle_beyond start j hj = refl
idle_beyond (later r i hi) j hj =
    let other : (i == j) ≡ false = ground arith in rw other (idle_beyond r j hj)

-- The steps of an owner up to the one that gives the lock back.
module _ {n : ℕ} (i : ℕ) (hi : i < n) where
  abbrev Returns : ℕ → Pc → Type 0
  Returns k p = (s : System) → Reach n s → s.pc i ≡ p → (turns k i s).mem.word ≡ 0

  -- One step before `Returns`.
  before :
      (k : ℕ) (p q : Pc)
      → ((s : System) → Reach n s → s.pc i ≡ p → (move i s.mem p).1 ≡ q)
      → Returns k q
      → Returns (suc k) p
  unfolding step
  before k p q moves rest s r at =
      rest (step i s) (later r i hi)
        (rw (==_self i) (ap (λ x. (move i s.mem x).1) at ∙ moves s r at))

  from_give_back : Returns 1 give_back
  unfolding step move
  from_give_back s r at = ap (λ x. (move i s.mem x).0.word) at

  from_clear_cpu : Returns 2 clear_cpu
  unfolding move
  from_clear_cpu = before 1 clear_cpu give_back (λ s r at. refl) from_give_back

  from_check_cpu : Returns 3 check_cpu
  unfolding move
  from_check_cpu =
      before 2 check_cpu clear_cpu
        (λ s r at. rw ((Reach-Inv r).mine i (ap stamped at)) (rw (==_self i) refl)) from_clear_cpu

  from_check_word : Returns 4 check_word
  unfolding move
  from_check_word =
      before 3 check_word check_cpu (λ s r at. rw ((Reach-Inv r).taken i (ap owns at)) refl)
        from_check_cpu

  from_critical : Returns 5 critical
  unfolding move
  from_critical = before 4 critical check_word (λ s r at. refl) from_check_word

  from_acquired : Returns 6 acquired
  unfolding move
  from_acquired = before 5 acquired critical (λ s r at. refl) from_critical

  -- An owner that runs gives the lock back.
  returned :
      (p : Pc) (s : System)
      → Reach n s
      → s.pc i ≡ p
      → owns p ≡ true
      → (k : ℕ) × (k ≤ 6) × ((turns k i s).mem.word ≡ 0)
  returned acquired s r at own = (6, omega arith, from_acquired s r at)
  returned critical s r at own = (5, omega arith, from_critical s r at)
  returned check_word s r at own = (4, omega arith, from_check_word s r at)
  returned check_cpu s r at own = (3, omega arith, from_check_cpu s r at)
  returned clear_cpu s r at own = (2, omega arith, from_clear_cpu s r at)
  returned give_back s r at own = (1, omega arith, from_give_back s r at)
  returned _ s r at own = absurd (cc own)

  -- From a free lock to its critical section.
  abbrev Enters : ℕ → Pc → Type 0
  Enters k p =
      (s : System) → Reach n s → s.pc i ≡ p → s.mem.word ≡ 0 → (turns k i s).pc i ≡ critical

  moved : (s : System) → (step i s).pc i ≡ (move i s.mem (s.pc i)).1
  unfolding step
  moved s = rw (==_self i) refl

  from_swap : Enters 2 swap
  unfolding move
  from_swap s r at open_word =
      let first : (step i s).pc i ≡ acquired =
        moved s ∙ (ap (λ x. (move i s.mem x).1) at ∙ rw open_word refl) in
      moved (step i s) ∙ ap (λ x. (move i (step i s).mem x).1) first

  -- One step that leaves the lock alone, before `Enters`.
  looked :
      (k : ℕ) (p q : Pc)
      → ((s : System) → Reach n s → s.pc i ≡ p → s.mem.word ≡ 0 → move i s.mem p ≡ (s.mem, q))
      → Enters k q
      → Enters (suc k) p
  unfolding step
  looked k p q moves rest s r at open_word =
      let first = ap (move i s.mem) at ∙ moves s r at open_word in
      rest (step i s) (later r i hi) (moved s ∙ ap (λ x. x.1) first)
        (ap (λ x. x.0.word) first ∙ open_word)

  from_test_cpu : Enters 3 test_cpu
  unfolding move
  from_test_cpu =
      looked 2 test_cpu swap
        (λ s r at open_word.
          let theirs = (Reach-Inv r).theirs i in
          let other : is_hart s.mem.cpu i ≡ false = ground (arith, theirs) in rw other refl)
        from_swap

  from_test_word : Enters 3 test_word
  unfolding move
  from_test_word = looked 2 test_word swap (λ s r at open_word. rw open_word refl) from_swap

  from_idle : Enters 4 idle
  unfolding move
  from_idle = looked 3 idle test_word (λ s r at open_word. refl) from_test_word

  -- A hart that runs while the lock is free gets it.
  enters :
      (p : Pc) (s : System)
      → Reach n s
      → s.pc i ≡ p
      → s.mem.word ≡ 0
      → (k : ℕ) × (k ≤ 4) × ((turns k i s).pc i ≡ critical)
  enters idle s r at open_word = (4, omega arith, from_idle s r at open_word)
  enters test_word s r at open_word = (3, omega arith, from_test_word s r at open_word)
  enters test_cpu s r at open_word = (3, omega arith, from_test_cpu s r at open_word)
  enters swap s r at open_word = (2, omega arith, from_swap s r at open_word)
  enters panicked s r at open_word = absurd ((Reach-Inv r).calm i at)
  enters _ s r at open_word =
      let locked = (Reach-Inv r).taken i (ap owns at) in absurd (omega (arith, locked))

-- The hart that owns the lock is one of the `n`.
owner-lt : {n : ℕ} {s : System} → Reach n s → (a : ℕ) → owns (s.pc a) ≡ true → a < n
owner-lt {n} {s} r a own = elim (Bool-cases (ltb a n)) [
  | inl e ↦ ground arith
  | inr e ↦ absurd (cc (own, idle_beyond r a (ground arith)))
]

-- The spinlock never deadlocks: whatever the harts have done, hart `i` can still come to its
-- critical section, by at most six steps of one hart `a`, which is the owner of the lock where it has
-- one, and at most four steps of hart `i` behind them.
pub no_deadlock :
    {n : ℕ} {s : System}
    → Reach n s
    → (i : ℕ) → i < n
    → (a : ℕ) × (k : ℕ) × (l : ℕ) × (a < n)
      × (k ≤ 6)
      × (l ≤ 4)
      × ((turns l i (turns k a s)).pc i ≡ critical)
      × ((h : ℕ) → owns (s.pc h) ≡ true → a ≡ h)
no_deadlock {n} {s} r i hi = elim (Bool-cases (s.mem.word == 0)) [
  | inl free ↦
      let (l, short, done) = enters i hi (s.pc i) s r refl (ground arith) in
      (
        i,
        0,
        l,
        hi,
        omega arith,
        short,
        done,
        λ h own. let locked = (Reach-Inv r).taken h own in absurd (ground (arith, locked)),
      )
  | inr taken ↦
      let one : s.mem.word ≡ 1 = ground (arith, (Reach-Inv r).bit) in
      let (a, own) = (Reach-Inv r).owned one in
      let ha = owner-lt r a own in
      let (k, few, free) = returned a ha (s.pc a) s r refl own in
      let t = turns k a s in
      let (l, short, done) = enters i hi (t.pc i) t (Reach-turns k a s r ha) refl free in
      (a, k, l, ha, few, short, done, λ h own_h. (Reach-Inv r).one a h own own_h)
]
