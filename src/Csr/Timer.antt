-- ===== src/Csr/Timer.antt =====
-- The clock and its comparator in kernel/csr.c. The hardware counts while the code runs: `clock i` is
-- the 64-bit time at the instant `i`, and each read of a half is an instant of its own.
use wl_00_rv.Prelude.{
  ℕ, zero, suc, ◌+◌, ◌-◌, ◌*◌, ◌/◌, ◌%◌, ◌^◌, ◌≡◌, ◌≢◌, ◌≤◌, ◌<◌, ◌⊎◌, inl, inr, refl, ap, arith,
  true, ◌==◌, if◌then◌else◌, Option, none, some, List, [], ◌∷◌, Bool-cases, u32, take,
}
use wl_00_rv.Registers.{Csr, stimecmp, stimecmph}
use wl_00_rv.Machine.{Kernel}
use wl_00_rv.Csr.{csrr, csrw}

abbrev pub r_stimecmp : Kernel → ℕ
r_stimecmp = csrr stimecmp

abbrev pub w_stimecmp : ℕ → Kernel → Kernel
w_stimecmp = csrw stimecmp

abbrev pub r_stimecmph : Kernel → ℕ
r_stimecmph = csrr stimecmph

abbrev pub w_stimecmph : ℕ → Kernel → Kernel
w_stimecmph = csrw stimecmph

-- The halves of the time at an instant.
abbrev pub r_time : (now : ℕ) → ℕ
r_time now = now % 2 ^ 32

abbrev pub r_timeh : (now : ℕ) → ℕ
r_timeh now = now / 2 ^ 32 % 2 ^ 32

-- The loop of r_time64 from the instant `i` on, on fuel.
unfoldable pub r_time64 : (fuel : ℕ) (clock : ℕ → ℕ) (i : ℕ) → Option ℕ
r_time64 zero clock i = none
r_time64 (suc fuel) clock i =
    let hi = r_timeh (clock i) in
    let lo = r_time (clock (i + 1)) in
    let hi2 = r_timeh (clock (i + 2)) in
    let again = r_time64 fuel clock (i + 3) in if hi == hi2 then some (hi * 2 ^ 32 + lo) else again

-- The writes of w_stimecmp64, in their order.
unfoldable pub compare_writes : ℕ → List (Kernel → Kernel)
compare_writes x = w_stimecmp 0xffff_ffff ∷ w_stimecmph (u32 (x / 2 ^ 32)) ∷ w_stimecmp (u32 x) ∷ []

-- Writes in turn.
abbrev pub perform : List (Kernel → Kernel) → Kernel → Kernel
perform [] s = s
perform (w ∷ ws) s = perform ws (w s)

unfoldable pub w_stimecmp64 : ℕ → Kernel → Kernel
unfolding compare_writes
w_stimecmp64 x = perform (compare_writes x)

-- The comparator as the hardware reads it.
abbrev pub comparator : Kernel → ℕ
comparator s = r_stimecmph s * 2 ^ 32 + r_stimecmp s

clock_mono :
    (clock : ℕ → ℕ) → ((j : ℕ) → clock j ≤ clock (suc j)) → (i k : ℕ) → clock i ≤ clock (k + i)
clock_mono clock forward i zero = let here : 0 + i ≡ i = omega arith in omega (arith, ap clock here)
clock_mono clock forward i (suc k) =
    let next : suc k + i ≡ suc (k + i) = omega arith in
    omega (arith, ap clock next, forward (k + i), clock_mono clock forward i k)

clock_order :
    (clock : ℕ → ℕ) → ((j : ℕ) → clock j ≤ clock (suc j)) → (a b : ℕ) → a ≤ b → clock a ≤ clock b
clock_order clock forward a b le =
    let there : b - a + a ≡ b = omega arith in
    omega (arith, ap clock there, clock_mono clock forward a (b - a))

-- r_time64 returns if the clock runs forward and carries into its high half at most once meanwhile:
-- two rounds are enough. Its result is the time at the instant at which it read the low half.
pub r_time64_lem :
    (fuel : ℕ) (clock : ℕ → ℕ) (i : ℕ)
    → ((j : ℕ) → clock j ≤ clock (suc j))
    → clock (i + 5) < clock i + 2 ^ 32
    → clock (i + 5) < 2 ^ 64
    → (r_time64 (suc (suc fuel)) clock i ≡ some (clock (i + 1)))
      ⊎ (r_time64 (suc (suc fuel)) clock i ≡ some (clock (i + 4)))
unfolding r_time64
r_time64_lem fuel clock i forward slow wide =
    let le = clock_order clock forward in
    let le01 = le i (i + 1) (omega arith) in
    let le12 = le (i + 1) (i + 2) (omega arith) in
    let le23 = le (i + 2) (i + 3) (omega arith) in
    let le34 = le (i + 3) (i + 3 + 1) (omega arith) in
    let le45 = le (i + 3 + 1) (i + 3 + 2) (omega arith) in
    let four : i + 3 + 1 ≡ i + 4 = omega arith in
    let five : i + 3 + 2 ≡ i + 5 = omega arith in
    let last = ap clock five in
    elim (Bool-cases (r_timeh (clock i) == r_timeh (clock (i + 2)))) [
      | inl e ↦ rw e (inl (ap some (ground arith)))
      | inr e ↦
          let same : (r_timeh (clock (i + 3)) == r_timeh (clock (i + 3 + 2))) ≡ true =
            ground arith in
          rw (e, same) (inr (ap some (ground (arith, ap clock four))))
    ]

-- Every value that the comparator takes while w_stimecmp64 writes it, half by half, is at least the
-- old value or at least the new one, so no timer interrupt is raised before both are due; the last
-- is the new value, and the other registers are as before.
pub w_stimecmp64_lem :
    (x : ℕ) (s : Kernel)
    → x < 2 ^ 64
    → r_stimecmp s < 2 ^ 32
    → ((k : ℕ)
        → (comparator s ≤ comparator (perform (take k (compare_writes x)) s))
          ⊎ (x ≤ comparator (perform (take k (compare_writes x)) s)))
      × (comparator (w_stimecmp64 x s) ≡ x)
      × ((c : Csr) → c ≢ stimecmp → c ≢ stimecmph → csrr c (w_stimecmp64 x s) ≡ csrr c s)
unfolding compare_writes w_stimecmp64
w_stimecmp64_lem x s wide half = (parts, omega arith, others)
  where
    parts :
        (k : ℕ)
        → (comparator s ≤ comparator (perform (take k (compare_writes x)) s))
          ⊎ (x ≤ comparator (perform (take k (compare_writes x)) s))
    parts zero = inl (omega arith)
    parts (suc zero) = inl (omega arith)
    parts (suc (suc zero)) = inr (omega arith)
    parts (suc (suc (suc zero))) = inr (omega arith)
    parts (suc (suc (suc (suc k)))) = inr (omega arith)

    others : (c : Csr) → c ≢ stimecmp → c ≢ stimecmph → csrr c (w_stimecmp64 x s) ≡ csrr c s
    others stimecmp low high = absurd (low refl)
    others stimecmph low high = absurd (high refl)
    others _ low high = refl
