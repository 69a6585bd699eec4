-- ===== src/Prelude/Bits.antt =====
-- `&` and `|` of C at variables: one equation for the lowest bit, and what the masks of the
-- kernel compute to.
use Prim.Native.Nat.{
  ℕ, zero, suc, ◌+◌, ◌*◌, ◌-◌, ◌/◌, ◌%◌, ◌^◌, ◌≤◌, ◌<◌, min, max, digits, bitwise, bit_and, bit_or,
  bit_and-bitwise, bit_or-bitwise,
}
use mathlib.Core.Path.{◌≡◌, refl, sym, ap, ap₂, ◌∙◌}
use mathlib.Core.Bool.{Bool, true, ◌&&◌}
use native.Mathlib.Nat.{
  pow-suc, mod-lt, div-add-mod, add-mul-mod_self_right, mod-eq_of_lt, div-div-eq-div-mul, mul_comm,
}
use native.Mathlib.Decide.{ℕ_discrete}
use native.Mathlib.Omega.{arith}

-- `d` more than `k`, as `d` successors
rounds : ℕ → ℕ → ℕ
rounds zero k = k
rounds (suc d) k = suc (rounds d k)

rounds-add : (d k : ℕ) → rounds d k ≡ d + k
unfolding rounds
rounds-add zero k = omega arith
rounds-add (suc d) k = omega (arith, rounds-add d k)

-- The native operations are recursions on the binary digits of their first argument, which is also
-- the fuel. `z` is the result at 0, `f` works on one digit.
module _ (z : ℕ → ℕ) (f : ℕ → ℕ → ℕ) where
  one_more : (k a b : ℕ) → a ≤ k → digits z f (suc k) a b ≡ digits z f k a b
  one_more zero zero b enough = refl
  one_more zero (suc a) b enough = absurd (omega arith)
  one_more (suc k) zero b enough = refl
  one_more (suc k) (suc a) b enough =
      ap (λ rest. rest * 2 + f (suc a % 2) (b % 2)) (one_more k (suc a / 2) (b / 2) (omega arith))

  spare : (d k a b : ℕ) → a ≤ k → digits z f (rounds d k) a b ≡ digits z f k a b
  unfolding rounds
  spare zero k a b enough = refl
  spare (suc d) k a b enough =
      one_more (rounds d k) a b (omega (arith, rounds-add d k)) ∙ spare d k a b enough

  lowest_digit :
      ((b : ℕ) → z b ≡ z (b / 2) * 2 + f 0 (b % 2))
      → (a b : ℕ) → bitwise z f a b ≡ bitwise z f (a / 2) (b / 2) * 2 + f (a % 2) (b % 2)
  lowest_digit at_zero zero b = at_zero b
  lowest_digit at_zero (suc a) b =
      let half = suc a / 2 in
      let fuel : rounds (a - half) half ≡ a = rounds-add (a - half) half ∙ omega arith in
      let less = ap (λ k. digits z f k half (b / 2)) (sym fuel) in
      ap (λ rest. rest * 2 + f (suc a % 2) (b % 2))
        (less ∙ spare (a - half) half half (b / 2) (omega arith))

pub bit_or_step : (a b : ℕ) → bit_or a b ≡ bit_or (a / 2) (b / 2) * 2 + max (a % 2) (b % 2)
bit_or_step a b =
    rw (bit_or-bitwise a b, bit_or-bitwise (a / 2) (b / 2))
      (lowest_digit (λ y. y) max (λ y. omega arith) a b)

pub bit_and_step : (a b : ℕ) → bit_and a b ≡ bit_and (a / 2) (b / 2) * 2 + min (a % 2) (b % 2)
bit_and_step a b =
    rw (bit_and-bitwise a b, bit_and-bitwise (a / 2) (b / 2))
      (lowest_digit (λ y. 0) min (λ y. omega arith) a b)

-- `x & 0` and `x | 0`, by halving with enough rounds.
and_none : (n a : ℕ) → a ≤ n → bit_and a 0 ≡ 0
and_none zero zero h = refl
and_none zero (suc a) h = absurd (omega arith)
and_none (suc n) zero h = refl
and_none (suc n) (suc a) h =
    omega (arith, and_none n (suc a / 2) (omega arith), bit_and_step (suc a) 0)

pub bit_and-zero : (a : ℕ) → bit_and a 0 ≡ 0
bit_and-zero a = and_none a a (omega arith)

or_none : (n a : ℕ) → a ≤ n → bit_or a 0 ≡ a
or_none zero zero h = refl
or_none zero (suc a) h = absurd (omega arith)
or_none (suc n) zero h = refl
or_none (suc n) (suc a) h =
    omega (arith, or_none n (suc a / 2) (omega arith), bit_or_step (suc a) 0)

pub bit_or-zero : (a : ℕ) → bit_or a 0 ≡ a
bit_or-zero a = or_none a a (omega arith)

-- `x & (2 ^ k - 1)` for the `k` that the kernel uses.
pub bit_and-one : (a : ℕ) → bit_and a 1 ≡ a % 2
bit_and-one a = omega (arith, bit_and_step a 1, bit_and-zero (a / 2))

pub bit_and-two : (a : ℕ) → bit_and a 2 ≡ a / 2 % 2 * 2
bit_and-two a = omega (arith, bit_and_step a 2, bit_and-one (a / 2))

pow-pos : (k : ℕ) → 1 ≤ 2 ^ k
pow-pos zero = omega arith
pow-pos (suc k) = omega (arith, pow-suc 2 k, pow-pos k)

-- the digits of a remainder: `a % 2P` from `(a / 2) % P` and the last bit
mod_double : (a m : ℕ) → 1 ≤ m → a % (m * 2) ≡ a / 2 % m * 2 + a % 2
mod_double a m pos =
    let q = a / 2 / m in
    let r = a / 2 % m in
    let small : r < m = mod-lt (a / 2) pos in
    let split : a ≡ r * 2 + a % 2 + q * (m * 2) = omega (arith, div-add-mod (a / 2) m) in
    ap (λ x. x % (m * 2)) split
    ∙ add-mul-mod_self_right (r * 2 + a % 2) q (m * 2)
    ∙ mod-eq_of_lt {n = r * 2 + a % 2} {m = m * 2} (omega arith)

-- `x & (2 ^ k - 1)`
pub bit_and-ones : (k a : ℕ) → bit_and a (2 ^ k - 1) ≡ a % 2 ^ k
bit_and-ones zero a = omega (arith, bit_and-zero a)
bit_and-ones (suc k) a =
    let even : 2 ^ suc k ≡ 2 ^ k * 2 = pow-suc 2 k in
    let pos : 1 ≤ 2 ^ k = pow-pos k in
    let tail : (2 ^ suc k - 1) / 2 ≡ 2 ^ k - 1 = omega arith in
    let last : (2 ^ suc k - 1) % 2 ≡ 1 = omega arith in
    bit_and_step a (2 ^ suc k - 1)
    ∙ ap₂ (λ x y. bit_and (a / 2) x * 2 + min (a % 2) y) tail last
    ∙ ap (λ x. x * 2 + min (a % 2) 1) (bit_and-ones k (a / 2))
    ∙ omega (arith, mod_double a (2 ^ k) pos, ap (λ x. a % x) even)

-- `x & (m << k)`
pub bit_and-shifted : (k x m : ℕ) → bit_and x (m * 2 ^ k) ≡ bit_and (x / 2 ^ k) m * 2 ^ k
bit_and-shifted zero x m =
    let mask : m * 2 ^ 0 ≡ m = omega arith in
    let all : x / 2 ^ 0 ≡ x = omega arith in rw (mask, all) (omega arith)
bit_and-shifted (suc k) x m =
    let twice : m * 2 ^ suc k ≡ m * 2 ^ k * 2 = ap (λ t. m * t) (pow-suc 2 k) ∙ omega arith in
    let halves : x / 2 / 2 ^ k ≡ x / 2 ^ suc k =
      div-div-eq-div-mul x 2 (2 ^ k) ∙ ap (λ t. x / t) (mul_comm 2 (2 ^ k) ∙ sym (pow-suc 2 k)) in
    let last : m * 2 ^ suc k % 2 ≡ 0 = omega arith in
    let rest : m * 2 ^ suc k / 2 ≡ m * 2 ^ k = omega arith in
    bit_and_step x (m * 2 ^ suc k)
    ∙ ap₂ (λ u v. bit_and (x / 2) u * 2 + min (x % 2) v) rest last
    ∙ ap (λ u. u * 2 + min (x % 2) 0) (bit_and-shifted k (x / 2) m)
    ∙ ap (λ u. bit_and u m * 2 ^ k * 2 + min (x % 2) 0) halves
    ∙ omega (arith, ap (λ t. bit_and (x / 2 ^ suc k) m * t) (pow-suc 2 k))

-- `(m << k) | x` for an `x` below `1 << k`
pub bit_or-shifted : (k m x : ℕ) → x < 2 ^ k → bit_or (m * 2 ^ k) x ≡ m * 2 ^ k + x
bit_or-shifted zero m x h =
    let none_set : x ≡ 0 = omega arith in rw none_set (bit_or-zero (m * 2 ^ 0) ∙ omega arith)
bit_or-shifted (suc k) m x h =
    let twice : m * 2 ^ suc k ≡ m * 2 ^ k * 2 = ap (λ t. m * t) (pow-suc 2 k) ∙ omega arith in
    let low : x / 2 < 2 ^ k = omega (arith, pow-suc 2 k) in
    let last : m * 2 ^ suc k % 2 ≡ 0 = omega arith in
    let rest : m * 2 ^ suc k / 2 ≡ m * 2 ^ k = omega arith in
    bit_or_step (m * 2 ^ suc k) x
    ∙ ap₂ (λ u v. bit_or u (x / 2) * 2 + max v (x % 2)) rest last
    ∙ ap (λ u. u * 2 + max 0 (x % 2)) (bit_or-shifted k m (x / 2) low)
    ∙ omega (arith, twice)

-- `x | 1`
pub bit_or-one : (x : ℕ) → bit_or x 1 ≡ x / 2 * 2 + 1
bit_or-one x = omega (arith, bit_or_step x 1, bit_or-zero (x / 2))

-- A table over a small range: `test` passes at every number below the bound.
unfoldable pub every : (test : ℕ → Bool) → ℕ → Bool
every test zero = true
every test (suc n) = every test n && test n

pub every-lt : (test : ℕ → Bool) (bound k : ℕ) → k < bound → every test bound ≡ true → test k ≡ true
unfolding every
every-lt test zero k lt table = elim lt [ ]
every-lt test (suc n) k lt table = elim (ℕ_discrete k n) [
  | yes last ↦ rw last (ground arith)
  | no other ↦ every-lt test n k (omega arith) (ground arith)
]
