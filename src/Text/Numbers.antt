-- ===== src/Text/Numbers.antt =====
-- The numbers that kernel/kprint.c prints: no buffer overruns, and the text reads back as the
-- number.
use wl_00_rv.Prelude.{
  ℕ, ◌+◌, ◌-◌, ◌*◌, ◌^◌, ◌≤◌, ◌<◌, ◌≡◌, refl, true, List, [], ◌∷◌, ==_iff, ltb, ◌⊎◌, ◌==◌,
  if◌then◌else◌,
}
use wl_00_rv.Prelude.Bits.{every, every-lt}
use wl_00_rv.Text.{digit}

-- What a digit character stands for.
abbrev pub digit_value : ℕ → ℕ
digit_value c = if ltb c b'a' then c - b'0' else c - b'a' + 10

-- The number that a text of digits spells behind `n`.
abbrev pub read : ℕ → ℕ → List ℕ → ℕ
read base n [] = n
read base n (c ∷ text) = read base (n * base + digit_value c) text

digit_table : every (λ d. digit_value (digit d) == d) 16 ≡ true
unfolding every
digit_table = refl

pub digit_value-digit : (d : ℕ) → d < 16 → digit_value (digit d) ≡ d
digit_value-digit d h = (==_iff _ d).0 (every-lt _ 16 d h digit_table)

-- The text that stands for an int32_t pattern: a minus sign in front of the digits of the
-- absolute value if the top bit is set, else the digits of the pattern.
abbrev pub SpellsSigned : ℕ → ℕ → List ℕ → Type 0
SpellsSigned base num text =
    (num < 2 ^ 31 × (read base 0 text ≡ num))
    ⊎ ((2 ^ 31 ≤ num)
        × ((digits : List ℕ) × (text ≡ b'-' ∷ digits) × (num + read base 0 digits ≡ 2 ^ 32)))
