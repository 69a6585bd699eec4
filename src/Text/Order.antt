-- ===== src/Text/Order.antt =====
-- strlen and strcmp of kernel/kprint.c on NUL-terminated texts.
use wl_00_rv.Prelude.{
  ℕ, ◌+◌, ◌^◌, ◌≤◌, ◌<◌, ◌≡◌, refl, ◌↔◌, ◌⊎◌, inl, inr, ◌∙◌, ap, ap₂, ◌≢◌, some, List, [], ◌∷◌,
  ◌++◌, arith, length, All, sub32, Bool-cases, ◌==◌, ==_iff,
}
use wl_00_rv.Text.{strlen, strlen_loop, strcmp}

-- Bytes other than NUL.
abbrev pub IsText : List ℕ → Type 0
IsText = All (λ c. (0 < c) × (c < 256))

-- The order of a dictionary, by unsigned bytes.
abbrev pub Before : List ℕ → List ℕ → Type 0
Before a [] = ⊥
Before [] (y ∷ b) = Unit
Before (x ∷ a) (y ∷ b) = (x < y) ⊎ ((x ≡ y) × Before a b)

strlen_loop-length :
    (s rest : List ℕ) (count : ℕ)
    → IsText s
    → strlen_loop (s ++ 0 ∷ rest) count ≡ some (count + length s)
unfolding strlen_loop
strlen_loop-length [] rest count h = ap some (omega arith)
strlen_loop-length (c ∷ s) rest count h = ground (arith, strlen_loop-length s rest (count + 1))

-- strlen counts the bytes in front of the NUL.
pub strlen-length : (s rest : List ℕ) → IsText s → strlen (s ++ 0 ∷ rest) ≡ some (length s)
unfolding strlen
strlen-length s rest h = strlen_loop-length s rest 0 h ∙ ap some (omega arith)

-- On NUL-terminated texts strcmp reads no byte behind a NUL; its int is 0 exactly when the texts
-- are equal, and negative exactly when the first sorts before the second.
pub strcmp-Before :
    (a b p q : List ℕ)
    → IsText a
    → IsText b
    → (d : ℕ) × (strcmp (a ++ 0 ∷ p) (b ++ 0 ∷ q) ≡ some d)
      × ((d ≡ 0) ↔ (a ≡ b))
      × ((2 ^ 31 ≤ d) ↔ Before a b)
      × (d < 2 ^ 32)
unfolding strcmp
strcmp-Before [] [] p q ha hb =
    (0, refl, (λ _. refl, λ _. refl), (λ h. omega arith, λ h. absurd h), omega arith)
strcmp-Before [] (y ∷ b) p q ha hb = (
  sub32 0 y,
  refl,
  (λ e. absurd (omega arith), λ e. cc),
  (λ _. tt, λ _. omega arith),
  omega arith,
)
strcmp-Before (x ∷ a) [] p q ha hb = (
  sub32 x 0,
  ground arith,
  (λ e. absurd (omega arith), λ e. cc),
  (λ h. omega arith, λ h. absurd h),
  omega arith,
)
strcmp-Before (x ∷ a) (y ∷ b) p q ha hb = elim (Bool-cases (x == y)) [
  | inl e ↦
      let (d, run, eq, lt, small) = strcmp-Before a b p q ha.1 hb.1 in
      let same : x ≡ y = (==_iff x y).0 e in
      (
        d,
        ground arith,
        (λ z. ap₂ ◌∷◌ same (eq.0 z), λ l. eq.1 (cc)),
        (
          λ h. inr (same, lt.0 h),
          λ o. elim o [ inl l ↦ absurd (omega arith) | inr (_, l) ↦ lt.1 l ],
        ),
        small,
      )
  | inr e ↦
      let ne : x ≢ y = ground arith in
      (
        sub32 x y,
        ground arith,
        (λ z. absurd (omega arith), λ l. absurd (ne (cc))),
        (λ h. inl (omega arith), λ o. elim o [ inl l ↦ omega arith | inr (l, _) ↦ absurd (ne l) ]),
        omega arith,
      )
]
