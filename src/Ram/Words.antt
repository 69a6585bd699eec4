-- ===== src/Ram/Words.antt =====
-- A word that is stored is loaded again, and every byte elsewhere is left alone.
use wl_00_rv.Prelude.{ℕ, ◌+◌, ◌^◌, ◌≡◌, ◌≤◌, ◌<◌, ◌⊎◌, inl, inr, arith}
use wl_00_rv.Ram.{load_word, store_word}

pub load_word-store_word :
    (ram : ℕ → ℕ) (a v : ℕ) → v < 2 ^ 32 → load_word (store_word ram a v) a ≡ v
unfolding load_word store_word
load_word-store_word ram a v h = ground arith

-- The bytes outside the word.
pub store_word-outside :
    (ram : ℕ → ℕ) (a v c : ℕ) → (c < a) ⊎ (a + 4 ≤ c) → store_word ram a v c ≡ ram c
unfolding store_word
store_word-outside ram a v c h = ground arith

pub load_word-ext :
    (r t : ℕ → ℕ) (a : ℕ)
    → ((c : ℕ) → a ≤ c → c < a + 4 → r c ≡ t c)
    → load_word r a ≡ load_word t a
unfolding load_word
load_word-ext r t a same = ground (arith, same a, same (a + 1), same (a + 2), same (a + 3))

pub load_word-store_ne :
    (ram : ℕ → ℕ) (a b v : ℕ)
    → (b + 4 ≤ a) ⊎ (a + 4 ≤ b)
    → load_word (store_word ram a v) b ≡ load_word ram b
load_word-store_ne ram a b v apart = load_word-ext (store_word ram a v) ram b λ c lo hi.
    store_word-outside ram a v c
      (elim apart [ inl l ↦ inl (omega arith) | inr r ↦ inr (omega arith) ])

pub load_word-zero :
    (ram : ℕ → ℕ) (a : ℕ) → ((c : ℕ) → a ≤ c → c < a + 4 → ram c ≡ 0) → load_word ram a ≡ 0
unfolding load_word
load_word-zero ram a zeros = ground (arith, zeros a, zeros (a + 1), zeros (a + 2), zeros (a + 3))
