-- ===== src/Ram.antt =====
-- A uint32_t in RAM: four bytes, the lowest first, as RISC-V loads and stores them.
pub mod Words
use wl_00_rv.Prelude.{ℕ, zero, suc, List, [], ◌∷◌, ◌+◌, ◌*◌, ◌/◌, ◌%◌, ◌^◌}
use wl_00_rv.Machine.{update}

unfoldable pub load_word : (ℕ → ℕ) → ℕ → ℕ
load_word ram a = ram a + ram (a + 1) * 2 ^ 8 + ram (a + 2) * 2 ^ 16 + ram (a + 3) * 2 ^ 24

unfoldable pub store_word : (ℕ → ℕ) → (a v : ℕ) → ℕ → ℕ
store_word ram a v =
    update
      (update (update (update ram a (v % 2 ^ 8)) (a + 1) (v / 2 ^ 8 % 2 ^ 8)) (a + 2)
        (v / 2 ^ 16 % 2 ^ 8))
      (a + 3) (v / 2 ^ 24 % 2 ^ 8)

-- `n` bytes of RAM
unfoldable pub bytes : (n a : ℕ) → (ℕ → ℕ) → List ℕ
bytes zero a ram = []
bytes (suc n) a ram = ram a ∷ bytes n (a + 1) ram
