-- ===== src/Gpr.antt =====
-- kernel/gpr.c: the general registers by name, over a register file.
use wl_00_rv.Prelude.{ℕ}
use wl_00_rv.Registers.{Gpr, moved, t0, a0, a1, a2, a3, a4, a5, a6, a7}

abbrev pub r_t0 : (Gpr → ℕ) → ℕ
r_t0 regs = regs t0

abbrev pub w_t0 : ℕ → (Gpr → ℕ) → Gpr → ℕ
w_t0 x regs = moved regs t0 x

abbrev pub r_a0 : (Gpr → ℕ) → ℕ
r_a0 regs = regs a0

abbrev pub w_a0 : ℕ → (Gpr → ℕ) → Gpr → ℕ
w_a0 x regs = moved regs a0 x

abbrev pub r_a1 : (Gpr → ℕ) → ℕ
r_a1 regs = regs a1

abbrev pub w_a1 : ℕ → (Gpr → ℕ) → Gpr → ℕ
w_a1 x regs = moved regs a1 x

abbrev pub r_a2 : (Gpr → ℕ) → ℕ
r_a2 regs = regs a2

abbrev pub w_a2 : ℕ → (Gpr → ℕ) → Gpr → ℕ
w_a2 x regs = moved regs a2 x

abbrev pub r_a3 : (Gpr → ℕ) → ℕ
r_a3 regs = regs a3

abbrev pub w_a3 : ℕ → (Gpr → ℕ) → Gpr → ℕ
w_a3 x regs = moved regs a3 x

abbrev pub r_a4 : (Gpr → ℕ) → ℕ
r_a4 regs = regs a4

abbrev pub w_a4 : ℕ → (Gpr → ℕ) → Gpr → ℕ
w_a4 x regs = moved regs a4 x

abbrev pub r_a5 : (Gpr → ℕ) → ℕ
r_a5 regs = regs a5

abbrev pub w_a5 : ℕ → (Gpr → ℕ) → Gpr → ℕ
w_a5 x regs = moved regs a5 x

abbrev pub r_a6 : (Gpr → ℕ) → ℕ
r_a6 regs = regs a6

abbrev pub w_a6 : ℕ → (Gpr → ℕ) → Gpr → ℕ
w_a6 x regs = moved regs a6 x

abbrev pub r_a7 : (Gpr → ℕ) → ℕ
r_a7 regs = regs a7

abbrev pub w_a7 : ℕ → (Gpr → ℕ) → Gpr → ℕ
w_a7 x regs = moved regs a7 x
