-- ===== src/Spinlock/Interrupts.antt =====
-- The interrupt bit of sstatus under the masks of kernel/rv.c, as arithmetic.
use wl_00_rv.Prelude.{ℕ, ◌+◌, ◌-◌, ◌*◌, ◌/◌, ◌%◌, ◌^◌, ◌<◌, ◌≡◌, arith, bit_and, bit_or}
use wl_00_rv.Prelude.Bits.{bit_and_step, bit_or_step, bit_and-two, bit_or-zero, bit_and-ones}

-- the interrupt bit
abbrev pub sie : ℕ → ℕ
sie x = x / 2 % 2

pub bit_and-sie : (x : ℕ) → bit_and x 0x2 ≡ sie x * 2
bit_and-sie x = bit_and-two x

pub bit_or-sie : (x : ℕ) → bit_or x 0x2 ≡ x - sie x * 2 + 2
bit_or-sie x = omega (arith, bit_or_step x 2, bit_or_step (x / 2) 1, bit_or-zero (x / 2 / 2))

pub bit_and-not_sie : (x : ℕ) → x < 2 ^ 32 → bit_and x 0xffff_fffd ≡ x - sie x * 2
bit_and-not_sie x h = omega (
  arith,
  bit_and_step x 0xffff_fffd,
  bit_and_step (x / 2) 0x7fff_fffe,
  bit_and-ones 30 (x / 2 / 2),
)
