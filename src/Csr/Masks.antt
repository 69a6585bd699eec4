-- ===== src/Csr/Masks.antt =====
-- The bits of sstatus under the masks of kernel/trap.c, as arithmetic.
use wl_00_rv.Prelude.{ℕ, ◌+◌, ◌-◌, ◌*◌, ◌/◌, ◌%◌, ◌^◌, ◌<◌, ◌≡◌, ap, ◌∙◌, arith, bit_and, bit_or}
use wl_00_rv.Prelude.Bits.{
  bit_and_step, bit_or_step, bit_or-zero, bit_and-ones, bit_and-one, bit_and-shifted,
}
use wl_00_rv.Spinlock.Interrupts.{sie, bit_and-not_sie}
use wl_00_rv.Csr.Bits.{sstatus_spp, sstatus_spie}

-- the previous mode, and the interrupt bit that it had
abbrev pub spp : ℕ → ℕ
spp x = x / 2 ^ 8 % 2

abbrev pub spie : ℕ → ℕ
spie x = x / 2 ^ 5 % 2

pub bit_and-spp : (x : ℕ) → bit_and x sstatus_spp ≡ spp x * 2 ^ 8
bit_and-spp x = bit_and-shifted 8 x 1 ∙ omega (arith, bit_and-one (x / 2 ^ 8))

-- A mask that ends in a one, and one that ends in a zero.
and_odd : (x m : ℕ) → bit_and x (m * 2 + 1) ≡ bit_and (x / 2) m * 2 + x % 2
and_odd x m =
    let half : (m * 2 + 1) / 2 ≡ m = omega arith in
    bit_and_step x (m * 2 + 1) ∙ omega (arith, ap (bit_and (x / 2)) half)

and_even : (x m : ℕ) → bit_and x (m * 2) ≡ bit_and (x / 2) m * 2
and_even x m =
    let half : m * 2 / 2 ≡ m = omega arith in
    bit_and_step x (m * 2) ∙ omega (arith, ap (bit_and (x / 2)) half)

pub bit_and-not_spp : (x : ℕ) → x < 2 ^ 32 → bit_and x 0xffff_feff ≡ x - spp x * 2 ^ 8
bit_and-not_spp x h = omega (
  arith,
  and_odd x 0x7fff_ff7f,
  and_odd (x / 2) 0x3fff_ffbf,
  and_odd (x / 2 / 2) 0x1fff_ffdf,
  and_odd (x / 2 / 2 / 2) 0x0fff_ffef,
  and_odd (x / 2 / 2 / 2 / 2) 0x07ff_fff7,
  and_odd (x / 2 / 2 / 2 / 2 / 2) 0x03ff_fffb,
  and_odd (x / 2 / 2 / 2 / 2 / 2 / 2) 0x01ff_fffd,
  and_odd (x / 2 / 2 / 2 / 2 / 2 / 2 / 2) 0x00ff_fffe,
  and_even (x / 2 / 2 / 2 / 2 / 2 / 2 / 2 / 2) 0x007f_ffff,
  bit_and-ones 23 (x / 2 / 2 / 2 / 2 / 2 / 2 / 2 / 2 / 2),
)

pub bit_or-spie : (x : ℕ) → bit_or x sstatus_spie ≡ x - spie x * 2 ^ 5 + 2 ^ 5
bit_or-spie x = omega (
  arith,
  bit_or_step x 0x20,
  bit_or_step (x / 2) 0x10,
  bit_or_step (x / 2 / 2) 8,
  bit_or_step (x / 2 / 2 / 2) 4,
  bit_or_step (x / 2 / 2 / 2 / 2) 2,
  bit_or_step (x / 2 / 2 / 2 / 2 / 2) 1,
  bit_or-zero (x / 2 / 2 / 2 / 2 / 2 / 2),
)

-- A trap vector that is aligned to a word is kept.
pub bit_and-aligned : (x : ℕ) → x < 2 ^ 32 → x % 4 ≡ 0 → bit_and x 0xffff_fffc ≡ x
bit_and-aligned x h aligned =
    omega (arith, and_even x 0x7fff_fffe, and_even (x / 2) 0x3fff_ffff, bit_and-ones 30 (x / 2 / 2))

-- sstatus behind the writes of utrapret: from supervisor to user mode, interrupts on behind sret and
-- off until then.
pub user_status :
    (x : ℕ)
    → x < 2 ^ 32
    → (spp (bit_or (bit_and (bit_and x 0xffff_fffd) 0xffff_feff) sstatus_spie) ≡ 0)
      × (spie (bit_or (bit_and (bit_and x 0xffff_fffd) 0xffff_feff) sstatus_spie) ≡ 1)
      × (sie (bit_or (bit_and (bit_and x 0xffff_fffd) 0xffff_feff) sstatus_spie) ≡ 0)
user_status x h =
    let off = bit_and-not_sie x h in
    let y = bit_and x 0xffff_fffd in
    let user = bit_and-not_spp y (omega (arith, off)) in
    let on = bit_or-spie (bit_and y 0xffff_feff) in
    (omega (arith, off, user, on), omega (arith, off, user, on), omega (arith, off, user, on))
