-- ===== src/Mem/Pages.antt =====
-- Page addresses: rounding, and the index of a page.
use wl_00_rv.Prelude.{
  ℕ, ◌+◌, ◌-◌, ◌*◌, ◌/◌, ◌%◌, ◌^◌, ◌≡◌, ◌≤◌, ◌<◌, arith, ◌∙◌, ap, leb, add32, if◌then◌else◌,
}
use wl_00_rv.Prelude.Bits.{bit_and-shifted, bit_and-ones}
use wl_00_rv.Mem.{mem_start, page_size, num_pages, pg_round_down, pg_round_up, page_idx}

-- the address of page `i`
abbrev pub page_addr : ℕ → ℕ
page_addr i = mem_start + i * page_size

pub pg_round_down_lem : (a : ℕ) → a < 2 ^ 32 → pg_round_down a ≡ a / 4096 * 4096
unfolding pg_round_down
pg_round_down_lem a h =
    bit_and-shifted 12 a (2 ^ 20 - 1)
    ∙ ap (λ x. x * 4096) (bit_and-ones 20 (a / 4096) ∙ omega arith)

pub pg_round_up_lem : (a : ℕ) → a ≤ 2 ^ 32 - page_size → pg_round_up a ≡ (a + 4095) / 4096 * 4096
unfolding pg_round_up
pg_round_up_lem a h = pg_round_down_lem (add32 a 4095) (omega arith) ∙ omega arith

-- PGROUNDUP is the least page boundary at or above its argument, PGROUNDDOWN the greatest at or
-- below it, as long as rounding up does not wrap at the top of the address space.
pub pg_round_bounds :
    (a : ℕ)
    → a ≤ 2 ^ 32 - page_size
    → (pg_round_up a % page_size ≡ 0)
      × (a ≤ pg_round_up a)
      × (pg_round_up a < a + page_size)
      × (pg_round_down a % page_size ≡ 0)
      × (pg_round_down a ≤ a)
      × (a < pg_round_down a + page_size)
pg_round_bounds a h = omega (arith, pg_round_up_lem a h, pg_round_down_lem a (omega arith))

-- page_idx counts pages from the start of RAM, and is -1 for an address below it.
pub page_idx_lem :
    (pa : ℕ)
    → pa < 2 ^ 32
    → page_idx pa ≡ (if leb mem_start pa then (pa - mem_start) / page_size else 0xffff_ffff)
unfolding page_idx
page_idx_lem pa h = ground (arith, pg_round_down_lem pa h)

pub page_idx-page_addr : (i : ℕ) → i < num_pages → page_idx (page_addr i) ≡ i
page_idx-page_addr i h = ground (arith, page_idx_lem (page_addr i))
