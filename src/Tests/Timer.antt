-- ===== src/Tests/Timer.antt =====
-- The clock and its comparator at concrete inputs.
use wl_00_rv.Prelude.{ℕ, ◌+◌, ◌≡◌, ◌≢◌, ◌≤◌, ◌⊎◌, refl, arith, some, take}
use wl_00_rv.Registers.{Csr, stimecmp, stimecmph}
use wl_00_rv.Csr.{csrr}
use wl_00_rv.Csr.Timer.{
  r_time64, r_time64_lem, compare_writes, perform, comparator, w_stimecmp64, w_stimecmp64_lem,
}
use wl_00_rv.Tests.State.{machine}

-- The low half carries into the high half right behind the first read.
abbrev carrying : ℕ → ℕ
carrying i = 0xffff_ffff + i

carry : r_time64 3 carrying 0 ≡ some 0x1_0000_0003
unfolding r_time64
carry = refl

r_time64_lem_example :
    (r_time64 2 carrying 0 ≡ some (carrying (0 + 1)))
    ⊎ (r_time64 2 carrying 0 ≡ some (carrying (0 + 4)))
r_time64_lem_example = r_time64_lem 0 carrying 0 (λ j. omega arith) (omega arith) (omega arith)

w_stimecmp64_lem_example :
    ((k : ℕ)
      → (comparator machine ≤ comparator (perform (take k (compare_writes 0x1_0000_0003)) machine))
        ⊎ (0x1_0000_0003 ≤ comparator (perform (take k (compare_writes 0x1_0000_0003)) machine)))
    × (comparator (w_stimecmp64 0x1_0000_0003 machine) ≡ 0x1_0000_0003)
    × ((c : Csr)
        → c ≢ stimecmp
        → c ≢ stimecmph
        → csrr c (w_stimecmp64 0x1_0000_0003 machine) ≡ csrr c machine)
w_stimecmp64_lem_example = w_stimecmp64_lem 0x1_0000_0003 machine (omega arith) (omega arith)
