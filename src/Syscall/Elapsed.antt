-- ===== src/Syscall/Elapsed.antt =====
-- The clock of sys_sleep wraps around, and the sleep does not notice.
use wl_00_rv.Prelude.{ℕ, ◌^◌, ◌≡◌, ◌<◌, ltb, add32, arith}
use wl_00_rv.Syscall.{still_asleep}

-- When `passed` ticks have gone by since `start`, less than a wrap of the counter, the loop of
-- sys_sleep goes on exactly if fewer than `n` have.
pub still_asleep_lem :
    (start passed n : ℕ)
    → start < 2 ^ 32
    → passed < 2 ^ 32
    → still_asleep start (add32 start passed) n ≡ ltb passed n
unfolding still_asleep
still_asleep_lem start passed n hs hp = ground arith
