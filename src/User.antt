-- ===== src/User.antt =====
-- The library of user programs, user/ulib.c and user/printf.c, and two programs, user/init.c and
-- user/echo.c. write(1, &c, 1) of putc is a byte of
-- the list that a function sends; strlen, strcmp and memcpy are those of the kernel.
pub mod Ulib
pub mod Printf
pub mod Agree
pub mod Programs
