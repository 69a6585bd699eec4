-- ===== src/Proc.antt =====
-- kernel/proc.c: the process table. A pointer to a process is its index, `none` for NULL.
pub mod Slots
pub mod Release
pub mod Scan
pub mod Wait
pub mod Switch
pub mod Fork
pub mod First
pub mod Exit
pub mod Wakeup
pub mod Yield
pub mod Sleep
pub mod Handshake
pub mod Print
