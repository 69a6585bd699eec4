-- ===== src/Tests.antt =====
-- A concrete machine, runs of the code on it, and the theorems at concrete inputs.
mod State
mod Text
mod Timer
mod Traps
mod Exited
mod Unmapping
mod Locks
mod Memory
mod Paging
mod Copies
mod Images
mod Processes
mod Calls
mod Programs
