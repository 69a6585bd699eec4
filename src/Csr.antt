-- ===== src/Csr.antt =====
-- kernel/csr.c and kernel/csr.h: the control and status registers. A register holds the word that
-- was written last; which bits the hardware keeps is left out.
pub mod Bits
pub mod MachineMode
pub mod Masks
pub mod Supervisor
pub mod Timer
use wl_00_rv.Prelude.{ℕ}
use wl_00_rv.Registers.{Csr, written}
use wl_00_rv.Machine.{Kernel}

-- csrr
abbrev pub csrr : Csr → Kernel → ℕ
csrr c s = s.csrs c

-- csrw
abbrev pub csrw : Csr → ℕ → Kernel → Kernel
csrw c x s = record s { csrs = written s.csrs c x }
