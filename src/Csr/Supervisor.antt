-- ===== src/Csr/Supervisor.antt =====
-- The supervisor registers of kernel/csr.c, and the thread pointer.
use wl_00_rv.Prelude.{ℕ, bit_and}
use wl_00_rv.Registers.{sie, stvec, sscratch, sepc, scause, stval, sip}
use wl_00_rv.Machine.{Kernel}
use wl_00_rv.Csr.{csrr, csrw}

abbrev pub w_sie : ℕ → Kernel → Kernel
w_sie = csrw sie

abbrev pub r_sie : Kernel → ℕ
r_sie = csrr sie

abbrev pub w_stvec : ℕ → Kernel → Kernel
w_stvec x = csrw stvec (bit_and x 0xffff_fffc)

abbrev pub r_stvec : Kernel → ℕ
r_stvec = csrr stvec

abbrev pub r_sscratch : Kernel → ℕ
r_sscratch = csrr sscratch

abbrev pub w_sscratch : ℕ → Kernel → Kernel
w_sscratch = csrw sscratch

abbrev pub r_sepc : Kernel → ℕ
r_sepc = csrr sepc

abbrev pub w_sepc : ℕ → Kernel → Kernel
w_sepc = csrw sepc

abbrev pub r_scause : Kernel → ℕ
r_scause = csrr scause

abbrev pub r_stval : Kernel → ℕ
r_stval = csrr stval

abbrev pub r_sip : Kernel → ℕ
r_sip = csrr sip

abbrev pub w_sip : ℕ → Kernel → Kernel
w_sip = csrw sip

abbrev pub w_sstatus : ℕ → Kernel → Kernel
w_sstatus x s = record s { sstatus = x }

abbrev pub r_sstatus : Kernel → ℕ
r_sstatus s = s.sstatus

abbrev pub w_satp : ℕ → Kernel → Kernel
w_satp x s = record s { satp = x }

abbrev pub r_satp : Kernel → ℕ
r_satp s = s.satp

abbrev pub w_tp : ℕ → Kernel → Kernel
w_tp x s = record s { tp = x }

abbrev pub r_tp : Kernel → ℕ
r_tp s = s.tp
