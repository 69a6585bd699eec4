-- ===== src/Csr/MachineMode.antt =====
-- The machine mode registers of kernel/csr.c.
use wl_00_rv.Prelude.{ℕ, bit_and}
use wl_00_rv.Registers.{
  mvendorid, marchid, mimpid, mhartid, mstatus, misa, medeleg, mideleg, mie, mtvec, menvcfg,
  menvcfgh, mcounteren, mscratch, mepc, mcause, mtval, mip, mcycle, minstret, pmpcfg0, pmpaddr0,
}
use wl_00_rv.Machine.{Kernel}
use wl_00_rv.Csr.{csrr, csrw}

abbrev pub r_mvendorid : Kernel → ℕ
r_mvendorid = csrr mvendorid

abbrev pub r_marchid : Kernel → ℕ
r_marchid = csrr marchid

abbrev pub r_mimpid : Kernel → ℕ
r_mimpid = csrr mimpid

abbrev pub r_mhartid : Kernel → ℕ
r_mhartid = csrr mhartid

abbrev pub w_mstatus : ℕ → Kernel → Kernel
w_mstatus = csrw mstatus

abbrev pub r_mstatus : Kernel → ℕ
r_mstatus = csrr mstatus

abbrev pub w_misa : ℕ → Kernel → Kernel
w_misa = csrw misa

abbrev pub r_misa : Kernel → ℕ
r_misa = csrr misa

abbrev pub w_medeleg : ℕ → Kernel → Kernel
w_medeleg = csrw medeleg

abbrev pub r_medeleg : Kernel → ℕ
r_medeleg = csrr medeleg

abbrev pub w_mideleg : ℕ → Kernel → Kernel
w_mideleg = csrw mideleg

abbrev pub r_mideleg : Kernel → ℕ
r_mideleg = csrr mideleg

abbrev pub w_mie : ℕ → Kernel → Kernel
w_mie = csrw mie

abbrev pub r_mie : Kernel → ℕ
r_mie = csrr mie

abbrev pub w_mtvec : ℕ → Kernel → Kernel
w_mtvec x = csrw mtvec (bit_and x 0xffff_fffc)

abbrev pub r_mtvec : Kernel → ℕ
r_mtvec = csrr mtvec

abbrev pub w_menvcfg : ℕ → Kernel → Kernel
w_menvcfg = csrw menvcfg

abbrev pub r_menvcfg : Kernel → ℕ
r_menvcfg = csrr menvcfg

abbrev pub w_menvcfgh : ℕ → Kernel → Kernel
w_menvcfgh = csrw menvcfgh

abbrev pub r_menvcfgh : Kernel → ℕ
r_menvcfgh = csrr menvcfgh

abbrev pub w_mcounteren : ℕ → Kernel → Kernel
w_mcounteren = csrw mcounteren

abbrev pub r_mcounteren : Kernel → ℕ
r_mcounteren = csrr mcounteren

abbrev pub r_mscratch : Kernel → ℕ
r_mscratch = csrr mscratch

abbrev pub w_mscratch : ℕ → Kernel → Kernel
w_mscratch = csrw mscratch

abbrev pub r_mepc : Kernel → ℕ
r_mepc = csrr mepc

abbrev pub w_mepc : ℕ → Kernel → Kernel
w_mepc = csrw mepc

abbrev pub r_mcause : Kernel → ℕ
r_mcause = csrr mcause

abbrev pub r_mtval : Kernel → ℕ
r_mtval = csrr mtval

abbrev pub r_mip : Kernel → ℕ
r_mip = csrr mip

abbrev pub r_mcycle : Kernel → ℕ
r_mcycle = csrr mcycle

abbrev pub r_minstret : Kernel → ℕ
r_minstret = csrr minstret

abbrev pub w_pmpcfg0 : ℕ → Kernel → Kernel
w_pmpcfg0 = csrw pmpcfg0

abbrev pub r_pmpcfg0 : Kernel → ℕ
r_pmpcfg0 = csrr pmpcfg0

abbrev pub w_pmpaddr0 : ℕ → Kernel → Kernel
w_pmpaddr0 = csrw pmpaddr0

abbrev pub r_pmpaddr0 : Kernel → ℕ
r_pmpaddr0 = csrr pmpaddr0
