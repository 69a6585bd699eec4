-- ===== src/Registers.antt =====
-- The registers that kernel/csr.c and kernel/gpr.c name. sstatus, satp and tp are fields of the
-- machine, and time is read from a clock that runs by itself.
use wl_00_rv.Prelude.{ℕ, ◌==◌, if◌then◌else◌}

pub data Csr : Type 0 where
  mvendorid marchid mimpid mhartid mstatus misa : Csr
  medeleg mideleg mie mtvec menvcfg menvcfgh : Csr
  mcounteren stimecmp stimecmph mscratch mepc mcause : Csr
  mtval mip sie stvec sscratch sepc : Csr
  scause stval sip mcycle minstret pmpcfg0 : Csr
  pmpaddr0 : Csr

-- The place of a register in the order above.
abbrev number : Csr → ℕ
number mvendorid = 0
number marchid = 1
number mimpid = 2
number mhartid = 3
number mstatus = 4
number misa = 5
number medeleg = 6
number mideleg = 7
number mie = 8
number mtvec = 9
number menvcfg = 10
number menvcfgh = 11
number mcounteren = 12
number stimecmp = 13
number stimecmph = 14
number mscratch = 15
number mepc = 16
number mcause = 17
number mtval = 18
number mip = 19
number sie = 20
number stvec = 21
number sscratch = 22
number sepc = 23
number scause = 24
number stval = 25
number sip = 26
number mcycle = 27
number minstret = 28
number pmpcfg0 = 29
number pmpaddr0 = 30

-- csrw
abbrev pub written : (Csr → ℕ) → Csr → ℕ → Csr → ℕ
written regs c v d = if number c == number d then v else regs d

-- t0 and a0 to a7
pub data Gpr : Type 0 where
  t0 a0 a1 a2 a3 a4 a5 a6 a7 : Gpr

abbrev index : Gpr → ℕ
index t0 = 5
index a0 = 10
index a1 = 11
index a2 = 12
index a3 = 13
index a4 = 14
index a5 = 15
index a6 = 16
index a7 = 17

-- The write of a general register.
abbrev pub moved : (Gpr → ℕ) → Gpr → ℕ → Gpr → ℕ
moved regs r v q = if index r == index q then v else regs q
