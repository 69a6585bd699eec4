-- ===== src/Tests/State.antt =====
-- A hart with interrupts on, no lock taken, and every page of RAM free.
use wl_00_rv.Prelude.{refl, arith, false, none, [], none}
use wl_00_rv.Machine.{Context, Cpu, Spinlock, Proc, Kernel, unused}
use wl_00_rv.Spinlock.Critical.{IsSteady}

abbrev pub context : Context
context = record { ra = 0; sp = 0; saved = [] }

abbrev pub cpu : Cpu
cpu = record { id = 0; depth = 0; intena = 0; proc = none; context = context }

abbrev pub free_lock : Spinlock
free_lock = record { lock = 0; cpu = none; name = "" }

abbrev pub no_proc : Proc
no_proc = record {
  pid = 0;
  state = unused;
  name = [];
  pt = 0;
  kstack = 0;
  sz = 0;
  tf = 0;
  xstate = 0;
  chan = 0;
  context = context;
  parent = none;
}

abbrev pub machine : Kernel
machine = record {
  tp = 0;
  sstatus = 0x2;
  cpus = λ _. cpu;
  locks = λ _. free_lock;
  ram = λ _. 7;
  mem_bitmap = λ _. 1;
  start_page = 0x8000_0000;
  kptable = 0;
  satp = 0;
  csrs = λ _. 0;
  proctable = λ _. no_proc;
  curr_pid = 1;
  ticks = 0;
  hang = false;
  console = [];
}

pub machine-IsSteady : IsSteady machine
machine-IsSteady = record { wide = omega arith; quiet = λ h. absurd (h refl) }
