-- ===== src/Tests/Calls.antt =====
-- System calls on the concrete machine.
use wl_00_rv.Prelude.{List, ◌==◌, if◌then◌else◌, ℕ, ◌≡◌, arith, some, codes, ltb, add32}
use wl_00_rv.Machine.{Kernel}
use wl_00_rv.Syscall.{still_asleep}
use wl_00_rv.Syscall.Elapsed.{still_asleep_lem}
use wl_00_rv.Tests.State.{machine, cpu}

-- The process 0 runs, with its trapframe at 0 and 12 in a7.
abbrev calling : Kernel
calling = record machine {
  cpus = λ _. record cpu { proc = some 0 };
  ram = λ a. if a == 88 then 12 else 0;
}

abbrev line : List ℕ
line = codes "Error: Invalid syscall 12\n"

-- A sleep of 5 ticks over the wrap of the counter, 3 ticks later.
still_asleep_lem_example : still_asleep 0xffff_ffff (add32 0xffff_ffff 3) 5 ≡ ltb 3 5
still_asleep_lem_example = still_asleep_lem 0xffff_ffff 3 5 (omega arith) (omega arith)
