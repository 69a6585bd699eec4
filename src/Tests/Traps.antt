-- ===== src/Tests/Traps.antt =====
-- The trap handlers at concrete inputs.
use wl_00_rv.Prelude.{ℕ, ◌+◌, ◌≡◌, refl, arith, true, some, bit_and, codes}
use wl_00_rv.Text.{format, print_addr}
use wl_00_rv.Machine.{Kernel, Proc, ok, panic}
use wl_00_rv.Spinlock.Critical.{settled}
use wl_00_rv.Kprint.Output.{sent}
use wl_00_rv.Csr.Supervisor.{r_sip, w_sip}
use wl_00_rv.Csr.Timer.{r_time64}
use wl_00_rv.Trap.Handlers.{s_trap_handle, utrapret}
use wl_00_rv.Trap.Return.{IsUserReady, utrapret-IsUserReady}
use wl_00_rv.Trap.Supervisor.{timed, resumed, s_trap_handle_outcomes}
use wl_00_rv.Tests.State.{machine, cpu, no_proc}

-- A hart that runs the process 0, with its table and its trapframe in RAM.
abbrev user : Proc
user = record no_proc { pt = 0x8000_1000; tf = 0x8000_2000; kstack = 0x8000_3000 }

abbrev serving : Kernel
serving = record machine { cpus = λ _. record cpu { proc = some 0 }; proctable = λ _. user }

utrapret-IsUserReady_example :
    (t : Kernel) × (utrapret 0x8000_0100 serving ≡ ok tt t) × IsUserReady serving 0x8000_0100 0 t
utrapret-IsUserReady_example =
    utrapret-IsUserReady 0x8000_0100 0 serving
      (record { wide = omega arith; quiet = λ h. absurd (h refl) }) refl (omega arith) (omega arith)
      (omega arith) (omega arith) (omega arith)

-- A hart whose scheduler is interrupted: the previous mode is supervisor, and interrupts are off.
abbrev interrupted : Kernel
interrupted = record machine { sstatus = 0x120 }

abbrev steady_clock : ℕ → ℕ
steady_clock i = 1000 + i

s_trap_handle_outcomes_example :
    (s_trap_handle steady_clock (λ t. t) 0x8000_0001 0x8000_0040 interrupted
      ≡ ok tt (
          resumed 0x8000_0040 interrupted
            (w_sip (bit_and (r_sip interrupted) 0xffff_fffd) (settled interrupted))))
    × (s_trap_handle steady_clock (λ t. t) 0x8000_0005 0x8000_0040 interrupted
        ≡ ok tt (resumed 0x8000_0040 interrupted (timed 1001 (settled interrupted))))
    × (s_trap_handle steady_clock (λ t. t) 0x8000_0009 0x8000_0040 interrupted
        ≡ ok tt (resumed 0x8000_0040 interrupted (settled interrupted)))
    × (s_trap_handle steady_clock (λ t. t) 13 0x8000_0040 interrupted
        ≡ panic "unhandled exception in kernel" (
            sent (codes "stval:  0x00000000 (Bad Address)\n") (
              sent (codes "sepc:   0x80000040\n") (
                sent
                  (codes "scause: 0x0000000d\n")
                  (record (settled interrupted) { hang = true })))))
unfolding format r_time64 print_addr
s_trap_handle_outcomes_example =
    s_trap_handle_outcomes steady_clock (λ t. t) 0x8000_0040 interrupted 1001 13
      (codes "scause: 0x0000000d\n") (codes "sepc:   0x80000040\n")
      (codes "stval:  0x00000000 (Bad Address)\n")
      (record { wide = omega arith; quiet = λ h. absurd (h refl) }) (omega arith) (omega arith) refl
      (refl, refl) (λ j hj. (refl, refl)) refl (omega arith) refl refl refl
