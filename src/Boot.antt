-- ===== src/Boot.antt =====
-- kernel/boot.c and kernel/main.c: machine mode hands over to main in supervisor mode, and main sets
-- the kernel up. The linker's symbols and the entry points are arguments.
use wl_00_rv.Prelude.{ℕ, ◌==◌, if◌then◌else◌, bit_and, bit_or, List, [], ◌∷◌, codes}
use wl_00_rv.Text.{word}
use wl_00_rv.Machine.{Kernel, Cmd, ◌>>◌, modify, update}
use wl_00_rv.Kprint.{printf}
use wl_00_rv.Mem.{init_bitmap}
use wl_00_rv.Vm.Defs.{init_kvmhart}
use wl_00_rv.Vm.KernelTable.{init_kptable}
use wl_00_rv.Csr.Bits.{mstatus_mpp_s, sie_seie, sie_stie, sie_ssie, menvcfgh_stce, mcounteren_tm}
use wl_00_rv.Csr.MachineMode.{
  r_mstatus, w_mstatus, w_mideleg, w_medeleg, w_mepc, w_pmpaddr0, w_pmpcfg0, r_menvcfgh, w_menvcfgh,
  r_mcounteren, w_mcounteren,
}
use wl_00_rv.Csr.Supervisor.{r_sie, w_sie, w_satp}
use wl_00_rv.Trap.{init_clock}
use wl_00_rv.Trap.Handlers.{rearm, init_trap}
use wl_00_rv.Exec.Load.{Program}
use wl_00_rv.Proc.Slots.{init_proctable}
use wl_00_rv.Proc.First.{Entries, init_userproc}

-- boot() up to its w_stimecmp64.
unfoldable pub handed_over : (main : ℕ) → Kernel → Kernel
handed_over main s =
    let t = w_mstatus (bit_or (bit_and (r_mstatus s) 0xffff_e7ff) mstatus_mpp_s) s in
    let u = w_satp 0 (w_medeleg 0xffff (w_mideleg 0xffff t)) in
    let v = w_sie (bit_or (bit_or (bit_or (r_sie u) sie_seie) sie_stie) sie_ssie) u in
    let w = w_pmpcfg0 0xf (w_pmpaddr0 0xffff_ffff (w_mepc main v)) in
    let x = w_menvcfgh (bit_or (r_menvcfgh w) menvcfgh_stce) w in
    w_mcounteren (bit_or (r_mcounteren x) mcounteren_tm) x

-- boot() up to its mret.
unfoldable pub boot : (main : ℕ) (clock : ℕ → ℕ) → Cmd (Unit {0})
unfolding handed_over
boot main clock = modify (handed_over main) >> rearm clock

-- What main takes from the linker script and the generated images.
pub record Image : Type 0 where
  pub end : ℕ
  pub etext : ℕ
  pub trampoline : ℕ
  pub forkret : ℕ
  pub entries : Entries
  pub programs : List Program

-- cpus[i].id = v
set_id : (i v : ℕ) → Kernel → Kernel
set_id i v s = record s { cpus = update s.cpus i (record (s.cpus i) { id = v }) }

-- main() on hart 0, behind uart_init (Uart) and up to its `init = 1` and the scheduler.
unfoldable pub main_first : Image → Cmd (Unit {0})
unfolding set_id
main_first image =
    modify (set_id 0 0)
    >> printf (codes "\n") []
    >> printf (codes "wl-00 kernel is booting\n") []
    >> init_bitmap image.end
    >> init_kptable image.etext
    >> modify init_kvmhart
    >> modify init_clock
    >> modify (init_trap image.entries.kerneltrap)
    >> modify init_proctable
    >> init_userproc image.entries image.programs image.trampoline image.forkret
    >> (λ s. printf (codes "Main cpu %d initialized!\n") (word s.tp ∷ []) s)

-- main() on another hart, behind its wait for `init` and up to the scheduler.
unfoldable pub main_other : Image → Cmd (Unit {0})
unfolding set_id
main_other image =
    modify (λ s. set_id s.tp s.tp s)
    >> modify init_kvmhart
    >> modify (init_trap image.entries.kerneltrap)
    >> (λ s. printf (codes "cpu %d initialized\n") (word s.tp ∷ []) s)

unfoldable pub main : Image → Cmd (Unit {0})
unfolding main_first main_other
main image s = if s.tp == 0 then main_first image s else main_other image s
