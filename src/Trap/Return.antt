-- ===== src/Trap/Return.antt =====
-- utrapret of kernel/trap.c: the state in which a process goes back to user mode.
use wl_00_rv.Prelude.{ℕ, ◌+◌, ◌*◌, ◌%◌, ◌^◌, ◌≡◌, ◌<◌, inl, inr, refl, ap, ◌∙◌, arith, some, add32}
use wl_00_rv.Registers.{stvec, sscratch, sepc}
use wl_00_rv.Machine.{Kernel, ok, and_then, modify}
use wl_00_rv.Ram.Words.{load_word-store_word, load_word-store_ne}
use wl_00_rv.Ram.{store_word}
use wl_00_rv.Spinlock.{this_cpu}
use wl_00_rv.Spinlock.Critical.{IsSteady, settled}
use wl_00_rv.Spinlock.Interrupts.{sie}
use wl_00_rv.Mem.{page_size}
use wl_00_rv.Vm.Defs.{load, set_satp, paging_status}
use wl_00_rv.Vm.Entry.{set_satp_fields}
use wl_00_rv.Csr.{csrr}
use wl_00_rv.Csr.Masks.{spp, spie, bit_and-aligned, user_status}
use wl_00_rv.Proc.Slots.{deref}
use wl_00_rv.Proc.Fork.{tf_k_sp, tf_reg}
use wl_00_rv.Syscall.{reg}
use wl_00_rv.Syscall.Dispatch.{myproc-settled}
use wl_00_rv.Trap.Handlers.{tf_epc, tf_k_hartid, return_user, utrapret}

-- The process `p` is about to run in user mode at its saved place, on its own page table, and its
-- next trap will find the trapframe, the kernel stack and the hart.
pub record IsUserReady (s : Kernel) (usertrap p : ℕ) (t : Kernel) : Type 0 where
  pub mode : spp t.sstatus ≡ 0
  pub interrupts : spie t.sstatus ≡ 1
  pub quiet : sie t.sstatus ≡ 0
  pub pc : csrr sepc t ≡ load ((s.proctable p).tf + tf_epc) s
  pub vector : csrr stvec t ≡ usertrap
  pub frame : csrr sscratch t ≡ (s.proctable p).tf
  pub table : t.satp % 2 ^ 22 * page_size ≡ (s.proctable p).pt
  pub translated : paging_status t ≡ 1
  pub stack : load ((s.proctable p).tf + tf_k_sp) t ≡ add32 (s.proctable p).kstack page_size
  pub hart : load ((s.proctable p).tf + tf_k_hartid) t ≡ s.tp
  pub registers : (i : ℕ) → i < 32 → reg p i t ≡ reg p i s

utrapret-return :
    (usertrap p : ℕ) (s : Kernel)
    → IsSteady s
    → (this_cpu s).proc ≡ some p
    → utrapret usertrap s ≡ ok tt (return_user usertrap p (settled s))
unfolding utrapret
utrapret-return usertrap p s steady here =
    ap (λ m. and_then m λ me. deref me λ i. modify (return_user usertrap i))
      (myproc-settled s steady)
    ∙ ap (λ me. deref me (λ i. modify (return_user usertrap i)) (settled s)) here

return_user-IsUserReady :
    (usertrap p : ℕ) (s : Kernel)
    → s.sstatus < 2 ^ 32
    → s.tp < 2 ^ 32
    → usertrap < 2 ^ 32
    → usertrap % 4 ≡ 0
    → (s.proctable p).pt < 2 ^ 32
    → (s.proctable p).pt % page_size ≡ 0
    → IsUserReady s usertrap p (return_user usertrap p (settled s))
unfolding return_user settled set_satp paging_status
return_user-IsUserReady usertrap p s wide hart vector aligned table page =
    let q = s.proctable p in
    let ram = store_word s.ram (q.tf + tf_k_sp) (add32 q.kstack page_size) in
    let status = user_status s.sstatus wide in
    let fields = set_satp_fields q.pt s table page in
    record {
      mode = status.0;
      interrupts = status.1;
      quiet = status.2;
      pc =
          load_word-store_ne ram (q.tf + tf_k_hartid) (q.tf + tf_epc) s.tp (inl (omega arith))
          ∙ load_word-store_ne s.ram (q.tf + tf_k_sp) (q.tf + tf_epc) _ (inr (omega arith));
      vector = bit_and-aligned usertrap vector aligned;
      frame = refl;
      table = fields.2;
      translated = fields.1;
      stack =
          load_word-store_ne ram (q.tf + tf_k_hartid) (q.tf + tf_k_sp) s.tp (inl (omega arith))
          ∙ load_word-store_word s.ram (q.tf + tf_k_sp) _ (omega arith);
      hart = load_word-store_word ram (q.tf + tf_k_hartid) s.tp hart;
      registers = λ i hi.
          load_word-store_ne ram (q.tf + tf_k_hartid) (q.tf + tf_reg i) s.tp (inl (omega arith))
          ∙ load_word-store_ne s.ram (q.tf + tf_k_sp) (q.tf + tf_reg i) _ (inr (omega arith));
    }

-- utrapret returns to user mode: with the previous mode set to user, interrupts off until then and on
-- behind it, the saved pc and registers, the page table of the process switched on, and the trap
-- vector, sscratch, kernel stack and hart that the next trap needs.
pub utrapret-IsUserReady :
    (usertrap p : ℕ) (s : Kernel)
    → IsSteady s
    → (this_cpu s).proc ≡ some p
    → s.tp < 2 ^ 32
    → usertrap < 2 ^ 32
    → usertrap % 4 ≡ 0
    → (s.proctable p).pt < 2 ^ 32
    → (s.proctable p).pt % page_size ≡ 0
    → (t : Kernel) × (utrapret usertrap s ≡ ok tt t) × IsUserReady s usertrap p t
utrapret-IsUserReady usertrap p s steady here hart vector aligned table page = (
  return_user usertrap p (settled s),
  utrapret-return usertrap p s steady here,
  return_user-IsUserReady usertrap p s steady.wide hart vector aligned table page,
)
