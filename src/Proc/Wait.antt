-- ===== src/Proc/Wait.antt =====
-- wait of kernel/proc.c on a process that has a zombie child, and on one that has no child.
use wl_00_rv.Prelude.{
  ℕ, suc, ◌≡◌, ◌<◌, ap, ◌∙◌, arith, true, false, ◌==◌, ◌!=◌, if◌then◌else◌, some,
}
use wl_00_rv.Machine.{Kernel, Run, Cmd, ok, and_then, pure, ◌>>◌}
use wl_00_rv.Spinlock.{mem_lock, print_lock, this_cpu, lock, unlock, proc_lock, wait_lock}
use wl_00_rv.Spinlock.Critical.{
  IsSteady, IsFree, entered, settled, with_hart, lock-entered, unlock-entered, settled-IsSteady,
  holding-entered,
}
use wl_00_rv.Vm.Defs.{minus_one, store}
use wl_00_rv.Vm.Copy.{copyout}
use wl_00_rv.Vm.Tables.{IsReady}
use wl_00_rv.Vm.Untouched.{with_ram}
use wl_00_rv.Vm.Rest.{IsRestKept}
use wl_00_rv.Vm.Freed.{Freed}
use wl_00_rv.Proc.Slots.{nproc, set_proc, deref, negative, released, releaseproc}
use wl_00_rv.Proc.Wakeup.{settled-settled}
use wl_00_rv.Proc.Exit.{
  is_child, Pass, returns, ends, after_pass, answer, reap, scan_children, wait_loop, wait,
}
use wl_00_rv.Proc.Release.{ProcPage, IsProcess, IsUnused, released-IsUnused, releaseproc-Freed}
use wl_00_rv.Syscall.Dispatch.{myproc-settled, settled-IsFree}
use wl_00_rv.Proc.Scan.{is_zombie_child, settled-deep, IsScanning, scan-first, scan-childless}

-- Inside the critical section of wait_lock, and there in that of the slot `z`.
abbrev pub scanning : Kernel → Kernel
scanning s = entered wait_lock (settled s)

abbrev pub reaping : (z : ℕ) → Kernel → Kernel
reaping z s = entered (proc_lock z) (scanning s)

-- What wait needs of the hart and the locks.
pub record IsCaller (p : ℕ) (s : Kernel) : Type 0 where
  pub ready : IsReady s
  pub here : (this_cpu s).proc ≡ some p
  pub waits : IsFree wait_lock s
  pub slots : (j : ℕ) → j < nproc → IsFree (proc_lock j) s

module _ (p : ℕ) (s : Kernel) (caller : IsCaller p s) where
  calm : IsSteady (settled s)
  calm = settled-IsSteady s caller.ready.steady

  scanning-IsScanning : IsScanning (scanning s)
  unfolding entered settled
  scanning-IsScanning = record {
    steady = record { wide = omega (arith, calm.wide); quiet = λ d. omega arith };
    deep = λ d. ground arith;
    free = λ j hj.
        let far : (wait_lock == proc_lock j) ≡ false = ground arith in rw far (caller.slots j hj);
  }

  -- Both locks given back.
  answer-left :
      (z result : ℕ) (o : Kernel)
      → z < nproc
      → answer z result (with_hart (reaping z s) o) ≡ ok (returns result) (with_hart (settled s) o)
  unfolding answer
  answer-left z result o hz =
      let scan = scanning-IsScanning in
      ap (λ m. and_then m λ _. unlock wait_lock >> pure (returns result))
        (unlock-entered (proc_lock z) (scanning s) o scan.steady (scan.free z hz)
          ∙ ap (λ t. ok tt (with_hart t o)) (settled-deep (scanning s) scan.deep))
      ∙ ap (λ m. and_then m λ _. pure (returns result))
          (unlock-entered wait_lock (settled s) o calm (settled-IsFree wait_lock s caller.waits)
            ∙ ap (λ t. ok tt (with_hart t o)) (settled-settled s))

  -- wait, up to its first pass over the table.
  wait-scanning :
      (n : ℕ) (resume : ℕ → Kernel → Kernel) (buf addr : ℕ) (pass : Pass) (t : Kernel)
      → scan_children nproc 0 buf p addr false (scanning s) ≡ ok pass t
      → wait (suc n) resume buf addr s
        ≡ after_pass (resume n) p (wait_loop n resume buf p addr) pass t
  unfolding wait wait_loop
  wait-scanning n resume buf addr pass t scanned =
      let rest = wait_loop n resume buf p addr in
      let body = λ (k : ℕ). lock wait_lock >> wait_loop (suc n) resume buf k addr in
      ap (λ m. and_then m λ me. deref me body) (myproc-settled s caller.ready.steady)
      ∙ ap (λ me. deref me body (settled s)) caller.here
      ∙ ap (λ m. and_then m λ _. wait_loop (suc n) resume buf p addr)
          (lock-entered wait_lock (settled s) calm.wide (settled-IsFree wait_lock s caller.waits))
      ∙ ap (λ m. and_then m (after_pass (resume n) p rest)) scanned

  wait-childless :
      (n : ℕ) (resume : ℕ → Kernel → Kernel) (buf addr : ℕ)
      → ((j : ℕ) → j < nproc → is_child p (s.proctable j) ≡ false)
      → wait (suc n) resume buf addr s ≡ ok (some minus_one) (settled s)
  unfolding after_pass entered settled
  wait-childless n resume buf addr childless =
      wait-scanning n resume buf addr (ends false) (scanning s)
        (scan-childless nproc 0 buf p addr (scanning s) scanning-IsScanning (omega arith) childless)
      ∙ ap (λ m. and_then m λ _. pure (some minus_one))
          (unlock-entered wait_lock (settled s) (scanning s) calm
              (settled-IsFree wait_lock s caller.waits)
            ∙ ap (λ t. ok tt (with_hart t (scanning s))) (settled-settled s))

  module _ (z buf addr : ℕ) (hz : z < nproc) where
    -- The exit status in the local variable, and its copy to the user where the address is not NULL.
    abbrev pub copies : Run ℕ
    copies =
        (if addr != 0 then copyout (s.proctable p).pt addr buf 4 else pure 0)
          (store buf (s.proctable z).xstate (reaping z s))

    -- The state behind the reaping: `v` is what releaseproc leaves but for the slot.
    abbrev pub reaped : Kernel → Kernel
    reaped v = set_proc z released (record (settled s) { ram = v.ram; mem_bitmap = v.mem_bitmap })

    -- Behind the copy.
    abbrev behind_copy : (pid r : ℕ) → Cmd Pass
    behind_copy pid r = if negative r then answer z minus_one else releaseproc z >> answer z pid

    reap-copied :
        (r : ℕ) (ram : ℕ → ℕ)
        → copies ≡ ok r (with_ram ram (reaping z s))
        → reap buf p z addr (reaping z s)
          ≡ behind_copy (s.proctable z).pid r (with_ram ram (reaping z s))
    unfolding reap entered settled
    reap-copied r ram copied = ap (λ m. and_then m (behind_copy (s.proctable z).pid)) copied

    reap-refused :
        (r : ℕ) (ram : ℕ → ℕ)
        → negative r ≡ true
        → behind_copy (s.proctable z).pid r (with_ram ram (reaping z s))
          ≡ ok (returns minus_one) (with_ram ram (settled s))
    unfolding entered settled
    reap-refused r ram failed = rw failed (answer-left z minus_one (with_ram ram (settled s)) hz)

    -- releaseproc leaves the harts and the locks alone.
    released-reaped :
        (ram : ℕ → ℕ) (v : Kernel)
        → IsRestKept (with_ram ram (reaping z s)) v
        → set_proc z released v ≡ with_hart (reaping z s) (reaped v)
    unfolding entered settled
    released-reaped ram v kept = ap (set_proc z released) (
        kept.rest
        ∙ ap (λ c. record (reaping z s) { ram = v.ram; mem_bitmap = v.mem_bitmap; cpus = c })
            (kept.deep λ d. ground arith))

    reap-reaped :
        (r : ℕ) (ram : ℕ → ℕ) (v : Kernel)
        → negative r ≡ false
        → releaseproc z (with_ram ram (reaping z s)) ≡ ok tt (set_proc z released v)
        → IsRestKept (with_ram ram (reaping z s)) v
        → behind_copy (s.proctable z).pid r (with_ram ram (reaping z s))
          ≡ ok (returns (s.proctable z).pid) (reaped v)
    reap-reaped r ram v good run kept =
        let pid = (s.proctable z).pid in
        rw good (
          ap (λ m. and_then m λ _. answer z pid) run
          ∙ ap (answer z pid) (released-reaped ram v kept)
          ∙ answer-left z pid (reaped v) hz)

    pub reaping-IsReady : (ram : ℕ → ℕ) → IsReady (with_ram ram (reaping z s))
    unfolding entered settled
    reaping-IsReady ram =
        let first : (proc_lock z == mem_lock) ≡ false = ground arith in
        let second : (proc_lock z == print_lock) ≡ false = ground arith in
        record {
          steady = record { wide = omega (arith, calm.wide); quiet = λ d. omega arith };
          memory = rw first caller.ready.memory;
          console = rw second caller.ready.console;
          calm = caller.ready.calm;
        }

    wait-found :
        is_zombie_child p (s.proctable z) ≡ true
        → ((j : ℕ) → j < z → is_zombie_child p (s.proctable j) ≡ false)
        → (r : ℕ) (ram : ℕ → ℕ) → copies ≡ ok r (with_ram ram (reaping z s))
        → scan_children nproc 0 buf p addr false (scanning s)
          ≡ behind_copy (s.proctable z).pid r (with_ram ram (reaping z s))
    unfolding entered settled
    wait-found found before r ram copied =
        scan-first nproc 0 z buf p addr false (scanning s) scanning-IsScanning (omega arith)
          (omega arith) (omega arith) found before
        ∙ reap-copied r ram copied

    -- What wait gives back when it reaps the child `z`.
    abbrev pub Reaps : (n : ℕ) (resume : ℕ → Kernel → Kernel) (ram : ℕ → ℕ) → Type 0
    Reaps n resume ram =
        (v : Kernel) × (wait (suc n) resume buf addr s ≡ ok (some (s.proctable z).pid) (reaped v))
        × IsUnused (released (s.proctable z))
        × Freed (with_ram ram (reaping z s)) v
            (ProcPage (with_ram ram (reaping z s)) (s.proctable z))

    wait-reaped :
        (n : ℕ) (resume : ℕ → Kernel → Kernel) (r : ℕ) (ram : ℕ → ℕ)
        → negative r ≡ false
        → IsProcess (with_ram ram (reaping z s)) (s.proctable z)
        → scan_children nproc 0 buf p addr false (scanning s)
          ≡ behind_copy (s.proctable z).pid r (with_ram ram (reaping z s))
        → Reaps n resume ram
    unfolding after_pass entered settled
    wait-reaped n resume r ram good owner scanned =
        let held = holding-entered (proc_lock z) (scanning s) (with_ram ram (reaping z s)) in
        let (v, run, empty, freed) =
          (releaseproc-Freed z (with_ram ram (reaping z s)) (reaping-IsReady ram) owner).1 held in
        (
          v,
          wait-scanning n resume buf addr (returns (s.proctable z).pid) (reaped v)
              (scanned ∙ reap-reaped r ram v good run freed.kept_rest),
          released-IsUnused (s.proctable z),
          freed,
        )

pub wait_outcomes :
    (p n buf addr : ℕ) (resume : ℕ → Kernel → Kernel) (s : Kernel) (caller : IsCaller p s)
    → (((j : ℕ) → j < nproc → is_child p (s.proctable j) ≡ false)
        → wait (suc n) resume buf addr s ≡ ok (some minus_one) (settled s))
      × ((z r : ℕ) (ram : ℕ → ℕ) (hz : z < nproc)
          → is_zombie_child p (s.proctable z) ≡ true
          → ((j : ℕ) → j < z → is_zombie_child p (s.proctable j) ≡ false)
          → copies p s caller z buf addr hz ≡ ok r (with_ram ram (reaping z s))
          → (negative r ≡ true
              → wait (suc n) resume buf addr s ≡ ok (some minus_one) (with_ram ram (settled s)))
            × (negative r ≡ false
                → IsProcess (with_ram ram (reaping z s)) (s.proctable z)
                → Reaps p s caller z buf addr hz n resume ram))
unfolding after_pass
wait_outcomes p n buf addr resume s caller = (
  wait-childless p s caller n resume buf addr,
  λ z r ram hz found before copied.
      let scanned = wait-found p s caller z buf addr hz found before r ram copied in
      (
        λ failed.
            wait-scanning p s caller n resume buf addr (returns minus_one)
              (with_ram ram (settled s))
              (scanned ∙ reap-refused p s caller z buf addr hz r ram failed),
        λ good owner. wait-reaped p s caller z buf addr hz n resume r ram good owner scanned,
      ),
)
