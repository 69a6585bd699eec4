-- ===== src/Tests/Unmapping.antt =====
-- The release of what the process of Tests/Exited owns.
use wl_00_rv.Prelude.{ℕ, ◌≡◌, ◌<◌, refl, arith, some, inr, false, true, ltb, Bool-cases, ◌⊎◌, inl}
use wl_00_rv.Vm.Untouched.{with_ram}
use wl_00_rv.Vm.Tables.{IsOutside, IsReady}
use wl_00_rv.Spinlock.Critical.{entered, settled}
use wl_00_rv.Tests.Copies.{outside, mapped}
use wl_00_rv.Vm.Defs.{store, minus_one}
use wl_00_rv.Ram.Words.{store_word-outside}
use wl_00_rv.Proc.Scan.{is_zombie_child}
use wl_00_rv.Proc.Exit.{wait, is_child}
use wl_00_rv.Proc.Wait.{reaping-IsReady, reaping, Reaps, copies, wait_outcomes}
use wl_00_rv.Proc.Slots.{nproc, negative, set_proc, released, releaseproc}
use wl_00_rv.Machine.{Kernel, ok, panic}
use wl_00_rv.Spinlock.{proc_lock, holding}
use wl_00_rv.Vm.Unmap.{uvmfree}
use wl_00_rv.Vm.Space.{UserPage}
use wl_00_rv.Vm.Freed.{Freed}
use wl_00_rv.Vm.Uvmfree.{uvmfree-Freed}
use wl_00_rv.Proc.Release.{IsUnused, ProcPage, IsProcess, releaseproc-Freed}
use wl_00_rv.Tests.Paging.{root}
use wl_00_rv.Tests.Exited.{before, before-IsCaller, held, held-IsUserSpace, exited-IsProcess}

-- With RAM as it was.
untouched : (c : ℕ) → (mapped.ram c ≡ mapped.ram c) ⊎ IsOutside mapped root c
untouched c = inl refl

abbrev reaps : Kernel
reaps = held mapped.ram untouched

reaps-IsReady : IsReady reaps
reaps-IsReady = reaping-IsReady 1 before before-IsCaller 0 0x8000_9000 0 (omega arith) mapped.ram

uvmfree-Freed_example :
    (t : Kernel) × (uvmfree root 0x2000 reaps ≡ ok tt t) × Freed reaps t (UserPage reaps root 1)
uvmfree-Freed_example =
    uvmfree-Freed 0x2000 root reaps reaps-IsReady refl (held-IsUserSpace mapped.ram untouched)

reaps-IsProcess : IsProcess reaps (reaps.proctable 0)
unfolding entered settled
reaps-IsProcess = exited-IsProcess mapped.ram untouched

releaseproc-Freed_example :
    (holding (proc_lock 0) reaps ≡ false
      → releaseproc 0 reaps ≡ panic "releaseproc: lock not held" reaps)
    × (holding (proc_lock 0) reaps ≡ true
        → (t : Kernel) × (releaseproc 0 reaps ≡ ok tt (set_proc 0 released t))
          × IsUnused (released (reaps.proctable 0))
          × Freed reaps t (ProcPage reaps (reaps.proctable 0)))
releaseproc-Freed_example = releaseproc-Freed 0 reaps reaps-IsReady reaps-IsProcess

-- The second branch is the one that runs.
reaps-holding : holding (proc_lock 0) reaps ≡ true
unfolding holding entered settled
reaps-holding = refl

-- RAM with the exit status at 0x80009000.
abbrev noted : ℕ → ℕ
noted = (store 0x8000_9000 3 (reaping 0 before)).ram

noted_same : (c : ℕ) → (noted c ≡ mapped.ram c) ⊎ IsOutside mapped root c
unfolding entered settled
noted_same c = elim (Bool-cases (ltb c 0x8000_9000)) [
  | inl low ↦ inl (store_word-outside mapped.ram 0x8000_9000 3 c (ground arith))
  | inr high ↦ inr (outside c (ground arith))
]

abbrev back : ℕ → Kernel → Kernel
back n t = t

wait_outcomes_example :
    (((j : ℕ) → j < nproc → is_child 1 (before.proctable j) ≡ false)
      → wait 1 back 0x8000_9000 0 before ≡ ok (some minus_one) (settled before))
    × ((z r : ℕ) (ram : ℕ → ℕ) (hz : z < nproc)
        → is_zombie_child 1 (before.proctable z) ≡ true
        → ((j : ℕ) → j < z → is_zombie_child 1 (before.proctable j) ≡ false)
        → copies 1 before before-IsCaller z 0x8000_9000 0 hz
          ≡ ok r (with_ram ram (reaping z before))
        → (negative r ≡ true
            → wait 1 back 0x8000_9000 0 before
              ≡ ok (some minus_one) (with_ram ram (settled before)))
          × (negative r ≡ false
              → IsProcess (with_ram ram (reaping z before)) (before.proctable z)
              → Reaps 1 before before-IsCaller z 0x8000_9000 0 hz 0 back ram))
wait_outcomes_example = wait_outcomes 1 0 0x8000_9000 0 back before before-IsCaller

-- The child in slot 0 is the one that is reaped.
exited_reaped : Reaps 1 before before-IsCaller 0 0x8000_9000 0 (omega arith) 0 back noted
exited_reaped =
    (wait_outcomes_example.1 0 0 noted (omega arith) refl (λ j hj. absurd (omega arith)) refl).1
      refl (exited-IsProcess noted noted_same)
