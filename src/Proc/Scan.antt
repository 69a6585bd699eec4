-- ===== src/Proc/Scan.antt =====
-- The pass of wait of kernel/proc.c over the process table.
use wl_00_rv.Prelude.{
  ℕ, zero, suc, ◌+◌, ◌≡◌, ◌≢◌, ◌≤◌, ◌<◌, inl, inr, refl, ap, fun_ext, ◌∙◌, arith, true, false, ◌==◌,
  ◌&&◌, ◌||◌, if◌then◌else◌, Bool, Bool-cases,
}
use wl_00_rv.Machine.{Kernel, Proc, zombie, Cmd, ok, and_then, ◌>>◌}
use wl_00_rv.Spinlock.{this_cpu, unlock, proc_lock}
use wl_00_rv.Spinlock.Critical.{
  IsSteady, IsFree, entered, settled, with_hart, lock-entered, unlock-entered,
}
use wl_00_rv.Proc.Slots.{nproc, is_state}
use wl_00_rv.Proc.Exit.{is_child, Pass, ends, reap, scan_children}

-- A child of `p` that wait reaps.
abbrev pub is_zombie_child : (p : ℕ) → Proc → Bool
is_zombie_child p q = is_child p q && is_state q.state zombie

pub settled-deep : (s : Kernel) → (this_cpu s).depth ≢ 0 → settled s ≡ s
unfolding settled
settled-deep s deep = ap (λ c. record s { cpus = c }) (fun_ext λ h. ground arith)

-- Inside the critical section of wait_lock, with the locks of the slots free.
pub record IsScanning (e : Kernel) : Type 0 where
  pub steady : IsSteady e
  pub deep : (this_cpu e).depth ≢ 0
  pub free : (j : ℕ) → j < nproc → IsFree (proc_lock j) e

-- A look at a slot that has nothing to reap.
look-IsScanning :
    (i : ℕ) (e : Kernel)
    → IsScanning e
    → i < nproc
    → unlock (proc_lock i) (entered (proc_lock i) e) ≡ ok tt e
unfolding entered
look-IsScanning i e scan hi =
    unlock-entered (proc_lock i) e e scan.steady (scan.free i hi)
    ∙ ap (λ t. ok tt (with_hart t e)) (settled-deep e scan.deep)

-- Behind the lock of a child: `next` is the rest of the pass.
abbrev looked : (i buf p addr : ℕ) (next : Cmd Pass) → Cmd Pass
looked i buf p addr next t =
    (if is_state (t.proctable i).state zombie
        then reap buf p i addr
        else unlock (proc_lock i) >> next)
      t

scan-step :
    (n i buf p addr : ℕ) (have : Bool) (e : Kernel)
    → IsScanning e
    → i < nproc
    → scan_children (suc n) i buf p addr have e ≡ (
        if is_zombie_child p (e.proctable i)
        then reap buf p i addr (entered (proc_lock i) e)
        else scan_children n (i + 1) buf p addr (is_child p (e.proctable i) || have) e)
unfolding scan_children entered
scan-step n i buf p addr have e scan hi = elim (Bool-cases (is_child p (e.proctable i))) [
  | inl child ↦
      let next = scan_children n (i + 1) buf p addr true in
      let locked = lock-entered (proc_lock i) e scan.steady.wide (scan.free i hi) in
      rw child (
        ap (λ m. and_then m λ _. looked i buf p addr next) locked
        ∙ elim (Bool-cases (is_state (e.proctable i).state zombie)) [
          | inl dead ↦ rw dead refl
          | inr lives ↦ rw lives (ap (λ m. and_then m λ _. next) (look-IsScanning i e scan hi))
        ])
  | inr other ↦ rw other refl
]

-- The pass over the table stops at the first zombie child.
pub scan-first :
    (n i z buf p addr : ℕ) (have : Bool) (e : Kernel)
    → IsScanning e
    → i ≤ z
    → z < i + n
    → i + n ≤ nproc
    → is_zombie_child p (e.proctable z) ≡ true
    → ((j : ℕ) → j < z → is_zombie_child p (e.proctable j) ≡ false)
    → scan_children n i buf p addr have e ≡ reap buf p z addr (entered (proc_lock z) e)
scan-first zero i z buf p addr have e scan lo hi fits found before = absurd (omega arith)
scan-first (suc n) i z buf p addr have e scan lo hi fits found before =
    scan-step n i buf p addr have e scan (omega arith) ∙ elim (Bool-cases (i == z)) [
      | inl here ↦
          let same : i ≡ z = ground arith in
          ap
            (λ j.
              if is_zombie_child p (e.proctable j)
              then reap buf p j addr (entered (proc_lock j) e)
              else scan_children n (i + 1) buf p addr (is_child p (e.proctable i) || have) e)
            same
          ∙ rw found refl
      | inr later ↦ rw (before i (ground arith)) (
          scan-first n (i + 1) z buf p addr (is_child p (e.proctable i) || have) e scan
            (ground arith) (omega arith) (omega arith) found before)
    ]

-- Without a child the pass changes nothing.
pub scan-childless :
    (n i buf p addr : ℕ) (e : Kernel)
    → IsScanning e
    → i + n ≤ nproc
    → ((j : ℕ) → j < nproc → is_child p (e.proctable j) ≡ false)
    → scan_children n i buf p addr false e ≡ ok (ends false) e
unfolding scan_children
scan-childless zero i buf p addr e scan fits childless = refl
scan-childless (suc n) i buf p addr e scan fits childless =
    rw (childless i (omega arith))
      (scan-childless n (i + 1) buf p addr e scan (omega arith) childless)
