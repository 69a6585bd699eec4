-- ===== src/Proc/Exit.antt =====
-- wait and kexit of kernel/proc.c.
use wl_00_rv.Prelude.{
  ℕ, zero, suc, ◌+◌, Bool, true, false, ◌&&◌, ◌||◌, not, ◌==◌, ◌!=◌, if◌then◌else◌, Option, none,
  some,
}
use wl_00_rv.Machine.{Kernel, Proc, zombie, ok, Cmd, pure, ◌>>=◌, ◌>>◌, modify, panic}
use wl_00_rv.Spinlock.{lock, unlock, proc_lock, wait_lock}
use wl_00_rv.Vm.Defs.{minus_one, store}
use wl_00_rv.Vm.Copy.{copyout}
use wl_00_rv.Vm.Unmap.{uvmfree}
use wl_00_rv.Proc.Slots.{nproc, is_state, set_proc, deref, myproc, releaseproc, negative}
use wl_00_rv.Proc.Switch.{sched, sleep, wakeup, proc_chan}

-- parent == p, for a process p
abbrev pub is_child : (p : ℕ) → Proc → Bool
is_child p q = elim q.parent [ none ↦ false | some r ↦ r == p ]

-- How a pass over the process table in wait ends: with a result, or with have_children.
pub data Pass : Type 0 where
  returns : (result : ℕ) → Pass
  ends : (have_children : Bool) → Pass

-- The end of wait, with the lock of the child `i` held.
unfoldable pub answer : (i result : ℕ) → Cmd Pass
answer i result = unlock (proc_lock i) >> (unlock wait_lock >> pure (returns result))

-- A zombie child `i` is reaped; `buf` is the address of the local variable xstate.
unfoldable pub reap : (buf p i addr : ℕ) → Cmd Pass
unfolding answer
reap buf p i addr s =
    let pid = (s.proctable i).pid in
    let t = store buf (s.proctable i).xstate s in
    ((if addr != 0 then copyout (s.proctable p).pt addr buf 4 else pure 0) >>= λ result.
    if negative result then answer i minus_one else releaseproc i >> answer i pid)
      t

-- The inner for loop of wait.
unfoldable pub scan_children : (rounds i buf p addr : ℕ) (have_children : Bool) → Cmd Pass
unfolding reap
scan_children zero i buf p addr have_children s = ok (ends have_children) s
scan_children (suc n) i buf p addr have_children s =
    let skip = scan_children n (i + 1) buf p addr have_children s in
    let next = scan_children n (i + 1) buf p addr true in
    let visit =
      (lock (proc_lock i) >> λ t.
      (if is_state (t.proctable i).state zombie
          then reap buf p i addr
          else unlock (proc_lock i) >> next)
        t)
        s in
    if not (is_child p (s.proctable i)) then skip else visit

-- Behind a pass over the table: `rest` is what follows a sleep.
unfoldable pub after_pass :
    (resume : Kernel → Kernel) (p : ℕ) (rest : Cmd (Option ℕ)) → Pass → Cmd (Option ℕ)
after_pass resume p rest (returns result) = pure (some result)
after_pass resume p rest (ends have_children) =
    if have_children
    then sleep resume (proc_chan p) wait_lock >> rest
    else unlock wait_lock >> pure (some minus_one)

-- The outer for loop of wait, for `rounds` sleeps at most: `none` while it still waits. `resume` is
-- what the process finds behind each of its sleeps.
unfoldable pub wait_loop :
    (rounds : ℕ) (resume : ℕ → Kernel → Kernel) (buf p addr : ℕ) → Cmd (Option ℕ)
unfolding scan_children after_pass
wait_loop zero resume buf p addr s = ok none s
wait_loop (suc n) resume buf p addr s =
    let rest = wait_loop n resume buf p addr in
    (scan_children nproc 0 buf p addr false >>= after_pass (resume n) p rest) s

unfoldable pub wait : (rounds : ℕ) (resume : ℕ → Kernel → Kernel) (buf addr : ℕ) → Cmd (Option ℕ)
unfolding wait_loop
wait rounds resume buf addr =
    myproc >>= λ me. deref me λ p. lock wait_lock >> wait_loop rounds resume buf p addr

-- The first for loop of kexit: the process that adopts the children.
unfoldable pub find_reaper : (rounds i p : ℕ) → (ℕ → Proc) → Option ℕ
find_reaper zero i p procs = none
find_reaper (suc n) i p procs =
    let rest = find_reaper n (i + 1) p procs in
    if ((procs i).pid == 1) && (i != p) && not (is_state (procs i).state zombie)
    then some i
    else rest

-- A child that is adopted, with its lock held; the result is whether it is a zombie that the reaper
-- must reap.
adopt : (reaper : Option ℕ) (i : ℕ) → Cmd Bool
adopt reaper i s =
    let t = set_proc i (λ q. record q { parent = reaper }) s in
    (if is_state (t.proctable i).state zombie
        then elim reaper [ none ↦ releaseproc i >> pure false | some r ↦ pure true ]
        else pure false)
      t

-- The second for loop of kexit; the result is gave_zombie.
unfoldable pub reparent : (rounds i p : ℕ) (reaper : Option ℕ) (gave_zombie : Bool) → Cmd Bool
unfolding adopt
reparent zero i p reaper gave_zombie s = ok gave_zombie s
reparent (suc n) i p reaper gave_zombie s =
    let skip = reparent n (i + 1) p reaper gave_zombie s in
    let visit =
      (lock (proc_lock i) >> adopt reaper i >>= λ gave.
      unlock (proc_lock i) >> reparent n (i + 1) p reaper (gave || gave_zombie))
        s in
    if is_child p (s.proctable i) then visit else skip

-- wakeup of a process, which may be NULL.
wake_proc : Option ℕ → Cmd (Unit {0})
wake_proc none = wakeup 0
wake_proc (some i) = wakeup (proc_chan i)

-- kexit never returns: sched does not come back, and else it panics.
unfoldable pub kexit : (resume : Kernel → Kernel) (status : ℕ) → Cmd (Unit {0})
unfolding find_reaper reparent wake_proc
kexit resume status = myproc >>= λ me. deref me λ p.
    (λ s. uvmfree (s.proctable p).pt (s.proctable p).sz s)
    >> modify (set_proc p λ q. record q { pt = 0 })
    >> lock wait_lock
    >> (λ s.
        (let reaper = find_reaper nproc 0 p s.proctable in
            reparent nproc 0 p reaper false >>= λ gave_zombie.
            if gave_zombie then wake_proc reaper else pure tt)
          s)
    >> (λ s. elim (s.proctable p).parent [ none ↦ ok tt s | some r ↦ wakeup (proc_chan r) s ])
    >> lock (proc_lock p)
    >> modify (set_proc p λ q. record q { xstate = status; state = zombie })
    >> unlock wait_lock
    >> sched resume
    >> panic "kexit: zombie returned"
