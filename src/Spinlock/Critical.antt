-- ===== src/Spinlock/Critical.antt =====
-- A critical section on one hart: lock() on a free lock, then unlock(), with the nesting of
-- push_off and pop_off.
use wl_00_rv.Prelude.{
  ℕ, ◌+◌, ◌-◌, ◌*◌, ◌^◌, ◌<◌, ◌≡◌, ◌≢◌, ap, ap₂, fun_ext, ◌∙◌, arith, true, none, some, ◌==◌,
  if◌then◌else◌, ◌!=◌, ◌&&◌, ==_self,
}
use wl_00_rv.Machine.{Cpu, Spinlock, Kernel, ok, spinning, panic, update}
use wl_00_rv.Spinlock.{this_cpu, set_cpu, set_lock, push_off, pop_off, holding, lock, unlock}
use wl_00_rv.Spinlock.Interrupts.{sie, bit_and-sie, bit_or-sie, bit_and-not_sie}

-- What holds of a hart between two kernel functions: interrupts are off while it holds a lock.
pub record IsSteady (s : Kernel) : Type 0 where
  pub wide : s.sstatus < 2 ^ 32
  pub quiet : (this_cpu s).depth ≢ 0 → sie s.sstatus ≡ 0

abbrev pub IsFree : ℕ → Kernel → Type 0
IsFree lk s = ((s.locks lk).lock ≡ 0) × ((s.locks lk).cpu ≡ none)

-- push_off saves the interrupt bit at the outermost level.
abbrev pub settle : ℕ → Cpu → Cpu
settle sstatus c = if c.depth == 0 then record c { intena = sie sstatus * 2 } else c

-- The state behind push_off.
unfoldable pub pushed : Kernel → Kernel
pushed s =
    let c : Cpu = settle s.sstatus (this_cpu s) in
    set_cpu (record c { depth = c.depth + 1 })
      (record s { sstatus = s.sstatus - sie s.sstatus * 2 })

-- The state inside the critical section.
unfoldable pub entered : ℕ → Kernel → Kernel
unfolding pushed
entered lk s = set_lock lk (record (s.locks lk) { lock = 1; cpu = some s.tp }) (pushed s)

-- The state behind it: as before, but for the saved interrupt bit.
unfoldable pub settled : Kernel → Kernel
settled s = set_cpu (settle s.sstatus (this_cpu s)) s

-- `o` with the registers, the cpus and the locks of `h`
abbrev pub with_hart : Kernel → Kernel → Kernel
with_hart h o = record o { tp = h.tp; sstatus = h.sstatus; cpus = h.cpus; locks = h.locks }

pub push_off_lem : (s : Kernel) → s.sstatus < 2 ^ 32 → push_off s ≡ pushed s
unfolding push_off pushed
push_off_lem s wide = rw (bit_and-not_sie s.sstatus wide, bit_and-sie s.sstatus)

update-update :
    (f : ℕ → Spinlock) (i : ℕ) (v w : ℕ → Spinlock)
    → update (update f i (v i)) i (w i) ≡ update f i (w i)
update-update f i v w = fun_ext λ j. ground arith

-- lock() on a free lock turns interrupts off, nests one level deeper, and records the holder.
pub lock-entered :
    (lk : ℕ) (s : Kernel) → s.sstatus < 2 ^ 32 → IsFree lk s → lock lk s ≡ ok tt (entered lk s)
unfolding lock entered
lock-entered lk s wide free =
    rw (push_off_lem s wide, free.0)
      (ap (λ ls. ok tt (record (pushed s) { locks = ls })) (fun_ext λ j. ground arith))

unfoldable pub popped : Kernel → Kernel
popped s =
    let c = this_cpu s in
    let last = (c.depth == 1) && (c.intena != 0) in
    set_cpu (record c { depth = c.depth - 1 })
      (record s { sstatus = if last then s.sstatus + 2 else s.sstatus })

pub pop_off_lem :
    (s : Kernel) → sie s.sstatus ≡ 0 → 0 < (this_cpu s).depth → pop_off s ≡ ok tt (popped s)
unfolding pop_off popped
pop_off_lem s off deep =
    rw (bit_and-sie s.sstatus, off, bit_or-sie s.sstatus, ==_self s.tp) (ground arith)

popped-pushed :
    (s o : Kernel) (ls : ℕ → Spinlock)
    → IsSteady s
    → popped (with_hart (record (pushed s) { locks = ls }) o)
      ≡ with_hart (record (settled s) { locks = ls }) o
unfolding popped pushed settled
popped-pushed s o ls steady =
    ap₂ (λ x cs. record o { tp = s.tp; sstatus = x; cpus = cs; locks = ls }) (ground arith)
      (fun_ext λ j. ground arith)

pub pop_off-pushed :
    (s o : Kernel) (ls : ℕ → Spinlock)
    → IsSteady s
    → pop_off (with_hart (record (pushed s) { locks = ls }) o)
      ≡ ok tt (with_hart (record (settled s) { locks = ls }) o)
unfolding pushed
pop_off-pushed s o ls steady =
    pop_off_lem _ (omega arith) (rw (==_self s.tp) (omega arith))
    ∙ ap (ok tt) (popped-pushed s o ls steady)

pub holding-entered : (lk : ℕ) (s o : Kernel) → holding lk (with_hart (entered lk s) o) ≡ true
unfolding holding entered
holding-entered lk s o = rw (==_self lk, ==_self s.tp)

locks_restored :
    (lk : ℕ) (s : Kernel)
    → IsFree lk s
    → update (entered lk s).locks lk (record ((entered lk s).locks lk) { lock = 0; cpu = none })
      ≡ s.locks
unfolding entered
locks_restored lk s free = fun_ext λ j. ground (arith, free)

-- unlock() at the end of a critical section that changed nothing of the hart or the locks undoes
-- lock(): the nesting, the interrupt bit and the lock are as they were.
pub unlock-entered :
    (lk : ℕ) (s o : Kernel)
    → IsSteady s
    → IsFree lk s
    → unlock lk (with_hart (entered lk s) o) ≡ ok tt (with_hart (settled s) o)
unfolding unlock entered settled
unlock-entered lk s o steady free =
    rw (holding-entered lk s o, locks_restored lk s free) (pop_off-pushed s o s.locks steady)

pub settled-IsSteady : (s : Kernel) → IsSteady s → IsSteady (settled s)
unfolding settled
settled-IsSteady s steady = record { wide = steady.wide; quiet = ground (arith, steady.quiet) }

-- What lock() does on a lock in each state: it enters a free one, panics on one that this hart
-- holds, and spins on one that another hart holds, with the word of the lock left at 1.
pub lock_outcomes :
    (lk : ℕ) (s : Kernel)
    → s.sstatus < 2 ^ 32
    → (IsFree lk s → lock lk s ≡ ok tt (entered lk s))
      × ((s.locks lk).lock ≢ 0
          → (s.locks lk).cpu ≡ some s.tp
          → lock lk s ≡ panic "trying to lock locked spinlock" (pushed s))
      × ((s.locks lk).lock ≢ 0
          → (s.locks lk).cpu ≢ some s.tp
          → lock lk s ≡ spinning lk (set_lock lk (record (s.locks lk) { lock = 1 }) (pushed s)))
unfolding lock holding pushed
lock_outcomes lk s wide = (
  λ free. lock-entered lk s wide free,
  λ taken mine. rw (push_off_lem s wide) (ground arith),
  λ taken other. rw (push_off_lem s wide) (ground arith),
)
