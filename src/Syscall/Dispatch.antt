-- ===== src/Syscall/Dispatch.antt =====
-- myproc, and what syscall() does with a number that is no call.
use wl_00_rv.Prelude.{ℕ, ◌≡◌, ap, ◌∙◌, arith, Bool, codes, [], ◌∷◌, if◌then◌else◌, ==_self}
use wl_00_rv.Text.{word}
use wl_00_rv.Machine.{Kernel, Cmd, ok, and_then, modify, ◌>>◌, ◌>>=◌}
use wl_00_rv.Spinlock.{this_cpu, pop_off}
use wl_00_rv.Spinlock.Critical.{IsSteady, IsFree, pushed, settled, push_off_lem, pop_off-pushed}
use wl_00_rv.Kprint.{printf}
use wl_00_rv.Vm.Defs.{minus_one}
use wl_00_rv.Proc.Slots.{myproc}
use wl_00_rv.Syscall.{set_reg, invalid}

-- myproc answers the process of the hart.
pub myproc-settled : (s : Kernel) → IsSteady s → myproc s ≡ ok (this_cpu s).proc (settled s)
unfolding myproc pushed settled
myproc-settled s steady =
    let same : (this_cpu (pushed s)).proc ≡ (this_cpu s).proc = rw (==_self s.tp) (ground arith) in
    ap (λ t. and_then (pop_off t) λ _ u. ok (this_cpu t).proc u) (push_off_lem s steady.wide)
    ∙ (ap (λ m. and_then m λ _ u. ok (this_cpu (pushed s)).proc u)
          (pop_off-pushed s s s.locks steady)
        ∙ ap (λ p. ok p (settled s)) same)

-- The two branches of syscall(), by the test `bad`, and the body by the number.
abbrev chosen : (bad : Bool) (syscalls : ℕ → Cmd ℕ) (p num : ℕ) → Cmd (Unit {0})
chosen bad syscalls p num =
    if bad
    then printf (codes "Error: Invalid syscall %d\n") (word num ∷ [])
      >> modify (set_reg p 10 minus_one)
    else syscalls num >>= λ result. modify (set_reg p 10 result)

abbrev dispatched : (syscalls : ℕ → Cmd ℕ) (p num : ℕ) → Cmd (Unit {0})
dispatched syscalls p num = chosen (invalid num) syscalls p num

pub settled-IsFree : (lk : ℕ) (s : Kernel) → IsFree lk s → IsFree lk (settled s)
unfolding settled
settled-IsFree lk s free = free
