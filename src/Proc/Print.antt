-- ===== src/Proc/Print.antt =====
-- The debug printers of kernel/proc.c.
use wl_00_rv.Prelude.{ℕ, zero, suc, ◌+◌, [], ◌∷◌, codes}
use wl_00_rv.Text.{word}
use wl_00_rv.Machine.{Proc, ok, Cmd, ◌>>◌}
use wl_00_rv.Kprint.{printf}
use wl_00_rv.Proc.Slots.{nproc, state_code}

unfoldable pub print_proc : Proc → Cmd (Unit {0})
print_proc p =
    printf (codes "Process PID: %d\n") (word p.pid ∷ [])
    >> printf (codes "State: %d\n") (word (state_code p.state) ∷ [])
    >> printf (codes "Kernel Stack: %p\n") (word p.kstack ∷ [])
    >> printf (codes "Page Table: %p\n") (word p.pt ∷ [])

print_slots : (rounds i : ℕ) → Cmd (Unit {0})
print_slots zero i s = ok tt s
print_slots (suc n) i s =
    ((λ t. printf (codes "%d sp %p\n") (word i ∷ word (t.proctable i).kstack ∷ []) t)
        >> print_slots n (i + 1))
      s

unfoldable pub print_proctable : Cmd (Unit {0})
unfolding print_slots
print_proctable = print_slots nproc 0
