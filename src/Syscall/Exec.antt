-- ===== src/Syscall/Exec.antt =====
-- sys_exec of kernel/syscall.c. The addresses of its local arrays path and of its local variable uarg
-- are arguments; argv is the list of what is written to it, less the NULL.
use wl_00_rv.Prelude.{
  ℕ, zero, suc, ◌+◌, ◌*◌, ◌-◌, ◌==◌, if◌then◌else◌, add32, Option, none, some, List, [], ◌∷◌,
}
use wl_00_rv.Text.{strlen}
use wl_00_rv.Machine.{undefined, Cmd, pure, ◌>>=◌, ◌>>◌}
use wl_00_rv.Ram.{bytes}
use wl_00_rv.Mem.{page_size, kalloc, kfree}
use wl_00_rv.Vm.Defs.{load, minus_one}
use wl_00_rv.Vm.Copy.{copyin, copyinstr}
use wl_00_rv.Proc.Slots.{deref, myproc, negative}
use wl_00_rv.Exec.Load.{Program}
use wl_00_rv.Exec.Kexec.{maxarg, kexec}
use wl_00_rv.Syscall.{argraw}

-- MAXPATH
abbrev pub maxpath : ℕ
maxpath = 32

-- The rest of a round, behind the copyin of uarg.
collect_one : (pt buf used uarg i : ℕ) → (ℕ → Cmd (Option (List ℕ))) → Cmd (Option (List ℕ))
collect_one pt buf used uarg i next =
    if uarg == 0
    then pure (some [])
    else if i == maxarg
    then pure none
    else (copyinstr pt (buf + used) uarg (page_size - used) >>= λ result.
        if negative result then pure none else λ s.
        elim (strlen (bytes (page_size - used) (buf + used) s.ram)) [
          | none ↦ undefined
          | some len ↦
              (next (used + (len + 1)) >>= λ rest.
              pure (elim rest [ none ↦ none | some more ↦ some ((buf + used) ∷ more) ]))
                s
        ])

-- The while loop of sys_exec, by the rounds left: the addresses of the strings, or `none` where it
-- goes to out. The round with i == MAXARG is the last.
collect_args : (rounds pt uarg_at buf uargv i used : ℕ) → Cmd (Option (List ℕ))
unfolding collect_one
collect_args zero pt uarg_at buf uargv i used s = undefined
collect_args (suc n) pt uarg_at buf uargv i used s =
    (copyin pt uarg_at (add32 uargv (4 * i)) 4 >>= λ result.
    if negative result then pure none else λ t.
    collect_one pt buf used (load uarg_at t) i
      (λ used. collect_args n pt uarg_at buf uargv (i + 1) used) t)
      s

-- Behind the kalloc of the buffer.
exec_strings :
    (path_at uarg_at ustack trampoline : ℕ) (programs : List Program) (pt uargv buf : ℕ) → Cmd ℕ
unfolding collect_args
exec_strings path_at uarg_at ustack trampoline programs pt uargv buf =
    (if uargv == 0 then pure (some []) else collect_args (suc maxarg) pt uarg_at buf uargv 0 0)
    >>= λ argv.
        (elim argv [
          | none ↦ pure minus_one
          | some strings ↦
              λ s. kexec ustack trampoline programs (bytes maxpath path_at s.ram) strings s
        ])
        >>= λ result. kfree buf >> pure result

unfoldable pub sys_exec : (path_at uarg_at ustack trampoline : ℕ) (programs : List Program) → Cmd ℕ
unfolding exec_strings
sys_exec path_at uarg_at ustack trampoline programs = myproc >>= λ me. argraw 0 >>= λ upath.
    deref me λ p s.
      (copyinstr (s.proctable p).pt path_at upath maxpath >>= λ result.
      if negative result
      then pure minus_one
      else (argraw 1 >>= λ uargv. kalloc >>= λ buf. if buf == 0 then pure minus_one else λ t.
          exec_strings path_at uarg_at ustack trampoline programs (t.proctable p).pt uargv buf t))
        s
