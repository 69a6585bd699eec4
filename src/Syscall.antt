-- ===== src/Syscall.antt =====
-- kernel/syscall.c and kernel/sysnum.h: the arguments of a system call, its dispatch, and the calls
-- but for exec, which Syscall/Exec has. The trapframe stands in RAM at p->tf.
pub mod Dispatch
pub mod Elapsed
pub mod Exec
use wl_00_rv.Prelude.{
  ℕ, zero, suc, ◌+◌, ◌-◌, ◌^◌, Bool, true, false, ltb, leb, ◌||◌, ◌==◌, ◌!=◌, if◌then◌else◌, add32,
  sub32, Option, none, some, List, [], ◌∷◌, ◌++◌, codes, get_or, min,
}
use wl_00_rv.Text.{word, str, text_of}
use wl_00_rv.Ram.{bytes}
use wl_00_rv.Machine.{Kernel, Run, ok, undefined, Cmd, pure, ◌>>=◌, ◌>>◌, modify, update}
use wl_00_rv.Spinlock.{lock, unlock, tickslock}
use wl_00_rv.Kprint.{printf, error}
use wl_00_rv.Vm.Defs.{load, store, minus_one}
use wl_00_rv.Vm.Copy.{copyin}
use wl_00_rv.Proc.Slots.{deref, myproc, negative}
use wl_00_rv.Proc.Switch.{sleep, ticks_chan}
use wl_00_rv.Proc.Fork.{tf_reg, fork}
use wl_00_rv.Proc.Exit.{wait, kexit}

-- A register of the trapframe of the process `p`.
abbrev pub reg : (p i : ℕ) → Kernel → ℕ
reg p i s = load ((s.proctable p).tf + tf_reg i) s

abbrev pub set_reg : (p i v : ℕ) → Kernel → Kernel
set_reg p i v s = store ((s.proctable p).tf + tf_reg i) v s

-- argaddr and argint are argraw.
unfoldable pub argraw : (n : ℕ) → Cmd ℕ
argraw n = myproc >>= λ me.
    if ltb n 6
    then deref me (λ p s. ok (reg p (10 + n) s) s)
    else error (codes "argraw") >> pure minus_one

-- sys_open, sys_read, sys_brk and sys_kill
abbrev pub unimplemented : Cmd ℕ
unimplemented = pure minus_one

-- One pass of the loop of sys_write: true if the chunk was copied. `kbuf` is the address of the local
-- array.
write_chunk : (kbuf from size : ℕ) → Cmd Bool
unfolding bytes text_of
write_chunk kbuf from size = myproc >>= λ me. deref me λ p s.
    (copyin (s.proctable p).pt kbuf from size >>= λ result.
    if result == minus_one
    then printf (codes "sys_write: fault at %p\n") (word from ∷ []) >> pure false
    else modify (λ t. record t { ram = update t.ram (kbuf + size) 0 })
      >> (λ t. printf (codes "%s") (str (text_of (bytes (size + 1) kbuf t.ram)) ∷ []) t)
      >> pure true)
      s

-- The while loop of sys_write, on fuel: each round writes at least one byte.
write_loop : (fuel kbuf p_buf n wrote : ℕ) → Cmd ℕ
unfolding write_chunk
write_loop zero kbuf p_buf n wrote s = undefined
write_loop (suc fuel) kbuf p_buf n wrote s =
    let size = min (n - wrote) 127 in
    let rest =
      (write_chunk kbuf (add32 p_buf wrote) size >>= λ copied.
      if copied then write_loop fuel kbuf p_buf n (wrote + size) else pure minus_one)
        s in
    if ltb wrote n then rest else ok n s

unfoldable pub sys_write : (kbuf : ℕ) → Cmd ℕ
unfolding write_loop
sys_write kbuf = argraw 0 >>= λ fd. argraw 1 >>= λ p_buf. argraw 2 >>= λ n.
    if fd != 1
    then pure minus_one
    else if negative n || ltb 1024 n
    then pure minus_one
    else write_loop (suc n) kbuf p_buf n 0

-- The test of the while loop of sys_sleep: the sleep is not over.
unfoldable pub still_asleep : (start ticks n : ℕ) → Bool
still_asleep start ticks n = ltb (sub32 ticks start) n

-- The while loop of sys_sleep, for `rounds` sleeps at most: `none` while it still sleeps. `resume` is
-- what the process finds behind each of its sleeps.
sleep_loop : (rounds : ℕ) (resume : ℕ → Kernel → Kernel) (start n : ℕ) → Cmd (Option ℕ)
unfolding still_asleep
sleep_loop zero resume start n s = ok none s
sleep_loop (suc rounds) resume start n s =
    let rest = (sleep (resume rounds) ticks_chan tickslock >> sleep_loop rounds resume start n) s in
    if still_asleep start s.ticks n then rest else (unlock tickslock >> pure (some 0)) s

unfoldable pub sys_sleep : (rounds : ℕ) (resume : ℕ → Kernel → Kernel) → Cmd (Option ℕ)
unfolding sleep_loop
sys_sleep rounds resume = argraw 0 >>= λ n.
    if negative n
    then pure (some minus_one)
    else lock tickslock >> λ s. sleep_loop rounds resume s.ticks n s

unfoldable pub sys_getpid : Cmd ℕ
sys_getpid = myproc >>= λ me. deref me λ p s. ok (s.proctable p).pid s

-- sys_exit does not return.
unfoldable pub sys_exit : (resume : Kernel → Kernel) → Cmd (Unit {0})
sys_exit resume = argraw 0 >>= kexit resume

unfoldable pub sys_wait : (rounds : ℕ) (resume : ℕ → Kernel → Kernel) (buf : ℕ) → Cmd (Option ℕ)
sys_wait rounds resume buf = argraw 0 >>= wait rounds resume buf

unfoldable pub sys_fork : (trampoline forkret : ℕ) → Cmd ℕ
sys_fork trampoline forkret = fork trampoline forkret

-- NSYSCALLS
abbrev pub nsyscalls : ℕ
nsyscalls = 12

-- The test of syscall(); `syscalls` has an entry for each number, `none` for 0.
unfoldable pub invalid : (num : ℕ) → Bool
invalid num = negative num || (num == 0) || leb nsyscalls num

-- syscall() of the process `p`, with the table of the calls.
dispatch : (syscalls : ℕ → Cmd ℕ) (p : ℕ) → Cmd (Unit {0})
unfolding invalid
dispatch syscalls p s =
    let num = reg p 17 s in
    (if invalid num
        then printf (codes "Error: Invalid syscall %d\n") (word num ∷ [])
          >> modify (set_reg p 10 minus_one)
        else syscalls num >>= λ result. modify (set_reg p 10 result))
      s

unfoldable pub syscall : (syscalls : ℕ → Cmd ℕ) → Cmd (Unit {0})
unfolding dispatch
syscall syscalls = myproc >>= λ me. deref me (dispatch syscalls)
