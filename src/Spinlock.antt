-- ===== src/Spinlock.antt =====
-- kernel/spinlock.c, and the addresses of the kernel's locks. Fences order memory between harts
-- and have no effect on the one that runs.
pub mod Interrupts
pub mod Critical
pub mod Harts
use wl_00_rv.Prelude.{
  ℕ, ◌+◌, ◌-◌, Bool, true, false, ◌&&◌, Option, none, some, String, bit_and, ltb, ◌==◌, ◌!=◌,
  if◌then◌else◌,
}
use wl_00_rv.Machine.{
  Cpu, Spinlock, Kernel, Run, ok, spinning, Cmd, pure, ◌>>=◌, ◌>>◌, modify, update, sstatus_sie,
  is_interrupt, interrupt_on, interrupt_off, panic,
}

abbrev pub mem_lock : ℕ
mem_lock = 0

abbrev pub pid_lock : ℕ
pid_lock = 1

abbrev pub wait_lock : ℕ
wait_lock = 2

abbrev pub tickslock : ℕ
tickslock = 3

abbrev pub print_lock : ℕ
print_lock = 4

-- &proctable[i].lock
abbrev pub proc_lock : ℕ → ℕ
proc_lock i = 5 + i

-- cpus[r_tp()]
abbrev pub this_cpu : Kernel → Cpu
this_cpu s = s.cpus s.tp

abbrev pub set_cpu : Cpu → Kernel → Kernel
set_cpu c s = record s { cpus = update s.cpus s.tp c }

-- the write `*lk = l`
abbrev pub set_lock : ℕ → Spinlock → Kernel → Kernel
set_lock lk l s = record s { locks = update s.locks lk l }

unfoldable pub init_lock : ℕ → String → Kernel → Kernel
init_lock lk name = set_lock lk (record { lock = 0; cpu = none; name = name })

unfoldable pub push_off : Kernel → Kernel
unfolding interrupt_off
push_off s =
    let c = this_cpu s in
    let c' : Cpu =
      if c.depth == 0 then record c { intena = bit_and s.sstatus sstatus_sie } else c in
    set_cpu (record c' { depth = c'.depth + 1 }) (interrupt_off s)

unfoldable pub pop_off : Cmd (Unit {0})
unfolding is_interrupt interrupt_on
pop_off s =
    if is_interrupt s
    then panic "pop_off - interruptable" s
    else if ltb (this_cpu s).depth 1
    then panic "push_off depth less than 1" s
    else let t = set_cpu (record (this_cpu s) { depth = (this_cpu s).depth - 1 }) s in
      ok tt (if ((this_cpu t).depth == 0) && ((this_cpu t).intena != 0) then interrupt_on t else t)

same_cpu : Option ℕ → ℕ → Bool
same_cpu none id = false
same_cpu (some c) id = c == id

unfoldable pub holding : ℕ → Kernel → Bool
unfolding same_cpu
holding lk s = ((s.locks lk).lock != 0) && same_cpu (s.locks lk).cpu s.tp

-- atomic_swap(&lk->lock, 1) in a loop: with no other hart at work the first swap decides, and on a
-- lock that is taken the loop does not end.
acquire : ℕ → Cmd (Unit {0})
acquire lk s =
    let t = set_lock lk (record (s.locks lk) { lock = 1 }) s in
    if (s.locks lk).lock != 0 then spinning lk t else ok tt t

unfoldable pub lock : ℕ → Cmd (Unit {0})
unfolding holding acquire
lock lk s =
    let t = push_off s in
    if holding lk t
    then panic "trying to lock locked spinlock" t
    else (acquire lk >> modify (λ u. set_lock lk (record (u.locks lk) { cpu = some u.tp }) u)) t

unfoldable pub unlock : ℕ → Cmd (Unit {0})
unfolding holding
unlock lk s =
    if holding lk s
    then pop_off (set_lock lk (record (s.locks lk) { lock = 0; cpu = none }) s)
    else panic "trying to release unlocked spinlock" s
