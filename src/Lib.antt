-- ===== src/Lib.antt =====
-- wl-00_RV32, a small multi-core operating system for 32-bit RISC-V (kernel/ and user/ in the
-- repository), modelled over an explicit machine state.
--
-- Parts and files.
-- - Text (kernel/kprint.c): string length and order, numbers in a base, and the format language of
--   printf, as functions to the bytes that are sent. Text/Numbers and Text/Order hold the proofs.
-- - Machine (the structs of kernel/proc.h and kernel/spinlock.h, kernel/rv.c, panic of
--   kernel/kprint.c): the state that one hart sees, the record Kernel, and the outcome of a kernel
--   function, the data type Run: a result, a halted hart (panic), a hart that spins forever on a
--   lock that another holds, or undefined behaviour.
-- - Registers, Csr (kernel/csr.c, kernel/csr.h): the control and status registers, each holding
--   the word that was written last. Csr/Timer has the 64-bit clock and its comparator, Csr/Masks
--   the bits of sstatus as arithmetic. Gpr (kernel/gpr.c): the general registers by name. Uart
--   (kernel/uart.c): the serial port as the writes of its driver.
-- - Spinlock (kernel/spinlock.c): push_off, pop_off, holding, lock and unlock on one hart.
--   Spinlock/Critical has the laws of a critical section. Spinlock/Harts is the same code as a
--   step function over the shared fields of one lock, with the harts interleaved in any order;
--   Spinlock/Harts/Safety/Refine compares it with an atomic lock, Spinlock/Harts/Progress is about
--   its progress.
-- - Kprint (kernel/kprint.c): printf and error, which take print_lock.
-- - Mem (kernel/mem.c): the bitmap allocator and memset, memmove, memcpy. Mem/Pages has the laws
--   of page addresses, Mem/Alloc and Mem/Free those of kalloc and kfree, Mem/Init that of
--   init_bitmap, Mem/Pool a history of calls.
-- - Ram: a 32-bit word in RAM. Vm (kernel/vm.c): Sv32 page tables. Vm/Defs has find_pte, mappage
--   and mappages, Vm/Copy the copies from and to user memory, Vm/Unmap the release of user memory,
--   Vm/KernelTable the kernel's own table. Vm/Tables says what a well-formed table is and what it
--   translates; Vm/Entry, Vm/Grow, Vm/Extends, Vm/Find, Vm/Leaf, Vm/Map, Vm/Range and Vm/Mappages
--   prove the walk and the mapping of pages against it, Vm/Access, Vm/Untouched, Vm/Copyin,
--   Vm/Copyinstr and Vm/Copyout the copies, Vm/Owned, Vm/Drop and Vm/Uvmunmap the release of a
--   range, and Vm/Rest, Vm/Freed, Vm/Freewalk, Vm/Space, Vm/Uvmfree and Vm/Apart that of a whole
--   address space.
-- - Proc (kernel/proc.c): the process table. Proc/Slots has procalloc and releaseproc, Proc/Switch
--   the scheduler, sched, yield, sleep and wakeup, Proc/Fork fork and uvmcopy, Proc/Exit wait and
--   kexit, Proc/First the first process, Proc/Print the debug printers; Proc/Wakeup, Proc/Yield,
--   Proc/Sleep, Proc/Release and Proc/Wait (with Proc/Scan, the pass over the table) have the laws
--   of wakeup, yield, sleep, releaseproc and wait. Proc/Handshake is sleep and wakeup once more,
--   as steps of a process and of harts that interleave. What a context finds when swtch comes back
--   to it is an argument.
-- - Trap (kernel/trap.c): the clock interrupt. Trap/Handlers has the trap handlers and utrapret,
--   Trap/Return and Trap/Supervisor their laws. The clock that a handler reads is an argument.
-- - Boot (kernel/boot.c, kernel/main.c): boot up to its mret, and main up to the scheduler.
-- - Exec (kernel/exec.c, kernel/elf.h): Exec/Load has the ELF loader, Exec/Bounds what its checks
--   guarantee, Exec/Kexec kexec. The argument strings of kexec lie in one page of the kernel.
-- - Syscall (kernel/syscall.c, kernel/sysnum.h): the arguments, the dispatch and the calls;
--   Syscall/Exec has sys_exec. Syscall/Dispatch has the law of syscall(), Syscall/Elapsed that of
--   the clock of sys_sleep.
-- - User (user/ulib.c, user/printf.c, user/init.c, user/echo.c): User/Ulib has memset and memmove,
--   User/Printf printf as the bytes that it writes; User/Agree compares its numbers with the
--   kernel's; User/Programs has init and echo over the answers of the kernel to their calls.
-- - Tests: a concrete machine, runs of the code on it, and the theorems at concrete inputs.
-- - Prelude: shared names, Boolean tests, lists, and the laws of the bit masks.
--
-- How the state corresponds. The globals of the kernel are fields of Kernel under their own names.
-- Pointers to RAM are addresses, with RAM a byte at each address; pointers to locks, cpus and
-- processes are indices. A pointer to a string is the list of bytes from it on. Words are natural
-- numbers with the wrap-around of each operation written out; an int is its 32-bit pattern.
--
-- One hart at a time. A kernel function is run by one hart with no other at work, so a lock that
-- is taken stays taken, and interrupts do not arrive inside a function. Spinlock/Harts and
-- Proc/Handshake are about interleavings: there every access to the shared fields, or every step
-- between two lock operations, is a step of its own.
--
-- Bounds. The loops are recursions on the rounds that are left: the length of a buffer (32 and 34
-- bytes in print_uint and printint, 12 in that of user programs), the pages of RAM (32768 in
-- kalloc), the bytes to copy. The while loop of kfree_range has a round for each page of its range
-- and one to leave, since each round moves on by a page. The loops over pages of kernel/vm.c have
-- a round for each page and one to leave, its copy loops one for each byte and one to leave. The
-- loops of wait and sys_sleep have the number of sleeps as an argument, and no result while the
-- process still waits. Two rounds of r_time64 are enough while the clock carries into its high
-- half at most once. The scans of user/init.c go by the answers to wait.
--
-- Registers. sstatus and satp are fields of their own, as is tp; the other registers are a file
-- that holds what was written last. That sstatus is a part of mstatus, and which bits the hardware
-- keeps, is left out: only boot uses mstatus, before anything reads sstatus.
--
-- Not modelled: the assembly files, the wait of the other harts for hart 0 in main, and the wait
-- of uart_putc for its transmitter where a byte of the console is appended (Uart has it). Linker
-- symbols (end, _etext, _trampoline, forkret) are arguments.
pub mod Boot
pub mod Csr
pub mod Exec
pub mod Gpr
pub mod Kprint
pub mod Machine
pub mod Mem
pub mod Prelude
pub mod Proc
pub mod Ram
pub mod Registers
pub mod Spinlock
pub mod Syscall
pub mod Tests
pub mod Text
pub mod Trap
pub mod Uart
pub mod User
pub mod Vm
