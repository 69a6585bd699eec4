-- ===== src/Vm.antt =====
-- kernel/vm.c and kernel/vm.h: Sv32 page tables in RAM. A page table is the address of its root
-- page, an entry the address of its word, NULL is 0. A result of -1 is its 32-bit pattern.
pub mod Defs
pub mod Copy
pub mod Unmap
pub mod KernelTable
pub mod Entry
pub mod Tables
pub mod Grow
pub mod Extends
pub mod Find
pub mod Leaf
pub mod Map
pub mod Range
pub mod Owned
pub mod Drop
pub mod Uvmunmap
pub mod Rest
pub mod Freed
pub mod Freewalk
pub mod Uvmfree
pub mod Space
pub mod Apart
pub mod Mappages
pub mod Access
pub mod Untouched
pub mod Copyin
pub mod Copyout
pub mod Copyinstr
