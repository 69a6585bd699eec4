-- ===== src/Exec.antt =====
-- kernel/exec.c and kernel/elf.h: the embedded programs and their ELF images. The bytes of an image
-- stand in RAM from the address `img` on.
pub mod Load
pub mod Bounds
pub mod Kexec
