-- ===== src/Exec/Bounds.antt =====
-- What the checks of load_elf guarantee, and what they let pass.
use wl_00_rv.Prelude.{
  ℕ, ◌+◌, ◌-◌, ◌%◌, ◌^◌, ◌≡◌, ◌≤◌, ◌<◌, ◌⊎◌, inl, inr, false, ltb, arith, Bool-cases, none, some,
  refl, ◌*◌,
}
use wl_00_rv.Machine.{Kernel, ok}
use wl_00_rv.Ram.{load_word}
use wl_00_rv.Mem.{page_size, pg_round_up}
use wl_00_rv.Vm.Defs.{user_base, minus_one}
use wl_00_rv.Vm.KernelTable.{uart_0}
use wl_00_rv.Exec.Load.{
  PrgHdr, elf_hdr, elf_hdr_size, prg_hdr_size, header_refused, place_refused, segment_refused,
  load_elf,
}

-- The fields are 32-bit words.
pub record IsWide (prg : PrgHdr) : Type 0 where
  pub offset : prg.offset < 2 ^ 32
  pub va : prg.va < 2 ^ 32
  pub filesz : prg.filesz < 2 ^ 32
  pub memsz : prg.memsz < 2 ^ 32

-- A segment passes the checks of load_elf exactly if its file bytes lie inside the image and fit its
-- memory, and its memory starts on a page boundary behind the image so far and ends below the UART.
-- None of the sums wraps around.
pub segment_refused_lem :
    (prg : PrgHdr) (size len : ℕ)
    → IsWide prg
    → len < 2 ^ 32
    → (segment_refused prg size len ≡ false
        → (prg.filesz ≤ prg.memsz)
          × (prg.offset + prg.filesz ≤ len)
          × (prg.va % page_size ≡ 0)
          × (size ≤ prg.va)
          × (prg.va + prg.memsz ≤ uart_0))
      × (prg.filesz ≤ prg.memsz
          → prg.offset + prg.filesz ≤ len
          → prg.va % page_size ≡ 0
          → size ≤ prg.va
          → prg.va + prg.memsz ≤ uart_0
          → segment_refused prg size len ≡ false)
unfolding segment_refused
segment_refused_lem prg size len wide short =
    (λ passed. ground arith, λ fits inside aligned behind below. ground arith)

-- The check of the place of a program header passes exactly if the place is at or behind the start
-- of the table, and the header ends inside the image or its end wraps around to an address that is
-- small enough; in the second case the header lies outside the image.
pub place_refused_lem :
    (off phoff len : ℕ)
    → off < 2 ^ 32
    → len < 2 ^ 32
    → (place_refused off phoff len ≡ false
        → (phoff ≤ off)
          × ((off + prg_hdr_size ≤ len)
              ⊎ ((2 ^ 32 ≤ off + prg_hdr_size) × (off + prg_hdr_size - 2 ^ 32 ≤ len))))
      × (phoff ≤ off → off + prg_hdr_size ≤ len → place_refused off phoff len ≡ false)
      × (phoff ≤ off
          → 2 ^ 32 ≤ off + prg_hdr_size
          → off + prg_hdr_size - 2 ^ 32 ≤ len
          → place_refused off phoff len ≡ false)
unfolding place_refused
place_refused_lem off phoff len ho hl =
    (λ passed. ground arith, λ behind inside. ground arith, λ behind wraps small. ground arith)

-- The image starts with the header of a 32-bit ELF executable for RISC-V with program headers of 32
-- bytes, by its bytes.
pub record IsExecutable (ram : ℕ → ℕ) (img : ℕ) : Type 0 where
  pub magic : load_word ram img ≡ 0x464c_457f
  pub class : ram (img + 4) ≡ 1
  pub executable : ram (img + 16) + ram (img + 17) * 2 ^ 8 ≡ 2
  pub riscv : ram (img + 18) + ram (img + 19) * 2 ^ 8 ≡ 243
  pub headers : ram (img + 42) + ram (img + 43) * 2 ^ 8 ≡ 32

passed-IsExecutable :
    (ram : ℕ → ℕ) (img : ℕ) → header_refused (elf_hdr ram img) ≡ false → IsExecutable ram img
unfolding header_refused elf_hdr
passed-IsExecutable ram img passed = record {
  magic = ground arith;
  class = ground arith;
  executable = ground arith;
  riscv = ground arith;
  headers = ground arith;
}

IsExecutable-passed :
    (ram : ℕ → ℕ) (img : ℕ) → IsExecutable ram img → header_refused (elf_hdr ram img) ≡ false
unfolding header_refused elf_hdr
IsExecutable-passed ram img exe =
    ground (arith, exe.magic, exe.class, exe.executable, exe.riscv, exe.headers)

-- load_elf of an image that is too short for its header, or that does not start with the header of
-- an RV32 executable, is refused: nothing is mapped or written, and *sz is the start of user memory.
-- An executable without a program header is loaded: *sz is the start of user memory too, and the
-- entry is the one of the header.
pub load_elf_outcomes :
    (pt img len : ℕ) (s : Kernel)
    → ((len < 52) ⊎ (IsExecutable s.ram img → ⊥)
        → load_elf pt img len s
          ≡ ok (record { result = minus_one; entry = none; sz = user_base }) s)
      × (52 ≤ len
          → IsExecutable s.ram img
          → s.ram (img + 44) + s.ram (img + 45) * 2 ^ 8 ≡ 0
          → load_elf pt img len s
            ≡ ok
                (record { result = 0; entry = some (load_word s.ram (img + 24)); sz = user_base })
                s)
unfolding load_elf elf_hdr pg_round_up
load_elf_outcomes pt img len s = (
  λ bad. elim (Bool-cases (ltb len elf_hdr_size)) [
    | inl e ↦ rw e refl
    | inr e ↦ elim bad [
      | inl short ↦ absurd (ground arith)
      | inr wrong ↦ elim (Bool-cases (header_refused (elf_hdr s.ram img))) [
        | inl refused ↦ rw (e, refused) refl
        | inr passed ↦ absurd (wrong (passed-IsExecutable s.ram img passed))
      ]
    ]
  ],
  λ long exe none_left.
      let fits : ltb len elf_hdr_size ≡ false = ground arith in
      let count : s.ram (img + 44) + s.ram (img + 44 + 1) * 2 ^ 8 ≡ 0 = ground (arith, none_left) in
      rw (fits, IsExecutable-passed s.ram img exe, count) refl,
)
