-- ===== src/Tests/Images.antt =====
-- The checks of the ELF loader on concrete images.
use wl_00_rv.Prelude.{
  ◌-◌, ◌^◌, ◌⊎◌, ◌+◌, ◌%◌, ◌≡◌, ◌≤◌, refl, arith, false, true, none, some, codes, [], ◌∷◌, ◌++◌,
}
use wl_00_rv.Ram.{load_word}
use wl_00_rv.Prelude.{◌<◌, ◌*◌}
use wl_00_rv.Text.{strcmp}
use wl_00_rv.Machine.{ok}
use wl_00_rv.Mem.{page_size}
use wl_00_rv.Vm.Defs.{user_base, minus_one}
use wl_00_rv.Vm.KernelTable.{uart_0}
use wl_00_rv.Exec.Load.{
  place_refused, prg_hdr_size, PrgHdr, Program, segment_refused, find_program, load_elf,
}
use wl_00_rv.Exec.Bounds.{place_refused_lem, segment_refused_lem, load_elf_outcomes, IsExecutable}
use wl_00_rv.Tests.State.{machine}

abbrev text_segment : PrgHdr
text_segment = record {
  type = 1;
  offset = 0x1000;
  va = 0x1000;
  filesz = 0x234;
  memsz = 0x300;
  flags = 5;
}

passes : segment_refused text_segment user_base 0x2000 ≡ false
unfolding segment_refused
passes = refl

past_the_end : segment_refused text_segment user_base 0x1200 ≡ true
unfolding segment_refused
past_the_end = refl

abbrev hello : Program
hello = record { name = codes "hello" ++ (0 ∷ []); img = 0x8001_0000; len = 100 }

abbrev echo : Program
echo = record { name = codes "echo" ++ (0 ∷ []); img = 0x8002_0000; len = 200 }

finds : find_program (codes "echo" ++ (0 ∷ [])) (hello ∷ echo ∷ []) ≡ some (some echo)
unfolding find_program strcmp
finds = refl

segment_refused_lem_example :
    (segment_refused text_segment user_base 0x2000 ≡ false
      → (0x234 ≤ 0x300)
        × (0x1000 + 0x234 ≤ 0x2000)
        × (0x1000 % page_size ≡ 0)
        × (user_base ≤ 0x1000)
        × (0x1000 + 0x300 ≤ uart_0))
    × (0x234 ≤ 0x300
        → 0x1000 + 0x234 ≤ 0x2000
        → 0x1000 % page_size ≡ 0
        → user_base ≤ 0x1000
        → 0x1000 + 0x300 ≤ uart_0
        → segment_refused text_segment user_base 0x2000 ≡ false)
segment_refused_lem_example =
    segment_refused_lem text_segment user_base 0x2000
      (record { offset = omega arith; va = omega arith; filesz = omega arith; memsz = omega arith })
      (omega arith)

load_elf_outcomes_example :
    ((10 < 52) ⊎ (IsExecutable machine.ram 0x8001_0000 → ⊥)
      → load_elf 0x8000_0000 0x8001_0000 10 machine
        ≡ ok (record { result = minus_one; entry = none; sz = user_base }) machine)
    × (52 ≤ 10
        → IsExecutable machine.ram 0x8001_0000
        → machine.ram (0x8001_0000 + 44) + machine.ram (0x8001_0000 + 45) * 2 ^ 8 ≡ 0
        → load_elf 0x8000_0000 0x8001_0000 10 machine
          ≡ ok
              (record {
                result = 0;
                entry = some (load_word machine.ram (0x8001_0000 + 24));
                sz = user_base;
              })
              machine)
load_elf_outcomes_example = load_elf_outcomes 0x8000_0000 0x8001_0000 10 machine

-- A program header at the last 16 bytes of the address space, in an image of 4096 bytes.
place_refused_lem_example :
    (place_refused 0xffff_fff0 0xffff_fff0 4096 ≡ false
      → (0xffff_fff0 ≤ 0xffff_fff0)
        × ((0xffff_fff0 + prg_hdr_size ≤ 4096)
            ⊎ ((2 ^ 32 ≤ 0xffff_fff0 + prg_hdr_size)
                × (0xffff_fff0 + prg_hdr_size - 2 ^ 32 ≤ 4096))))
    × (0xffff_fff0 ≤ 0xffff_fff0
        → 0xffff_fff0 + prg_hdr_size ≤ 4096
        → place_refused 0xffff_fff0 0xffff_fff0 4096 ≡ false)
    × (0xffff_fff0 ≤ 0xffff_fff0
        → 2 ^ 32 ≤ 0xffff_fff0 + prg_hdr_size
        → 0xffff_fff0 + prg_hdr_size - 2 ^ 32 ≤ 4096
        → place_refused 0xffff_fff0 0xffff_fff0 4096 ≡ false)
place_refused_lem_example =
    place_refused_lem 0xffff_fff0 0xffff_fff0 4096 (omega arith) (omega arith)
