-- ===== src/Exec/Load.antt =====
-- find_program, load_elf and load_segment of kernel/exec.c.
use wl_00_rv.Prelude.{
  ℕ, zero, suc, ◌+◌, ◌*◌, ◌-◌, ◌%◌, ◌^◌, Bool, ◌||◌, ltb, ◌==◌, ◌!=◌, if◌then◌else◌, bit_and,
  bit_or, u32, add32, Option, none, some, List, [], ◌∷◌,
}
use wl_00_rv.Text.{strcmp}
use wl_00_rv.Machine.{ok, undefined, Cmd, pure, ◌>>=◌, ◌>>◌, modify}
use wl_00_rv.Ram.{load_word}
use wl_00_rv.Mem.{page_size, memmove, pg_round_up}
use wl_00_rv.Vm.Defs.{pte_w, pte_x, user_base, minus_one}
use wl_00_rv.Vm.Copy.{find_pa, chunk}
use wl_00_rv.Vm.Unmap.{uvmalloc}
use wl_00_rv.Vm.KernelTable.{uart_0}

-- struct program. The table is generated with the images.
pub record Program : Type 0 where
  pub name : List ℕ
  pub img : ℕ
  pub len : ℕ

-- The program called `name`, `some none` for the result -1; `none` where strcmp reads past the end
-- of a text.
unfoldable pub find_program : (name : List ℕ) → List Program → Option (Option Program)
find_program name [] = some none
find_program name (p ∷ programs) =
    let rest = find_program name programs in
    elim (strcmp name p.name) [
      | none ↦ none
      | some order ↦ if order == 0 then some (some p) else rest
    ]

-- A uint16_t in RAM.
abbrev load_half : (ℕ → ℕ) → ℕ → ℕ
load_half ram a = ram a + ram (a + 1) * 2 ^ 8

-- The fields of struct elf_hdr that load_elf reads.
pub record ElfHdr : Type 0 where
  pub magic : ℕ
  pub class : ℕ  -- e_ident[0]
  pub type : ℕ
  pub machine : ℕ
  pub entry : ℕ
  pub phoff : ℕ
  pub phentsize : ℕ
  pub phnum : ℕ

unfoldable pub elf_hdr : (ℕ → ℕ) → (img : ℕ) → ElfHdr
elf_hdr ram img = record {
  magic = load_word ram img;
  class = ram (img + 4);
  type = load_half ram (img + 16);
  machine = load_half ram (img + 18);
  entry = load_word ram (img + 24);
  phoff = load_word ram (img + 28);
  phentsize = load_half ram (img + 42);
  phnum = load_half ram (img + 44);
}

-- The fields of struct prg_hdr that load_elf reads.
pub record PrgHdr : Type 0 where
  pub type : ℕ
  pub offset : ℕ
  pub va : ℕ
  pub filesz : ℕ
  pub memsz : ℕ
  pub flags : ℕ

unfoldable pub prg_hdr : (ℕ → ℕ) → (at : ℕ) → PrgHdr
prg_hdr ram at = record {
  type = load_word ram at;
  offset = load_word ram (at + 4);
  va = load_word ram (at + 8);
  filesz = load_word ram (at + 16);
  memsz = load_word ram (at + 20);
  flags = load_word ram (at + 24);
}

abbrev pub elf_hdr_size : ℕ
elf_hdr_size = 52

abbrev pub prg_hdr_size : ℕ
prg_hdr_size = 32

-- The checks of the ELF header, less that of the length.
unfoldable pub header_refused : ElfHdr → Bool
header_refused elf =
    (elf.magic != 0x464c_457f)
    || (elf.class != 1)
    || (elf.type != 2)
    || (elf.machine != 243)
    || (elf.phentsize != prg_hdr_size)

-- The check of the place of a program header.
unfoldable pub place_refused : (off phoff len : ℕ) → Bool
place_refused off phoff len = ltb off phoff || ltb len (add32 off prg_hdr_size)

-- The checks of a segment to load, with `size` the end of the image so far.
unfoldable pub segment_refused : PrgHdr → (size len : ℕ) → Bool
segment_refused prg size len =
    ltb prg.memsz prg.filesz
    || (ltb (add32 prg.offset prg.filesz) prg.offset || ltb len (add32 prg.offset prg.filesz))
    || (prg.va % page_size != 0)
    || ltb prg.va size
    || (ltb (add32 prg.va prg.memsz) prg.va || ltb uart_0 (add32 prg.va prg.memsz))

unfoldable pub segment_perm : PrgHdr → ℕ
segment_perm prg =
    bit_or (if bit_and prg.flags 1 != 0 then pte_x else 0)
      (if bit_and prg.flags 2 != 0 then pte_w else 0)

-- The while loop of load_segment, on fuel: each round copies at least one byte.
segment_loop : (fuel pt va img sz : ℕ) → Cmd ℕ
segment_loop zero pt va img sz s = undefined
segment_loop (suc fuel) pt va img sz s =
    let rest =
      (find_pa pt va >>= λ pa.
      if pa == 0
      then pure minus_one
      else modify (λ t. record t { ram = memmove pa img (chunk pa sz) t.ram })
        >> segment_loop fuel pt (add32 va (chunk pa sz)) (img + chunk pa sz) (sz - chunk pa sz))
        s in
    if ltb 0 sz then rest else ok 0 s

unfoldable pub load_segment : (pt va img offset sz : ℕ) → Cmd ℕ
unfolding segment_loop
load_segment pt va img offset sz = segment_loop (suc sz) pt va (img + offset) sz

-- The result of load_elf: `entry` is none where *entry is not set, `sz` is *sz.
pub record Loaded : Type 0 where
  pub result : ℕ
  pub entry : Option ℕ
  pub sz : ℕ

abbrev failed : (sz : ℕ) → Cmd Loaded
failed sz = pure (record { result = minus_one; entry = none; sz = sz })

-- The rest of a pass over a segment that passed the checks, and `next` with the new size.
load_pages : (pt img : ℕ) → PrgHdr → (size sz : ℕ) → (ℕ → Cmd Loaded) → Cmd Loaded
load_pages pt img prg size sz next =
    uvmalloc pt size (add32 prg.va prg.memsz) (segment_perm prg) >>= λ newsz.
    if newsz == 0
    then failed sz
    else (load_segment pt prg.va img prg.offset prg.filesz >>= λ result.
        if result != 0 then failed (pg_round_up newsz) else next newsz)

-- The for loop of load_elf, by the program headers left. `size` and `sz` are the variables size and
-- *sz.
load_loop : (left i pt img len : ℕ) → ElfHdr → (size sz : ℕ) → Cmd Loaded
unfolding load_pages
load_loop zero i pt img len elf size sz s =
    ok (record { result = 0; entry = some elf.entry; sz = pg_round_up size }) s
load_loop (suc left) i pt img len elf size sz s =
    let off = u32 (elf.phoff + i * prg_hdr_size) in
    let prg = prg_hdr s.ram (img + off) in
    let skip = load_loop left (i + 1) pt img len elf size sz s in
    let load =
      load_pages pt img prg size sz
        (λ newsz. load_loop left (i + 1) pt img len elf newsz (pg_round_up newsz)) s in
    if place_refused off elf.phoff len
    then failed sz s
    else if prg.type != 1
    then skip
    else if prg.memsz == 0
    then skip
    else if segment_refused prg size len
    then failed sz s
    else load

unfoldable pub load_elf : (pt img len : ℕ) → Cmd Loaded
unfolding load_loop elf_hdr
load_elf pt img len s =
    let elf = elf_hdr s.ram img in
    if ltb len elf_hdr_size
    then failed user_base s
    else if header_refused elf
    then failed user_base s
    else load_loop elf.phnum 0 pt img len elf user_base user_base s
