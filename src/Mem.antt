-- ===== src/Mem.antt =====
-- kernel/mem.c: the bitmap allocator of physical pages, and the byte helpers. The linker symbol
-- `end` is an argument of init_bitmap. Pointers are addresses; none of the sums of a pointer and a
-- length wraps, which C leaves undefined.
pub mod Bytes
pub mod Pages
pub mod Alloc
pub mod Free
pub mod Init
pub mod Pool
pub mod Print
use wl_00_rv.Prelude.{
  ℕ, zero, suc, ◌+◌, ◌-◌, ◌*◌, ◌/◌, ◌%◌, ◌^◌, ◌&&◌, ◌||◌, Option, none, some, ltb, leb, ◌==◌, ◌!=◌,
  if◌then◌else◌, bit_and, u8, u32, add32, sub32,
}
use wl_00_rv.Machine.{Kernel, Run, ok, undefined, Cmd, pure, ◌>>=◌, ◌>>◌, modify, update, panic}
use wl_00_rv.Spinlock.{mem_lock, init_lock, lock, unlock}

abbrev pub mem_start : ℕ
mem_start = 0x8000_0000

abbrev pub mem_end : ℕ
mem_end = 0x8800_0000

abbrev pub page_size : ℕ
page_size = 4096

abbrev pub num_pages : ℕ
num_pages = (mem_end - mem_start) / page_size

-- PGROUNDUP and PGROUNDDOWN of a uintptr_t
unfoldable pub pg_round_down : ℕ → ℕ
pg_round_down a = bit_and a 0xffff_f000

unfoldable pub pg_round_up : ℕ → ℕ
unfolding pg_round_down
pg_round_up sz = pg_round_down (add32 sz (page_size - 1))

-- The int result -1 is its 32-bit pattern. A difference of pointers is signed: from 2 ^ 31 on it is
-- negative, and so is its quotient.
unfoldable pub page_idx : ℕ → ℕ
unfolding pg_round_down
page_idx pa =
    let diff = sub32 (pg_round_down pa) mem_start in
    if leb (2 ^ 31) diff then 0xffff_ffff else diff / page_size

unfoldable pub page_empty : ℕ → Kernel → ℕ
page_empty i s = s.mem_bitmap i

-- The loop of memset, by the rounds left.
memset_loop : (rounds curr value : ℕ) → (ℕ → ℕ) → ℕ → ℕ
memset_loop zero curr value ram = ram
memset_loop (suc n) curr value ram = memset_loop n (curr + 1) value (update ram curr (u8 value))

unfoldable pub memset : (ptr value num : ℕ) → (ℕ → ℕ) → ℕ → ℕ
unfolding memset_loop
memset ptr value num = memset_loop num ptr value

-- while (n-- > 0) *--d = *--s
copy_down : (n d s : ℕ) → (ℕ → ℕ) → ℕ → ℕ
copy_down zero d s ram = ram
copy_down (suc n) d s ram = copy_down n (d - 1) (s - 1) (update ram (d - 1) (ram (s - 1)))

-- while (n-- > 0) *d++ = *s++
copy_up : (n d s : ℕ) → (ℕ → ℕ) → ℕ → ℕ
copy_up zero d s ram = ram
copy_up (suc n) d s ram = copy_up n (d + 1) (s + 1) (update ram d (ram s))

unfoldable pub memmove : (dst src n : ℕ) → (ℕ → ℕ) → ℕ → ℕ
unfolding copy_down copy_up
memmove dst src n ram =
    if n == 0
    then ram
    else if ltb src dst && ltb dst (src + n)
    then copy_down n (dst + n) (src + n) ram
    else copy_up n dst src ram

unfoldable pub memcpy : (dst src n : ℕ) → (ℕ → ℕ) → ℕ → ℕ
unfolding memmove
memcpy dst src n = memmove dst src n

-- mem_bitmap[i] = v
abbrev pub set_page : ℕ → ℕ → Kernel → Kernel
set_page i v s = record s { mem_bitmap = update s.mem_bitmap i v }

-- The critical section of kfree, behind lock(&mem_lock).
publish : ℕ → Cmd (Unit {0})
publish i s =
    if s.mem_bitmap i != 0
    then (unlock mem_lock >> panic "kfree: double free") s
    else (modify (set_page i 1) >> unlock mem_lock) s

unfoldable pub kfree : ℕ → Cmd (Unit {0})
unfolding page_idx memset publish
kfree pa s =
    if pa % page_size != 0
    then panic "kfree: address not page aligned" s
    else if ltb pa s.start_page || leb mem_end pa
    then panic "kfree: address outside the allocatable range" s
    else (lock mem_lock >> publish (page_idx pa)) (record s { ram = memset pa 0 page_size s.ram })

-- The for loop of kalloc, by the rounds left: the first page from `i` on that is free.
unfoldable pub scan : (rounds i : ℕ) → (ℕ → ℕ) → Option ℕ
scan zero i bitmap = none
scan (suc n) i bitmap = let rest = scan n (i + 1) bitmap in if bitmap i != 0 then some i else rest

-- Behind the loop: claim the page that was found and return its address, or NULL.
claim : Option ℕ → Cmd ℕ
claim none = unlock mem_lock >> pure 0
claim (some i) = do modify (set_page i 0); unlock mem_lock; pure (u32 (mem_start + i * page_size))

unfoldable pub kalloc : Cmd ℕ
unfolding claim
kalloc = lock mem_lock >> λ s. claim (scan num_pages 0 s.mem_bitmap) s

-- The while loop of kfree_range, on fuel.
kfree_loop : (fuel curr end : ℕ) → Cmd (Unit {0})
kfree_loop zero curr end s = undefined
kfree_loop (suc fuel) curr end s =
    let rest = (kfree curr >> kfree_loop fuel (curr + page_size) end) s in
    if ltb curr end then rest else ok tt s

-- One round for each page of the address space, and one to leave the loop.
unfoldable pub kfree_range : (start_pa end_pa : ℕ) → Cmd (Unit {0})
unfolding kfree_loop pg_round_up
kfree_range start_pa end_pa =
    let curr = pg_round_up start_pa in
    let end = pg_round_down end_pa in kfree_loop (suc ((end - curr) / page_size)) curr end

-- for (i = 0; i < n; i++) mem_bitmap[i] = 0
occupy : ℕ → (ℕ → ℕ) → ℕ → ℕ
occupy zero bitmap = bitmap
occupy (suc n) bitmap = update (occupy n bitmap) n 0

-- The for loop of init_bitmap; page_idx is an int, and the loop makes no round if it is negative.
unfoldable pub occupy_below : (idx : ℕ) → (ℕ → ℕ) → ℕ → ℕ
unfolding occupy
occupy_below idx bitmap = if leb (2 ^ 31) idx then bitmap else occupy idx bitmap

unfoldable pub init_bitmap : (end : ℕ) → Cmd (Unit {0})
unfolding occupy_below kfree_range
init_bitmap end s =
    let start = pg_round_up end in
    let t = record (init_lock mem_lock "mem" s) { start_page = start } in
    kfree_range start mem_end (record t { mem_bitmap = occupy_below (page_idx start) t.mem_bitmap })
