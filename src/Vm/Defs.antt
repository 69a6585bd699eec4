-- ===== src/Vm/Defs.antt =====
-- kernel/vm.h, and find_pte, mappage, mappages and the set-up of satp of kernel/vm.c.
use wl_00_rv.Prelude.{
  ℕ, zero, suc, ◌+◌, ◌*◌, ◌-◌, ◌/◌, ◌%◌, ◌^◌, Bool, true, ◌==◌, ◌!=◌, if◌then◌else◌, bit_and,
  bit_or, u32, add32, codes,
}
use wl_00_rv.Machine.{Kernel, ok, undefined, Cmd, pure, ◌>>=◌, ◌>>◌, modify, panic}
use wl_00_rv.Ram.{load_word, store_word}
use wl_00_rv.Mem.{page_size, memset, kalloc}
use wl_00_rv.Kprint.{error}

abbrev pub pte_v : ℕ
pte_v = 1

abbrev pub pte_r : ℕ
pte_r = 2

abbrev pub pte_w : ℕ
pte_w = 4

abbrev pub pte_x : ℕ
pte_x = 8

abbrev pub pte_u : ℕ
pte_u = 16

-- PTE2PA, PA2PTE and PTE_FLAGS
unfoldable pub pte2pa : ℕ → ℕ
pte2pa pte = u32 (pte / 2 ^ 10 * 2 ^ 12)

unfoldable pub pa2pte : ℕ → ℕ
pa2pte pa = u32 (pa / 2 ^ 12 * 2 ^ 10)

unfoldable pub pte_flags : ℕ → ℕ
pte_flags pte = bit_and pte 0x3ff

abbrev pub user_base : ℕ
user_base = 0x1000

-- TRAMPOLINE - 2 * PAGE_SIZE
abbrev pub user_stack_top : ℕ
user_stack_top = 0xffff_ffff - page_size + 1 - page_size - page_size

-- The index of a page table's entry for `va` at the upper and the lower level.
unfoldable pub vpn1 : ℕ → ℕ
vpn1 va = bit_and (va / 2 ^ 22) 0x3ff

unfoldable pub vpn0 : ℕ → ℕ
vpn0 va = bit_and (va / 2 ^ 12) 0x3ff

-- *pte, and *pte = v
abbrev pub load : ℕ → Kernel → ℕ
load p s = load_word s.ram p

abbrev pub store : (p v : ℕ) → Kernel → Kernel
store p v s = record s { ram = store_word s.ram p v }

abbrev pub minus_one : ℕ
minus_one = 0xffff_ffff

-- Behind the kalloc of find_pte: clear the new second-level table and link it.
unfoldable pub new_table : (pte1 va pt : ℕ) → Cmd ℕ
unfolding vpn0 pa2pte
new_table pte1 va pt =
    if pt == 0
    then error (codes "find_pte: NULL address") >> pure 0
    else modify (λ s. record s { ram = memset pt 0 page_size s.ram })
      >> (modify (store pte1 (bit_or (pa2pte pt) pte_v)) >> pure (pt + 4 * vpn0 va))

unfoldable pub find_pte : (pt va : ℕ) (alloc : Bool) → Cmd ℕ
unfolding vpn1 vpn0 pte2pa new_table
find_pte pt va alloc s =
    let pte1 = pt + 4 * vpn1 va in
    if bit_and (load pte1 s) pte_v != 0
    then ok (pte2pa (load pte1 s) + 4 * vpn0 va) s
    else if alloc
    then (kalloc >>= new_table pte1 va) s
    else ok 0 s

-- Behind the find_pte of mappage: write the leaf entry.
unfoldable pub set_leaf : (pa flags pte : ℕ) → Cmd ℕ
unfolding pa2pte
set_leaf pa flags pte s =
    if pte == 0
    then ok 0 s
    else if bit_and (load pte s) pte_v != 0
    then panic "mappage: remap of an already-mapped va" s
    else ok pte (store pte (bit_or (bit_or (pa2pte pa) flags) pte_v) s)

unfoldable pub mappage : (pt va pa flags : ℕ) → Cmd ℕ
unfolding set_leaf
mappage pt va pa flags s =
    if va % page_size != 0
    then panic "mappage: va not aligned" s
    else if pa % page_size != 0
    then panic "mappage: pa not aligned" s
    else (find_pte pt va true >>= set_leaf pa flags) s

-- The for loop of mappages, on fuel.
unfoldable pub map_loop : (fuel pt curr_va end pa flags : ℕ) → Cmd ℕ
map_loop zero pt curr_va end pa flags s = undefined
map_loop (suc fuel) pt curr_va end pa flags s =
    let rest =
      (mappage pt curr_va pa flags >>= λ pte.
      if pte == 0
      then error (codes "mappages: failed to map va to pa") >> pure minus_one
      else map_loop fuel pt (add32 curr_va page_size) end (add32 pa page_size) flags)
        s in
    if curr_va != end then rest else ok 0 s

-- One round for each page, and one to leave the loop.
unfoldable pub mappages : (pt va pa size flags : ℕ) → Cmd ℕ
unfolding map_loop
mappages pt va pa size flags =
    if va % page_size != 0
    then error (codes "mappages: va not aligned") >> pure minus_one
    else if pa % page_size != 0
    then error (codes "mappages: pa not aligned") >> pure minus_one
    else if size % page_size != 0
    then error (codes "mappages: size not aligned") >> pure minus_one
    else if size == 0
    then error (codes "mappages: size 0") >> pure minus_one
    else map_loop (suc (size / page_size)) pt va (add32 va size) pa flags

unfoldable pub ptcreate : Cmd ℕ
ptcreate = kalloc >>= λ pt.
    if pt == 0
    then pure 0
    else modify (λ s. record s { ram = memset pt 0 page_size s.ram }) >> pure pt

-- The satp value for a root page: mode 1 and its page number.
unfoldable pub make_satp : ℕ → ℕ
make_satp pa = bit_or (2 ^ 31) (bit_and (pa / 2 ^ 12) 0x3f_ffff)

unfoldable pub set_satp : ℕ → Kernel → Kernel
unfolding make_satp
set_satp pt s = record s { satp = make_satp pt }

unfoldable pub init_kvmhart : Kernel → Kernel
unfolding set_satp
init_kvmhart s = set_satp s.kptable s

unfoldable pub paging_status : Kernel → ℕ
paging_status s = bit_and (s.satp / 2 ^ 31) 1
