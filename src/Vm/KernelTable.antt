-- ===== src/Vm/KernelTable.antt =====
-- init_kptable and kptable_make of kernel/vm.c, with the address of the linker's _etext as an
-- argument, and va2pa.
use wl_00_rv.Prelude.{ℕ, ◌+◌, ◌*◌, bit_or, sub32, codes, [], ◌∷◌}
use wl_00_rv.Text.{word}
use wl_00_rv.Machine.{Cmd, pure, ◌>>=◌, ◌>>◌, modify}
use wl_00_rv.Kprint.{printf}
use wl_00_rv.Mem.{page_size, mem_end, memset, kalloc, pg_round_up}
use wl_00_rv.Vm.Defs.{pte_r, pte_w, pte_x, pte2pa, vpn1, vpn0, load, mappages}

abbrev pub kernbase : ℕ
kernbase = 0x8000_0000

abbrev pub uart_0 : ℕ
uart_0 = 0x1000_0000

-- The results of kalloc and mappages are not looked at.
unfoldable pub kptable_make : (etext : ℕ) → Cmd ℕ
kptable_make etext =
    let etext_aligned = pg_round_up etext in
    kalloc >>= λ kpt.
    modify (λ s. record s { ram = memset kpt 0 page_size s.ram })
    >> mappages kpt uart_0 uart_0 page_size (bit_or pte_r pte_w)
    >> mappages kpt kernbase kernbase (sub32 etext_aligned kernbase) (bit_or pte_r pte_x)
    >> mappages kpt etext_aligned etext_aligned (sub32 mem_end etext_aligned) (bit_or pte_r pte_w)
    >> pure kpt

unfoldable pub init_kptable : (etext : ℕ) → Cmd (Unit {0})
unfolding kptable_make
init_kptable etext = kptable_make etext >>= λ kpt. modify λ s. record s { kptable = kpt }

-- The debug print of a translation.
unfoldable pub va2pa : (pt va : ℕ) → Cmd (Unit {0})
unfolding vpn1 vpn0 pte2pa
va2pa pt va s =
    let table = pte2pa (load (pt + 4 * vpn1 va) s) in
    printf (codes "mapping of va %p to pa %p\n")
      (word va ∷ word (pte2pa (load (table + 4 * vpn0 va) s)) ∷ []) s
