-- ===== src/Vm/Entry.antt =====
-- The fields of a page table entry, and the indices of an address.
use wl_00_rv.Prelude.{ℕ, ◌+◌, ◌*◌, ◌/◌, ◌%◌, ◌^◌, ◌≡◌, ap, bit_and, ◌<◌, ◌∙◌, arith, bit_or}
use wl_00_rv.Prelude.Bits.{bit_and-one, bit_and-ones, bit_or-one, bit_or-shifted}
use wl_00_rv.Machine.{Kernel}
use wl_00_rv.Mem.{page_size}
use wl_00_rv.Vm.Defs.{
  pte_v, pte2pa, pa2pte, pte_flags, vpn1, vpn0, make_satp, set_satp, paging_status,
}

pub vpn1_lem : (va : ℕ) → vpn1 va ≡ va / 2 ^ 22 % 1024
unfolding vpn1
vpn1_lem va = bit_and-ones 10 (va / 2 ^ 22)

pub vpn0_lem : (va : ℕ) → vpn0 va ≡ va / 2 ^ 12 % 1024
unfolding vpn0
vpn0_lem va = bit_and-ones 10 (va / 2 ^ 12)

-- `| flags | PTE_V` on an address that is in place.
abbrev pub leaf : (pa flags : ℕ) → ℕ
leaf pa flags = bit_or (bit_or (pa2pte pa) flags) pte_v

pub leaf_lem :
    (pa flags : ℕ)
    → pa < 2 ^ 32
    → flags < 1024
    → leaf pa flags ≡ pa / 2 ^ 12 * 2 ^ 10 + flags / 2 * 2 + 1
unfolding pa2pte
leaf_lem pa flags hp hf =
    let place : pa / 2 ^ 12 * 2 ^ 10 % 2 ^ 32 ≡ pa / 2 ^ 12 * 2 ^ 10 = omega arith in
    rw (place, bit_or-shifted 10 (pa / 2 ^ 12) flags hf)
      (bit_or-one (pa / 2 ^ 12 * 2 ^ 10 + flags) ∙ omega arith)

-- The entry that mappage writes is valid, and holds the page's address and the flags.
pub leaf_fields :
    (pa flags : ℕ)
    → pa < 2 ^ 32
    → pa % page_size ≡ 0
    → flags < 1024
    → (leaf pa flags < 2 ^ 32)
      × (leaf pa flags % 2 ≡ 1)
      × (pte2pa (leaf pa flags) ≡ pa)
      × (pte_flags (leaf pa flags) ≡ bit_or flags pte_v)
unfolding pte2pa pte_flags
leaf_fields pa flags hp aligned hf =
    let e = leaf_lem pa flags hp hf in
    (
      omega arith,
      omega arith,
      omega arith,
      bit_and-ones 10 (leaf pa flags) ∙ omega (arith, bit_or-one flags),
    )

-- The entry that find_pte writes for a new second-level table.
abbrev pub branch : ℕ → ℕ
branch pa = bit_or (pa2pte pa) pte_v

pub branch_fields :
    (pa : ℕ)
    → pa < 2 ^ 32
    → pa % page_size ≡ 0
    → (branch pa < 2 ^ 32) × (branch pa % 2 ≡ 1) × (pte2pa (branch pa) ≡ pa)
unfolding pte2pa pa2pte
branch_fields pa hp aligned =
    let e = bit_or-one (pa / 2 ^ 12 * 2 ^ 10 % 2 ^ 32) in (omega arith, omega arith, omega arith)

-- satp for a root page below 4 GB: translation is on, and the page number is that of the root.
pub set_satp_fields :
    (pt : ℕ) (s : Kernel)
    → pt < 2 ^ 32
    → pt % page_size ≡ 0
    → ((set_satp pt s).satp < 2 ^ 32)
      × (paging_status (set_satp pt s) ≡ 1)
      × ((set_satp pt s).satp % 2 ^ 22 * page_size ≡ pt)
unfolding set_satp paging_status make_satp
set_satp_fields pt s h aligned =
    let ppn : bit_and (pt / 2 ^ 12) 0x3f_ffff ≡ pt / 2 ^ 12 =
      bit_and-ones 22 (pt / 2 ^ 12) ∙ omega arith in
    let e : make_satp pt ≡ 2 ^ 31 + pt / 2 ^ 12 =
      ap (bit_or (2 ^ 31)) ppn ∙ bit_or-shifted 31 1 (pt / 2 ^ 12) (omega arith) in
    (omega arith, bit_and-one (make_satp pt / 2 ^ 31) ∙ omega arith, omega arith)
