-- ===== src/Vm/Tables.antt =====
-- The specification of a two-level page table in RAM: the entry of an address, and what makes a
-- table well formed.
use wl_00_rv.Prelude.{
  ℕ, ◌+◌, ◌*◌, ◌-◌, ◌/◌, ◌%◌, ◌≡◌, ◌≢◌, ◌≤◌, ◌<◌, ◌⊎◌, arith, false, ◌==◌, if◌then◌else◌,
}
use wl_00_rv.Prelude.Bits.{bit_and-one}
use wl_00_rv.Machine.{Kernel, ok}
use wl_00_rv.Spinlock.{mem_lock, print_lock}
use wl_00_rv.Spinlock.Critical.{IsSteady, IsFree}
use wl_00_rv.Ram.{load_word}
use wl_00_rv.Ram.Words.{load_word-ext, load_word-zero}
use wl_00_rv.Mem.{page_size, mem_start, mem_end, memset}
use wl_00_rv.Mem.Bytes.{memset-within}
use wl_00_rv.Mem.Pages.{page_addr}
use wl_00_rv.Vm.Defs.{pte2pa, vpn1, vpn0, find_pte}
use wl_00_rv.Vm.Entry.{vpn1_lem, vpn0_lem}

-- The upper entry with index `i`, and the second-level table that it points to.
abbrev pub upper : (ℕ → ℕ) → (pt i : ℕ) → ℕ
upper ram pt i = load_word ram (pt + 4 * i)

abbrev pub second : (ℕ → ℕ) → (pt i : ℕ) → ℕ
second ram pt i = pte2pa (upper ram pt i)

abbrev pub HasTable : (ℕ → ℕ) → (pt i : ℕ) → Type 0
HasTable ram pt i = upper ram pt i % 2 ≡ 1

-- The address of the leaf entry of `va`, and the entry; 0 where there is no second-level table.
unfoldable pub slot : (ℕ → ℕ) → (pt va : ℕ) → ℕ
slot ram pt va =
    if upper ram pt (vpn1 va) % 2 == 1 then second ram pt (vpn1 va) + 4 * vpn0 va else 0

unfoldable pub entry : (ℕ → ℕ) → (pt va : ℕ) → ℕ
entry ram pt va =
    if upper ram pt (vpn1 va) % 2 == 1
    then load_word ram (second ram pt (vpn1 va) + 4 * vpn0 va)
    else 0

-- A page of RAM that the allocator has handed out.
pub record InUse (s : Kernel) (a : ℕ) : Type 0 where
  pub aligned : a % page_size ≡ 0
  pub low : mem_start ≤ a
  pub high : a < mem_end
  pub taken : s.mem_bitmap ((a - mem_start) / page_size) ≡ 0

-- The root and the second-level tables are pages in use, all of them different.
pub record IsPagetable (s : Kernel) (pt : ℕ) : Type 0 where
  pub root : InUse s pt
  pub tables : (i : ℕ) → i < 1024 → HasTable s.ram pt i → InUse s (second s.ram pt i)
  pub apart : (i : ℕ) → i < 1024 → HasTable s.ram pt i → second s.ram pt i ≢ pt
  pub distinct :
      (i j : ℕ)
      → i < 1024
      → j < 1024
      → HasTable s.ram pt i
      → HasTable s.ram pt j
      → second s.ram pt i ≡ second s.ram pt j
      → i ≡ j

-- A byte outside every page of the table.
pub record IsOutside (s : Kernel) (pt a : ℕ) : Type 0 where
  pub root : (a < pt) ⊎ (pt + page_size ≤ a)
  pub tables :
      (i : ℕ)
      → i < 1024
      → HasTable s.ram pt i
      → (a < second s.ram pt i) ⊎ (second s.ram pt i + page_size ≤ a)

-- What a kernel function that allocates and reports errors needs of its hart.
pub record IsReady (s : Kernel) : Type 0 where
  pub steady : IsSteady s
  pub memory : IsFree mem_lock s
  pub console : IsFree print_lock s
  pub calm : s.hang ≡ false

pub vpn1-lt : (va : ℕ) → vpn1 va < 1024
vpn1-lt va = omega (arith, vpn1_lem va)

pub vpn0-lt : (va : ℕ) → vpn0 va < 1024
vpn0-lt va = omega (arith, vpn0_lem va)

-- Different pages do not overlap.
pub pages_apart :
    (a b : ℕ)
    → a % page_size ≡ 0
    → b % page_size ≡ 0
    → a ≢ b
    → (a + page_size ≤ b) ⊎ (b + page_size ≤ a)
pages_apart a b ha hb ne = omega arith

-- A page in use is not the page `k` if that one is free.
pub InUse-ne_free : (s : Kernel) (a k : ℕ) → InUse s a → s.mem_bitmap k ≢ 0 → a ≢ page_addr k
InUse-ne_free s a k used avail e =
    let index : (a - mem_start) / page_size ≡ k = omega arith in avail (rw index at used.taken)

pub load-memset_outside :
    (ram : ℕ → ℕ) (p a : ℕ)
    → (a + 4 ≤ p) ⊎ (p + page_size ≤ a)
    → load_word (memset p 0 page_size ram) a ≡ load_word ram a
load-memset_outside ram p a apart =
    load_word-ext (memset p 0 page_size ram) ram a
      λ c lo hi. ground (arith, memset-within p 0 page_size ram c)

pub load-memset_inside :
    (ram : ℕ → ℕ) (p a : ℕ)
    → p ≤ a
    → a + 4 ≤ p + page_size
    → load_word (memset p 0 page_size ram) a ≡ 0
load-memset_inside ram p a lo hi =
    load_word-zero (memset p 0 page_size ram) a
      λ c l h. ground (arith, memset-within p 0 page_size ram c)

-- find_pte that may not allocate answers the address of the leaf entry, and changes nothing.
pub find_pte-slot : (pt va : ℕ) (s : Kernel) → find_pte pt va false s ≡ ok (slot s.ram pt va) s
unfolding find_pte slot
find_pte-slot pt va s = ground (arith, bit_and-one (upper s.ram pt (vpn1 va)))
