-- ===== src/Vm/Access.antt =====
-- find_user_pa of kernel/vm.c: which addresses a user process may read or write, and where they are.
use wl_00_rv.Prelude.{
  ℕ, ◌+◌, ◌*◌, ◌/◌, ◌%◌, ◌^◌, ◌≡◌, ◌≢◌, ◌<◌, ◌⊎◌, inl, inr, refl, ap, ◌∙◌, arith, false, ◌==◌, ◌&&◌,
  if◌then◌else◌, Bool, Bool-cases, bit_and, add32,
}
use wl_00_rv.Prelude.Bits.{bit_and_step, bit_and-one, bit_and-ones}
use wl_00_rv.Machine.{Kernel, ok, and_then}
use wl_00_rv.Mem.{page_size}
use wl_00_rv.Vm.Defs.{pte_r, pte_w, pte2pa, vpn1, vpn0}
use wl_00_rv.Vm.Copy.{user_mask, user_pa, find_user_pa}
use wl_00_rv.Vm.Tables.{upper, slot, entry, IsPagetable, IsOutside, find_pte-slot}
use wl_00_rv.Vm.Entry.{vpn1_lem, vpn0_lem}
use wl_00_rv.Vm.Untouched.{entry-untouched}
use wl_00_rv.Vm.Map.{slot-real, load-slot}

mask_17 : (x : ℕ) → bit_and x 17 ≡ x % 2 + x / 16 % 2 * 16
mask_17 x = omega (
  arith,
  bit_and_step x 17,
  bit_and_step (x / 2) 8,
  bit_and_step (x / 2 / 2) 4,
  bit_and_step (x / 2 / 2 / 2) 2,
  bit_and-one (x / 2 / 2 / 2 / 2),
)

mask_19 : (x : ℕ) → bit_and x 19 ≡ x % 2 + x / 2 % 2 * 2 + x / 16 % 2 * 16
mask_19 x = omega (
  arith,
  bit_and_step x 19,
  bit_and_step (x / 2) 9,
  bit_and_step (x / 2 / 2) 4,
  bit_and_step (x / 2 / 2 / 2) 2,
  bit_and-one (x / 2 / 2 / 2 / 2),
)

mask_21 : (x : ℕ) → bit_and x 21 ≡ x % 2 + x / 4 % 2 * 4 + x / 16 % 2 * 16
mask_21 x = omega (
  arith,
  bit_and_step x 21,
  bit_and_step (x / 2) 10,
  bit_and_step (x / 2 / 2) 5,
  bit_and_step (x / 2 / 2 / 2) 2,
  bit_and-one (x / 2 / 2 / 2 / 2),
)

-- The bit `n` of a page table entry.
abbrev pub bit : (pte n : ℕ) → Bool
bit pte n = pte / 2 ^ n % 2 == 1

-- The physical address of `va` by the entry `pte`, if the entry `grants` the access, else 0.
abbrev pub translated : (pte va : ℕ) (grants : Bool) → ℕ
translated pte va grants = if grants then add32 (pte2pa pte) (va % page_size) else 0

-- The physical address behind the user address `va` for an access that needs the bits of `need`.
unfoldable pub user_address : (ram : ℕ → ℕ) (pt va need : ℕ) → ℕ
user_address ram pt va need =
    let pte = entry ram pt va in translated pte va (bit_and pte (user_mask need) == user_mask need)

no_table :
    (ram : ℕ → ℕ) (pt va : ℕ)
    → (upper ram pt (vpn1 va) % 2 == 1) ≡ false
    → (slot ram pt va ≡ 0) × (entry ram pt va ≡ 0)
unfolding slot entry
no_table ram pt va none = rw none (refl, refl)

user_pa-slot :
    (need va : ℕ) (s : Kernel) (pt : ℕ)
    → IsPagetable s pt
    → bit_and 0 (user_mask need) ≢ user_mask need
    → user_pa va need (slot s.ram pt va) s ≡ ok (user_address s.ram pt va need) s
unfolding user_pa user_address
user_pa-slot need va s pt table mask = elim (Bool-cases (upper s.ram pt (vpn1 va) % 2 == 1)) [
  | inl has ↦
      let some_pte : (slot s.ram pt va == 0) ≡ false =
        ground (arith, slot-real s pt va table (ground arith)) in
      rw (some_pte, load-slot s pt va (ground arith), bit_and-ones 12 va)
        (elim (Bool-cases (bit_and (entry s.ram pt va) (user_mask need) == user_mask need)) [
          | inl e ↦ ground arith
          | inr e ↦ ground arith
        ])
  | inr e ↦
      let refused : (bit_and 0 (user_mask need) == user_mask need) ≡ false = ground arith in
      let (at, reads) = no_table s.ram pt va e in rw (at, reads, refused) refl
]

pub find_user_pa-user_address :
    (need va : ℕ) (s : Kernel) (pt : ℕ)
    → IsPagetable s pt
    → bit_and 0 (user_mask need) ≢ user_mask need
    → find_user_pa pt va need s ≡ ok (user_address s.ram pt va need) s
unfolding find_user_pa
find_user_pa-user_address need va s pt table mask =
    ap (λ m. and_then m (user_pa va need)) (find_pte-slot pt va s)
    ∙ user_pa-slot need va s pt table mask

-- A user address is translated by its entry, for a look-up if the page is valid and the user's, for
-- a read if it is readable too, for a write if it is writable too. Else the answer is 0.
pub find_user_pa-translated :
    (pt va : ℕ) (s : Kernel)
    → IsPagetable s pt
    → (find_user_pa pt va 0 s
        ≡ ok
            (translated
              (entry s.ram pt va)
              va
              (bit (entry s.ram pt va) 0 && bit (entry s.ram pt va) 4))
            s)
      × (find_user_pa pt va pte_r s
          ≡ ok
              (translated (entry s.ram pt va) va (
                bit (entry s.ram pt va) 0
                && bit (entry s.ram pt va) 4
                && bit (entry s.ram pt va) 1))
              s)
      × (find_user_pa pt va pte_w s
          ≡ ok
              (translated (entry s.ram pt va) va (
                bit (entry s.ram pt va) 0
                && bit (entry s.ram pt va) 4
                && bit (entry s.ram pt va) 2))
              s)
unfolding user_address
find_user_pa-translated pt va s table =
    let pte = entry s.ram pt va in
    let look : (bit_and pte 17 == 17) ≡ (bit pte 0 && bit pte 4) = ground (arith, mask_17 pte) in
    let read : (bit_and pte 19 == 19) ≡ (bit pte 0 && bit pte 4 && bit pte 1) =
      ground (arith, mask_19 pte) in
    let write : (bit_and pte 21 == 21) ≡ (bit pte 0 && bit pte 4 && bit pte 2) =
      ground (arith, mask_21 pte) in
    (
      find_user_pa-user_address 0 va s pt table (omega arith)
          ∙ ap (λ b. ok (translated pte va b) s) look,
      find_user_pa-user_address pte_r va s pt table (omega arith)
          ∙ ap (λ b. ok (translated pte va b) s) read,
      find_user_pa-user_address pte_w va s pt table (omega arith)
          ∙ ap (λ b. ok (translated pte va b) s) write,
    )

entry-page :
    (ram : ℕ → ℕ) (pt a b : ℕ) → a / page_size ≡ b / page_size → entry ram pt a ≡ entry ram pt b
unfolding entry
entry-page ram pt a b same =
    let e1 : vpn1 a ≡ vpn1 b = omega (arith, vpn1_lem a, vpn1_lem b) in
    let e0 : vpn0 a ≡ vpn0 b = omega (arith, vpn0_lem a, vpn0_lem b) in rw (e1, e0) refl

-- An address that is translated keeps its offset in the page.
pub user_address-offset :
    (ram : ℕ → ℕ) (pt va need : ℕ)
    → user_address ram pt va need ≢ 0
    → (user_address ram pt va need % page_size ≡ va % page_size)
      × (user_address ram pt va need < 2 ^ 32)
unfolding user_address pte2pa
user_address-offset ram pt va need real = ground arith

-- The addresses of one page lie side by side.
pub user_address-add :
    (ram : ℕ → ℕ) (pt va j need : ℕ)
    → user_address ram pt va need ≢ 0
    → va % page_size + j < page_size
    → user_address ram pt (va + j) need ≡ user_address ram pt va need + j
unfolding user_address pte2pa
user_address-add ram pt va j need real small =
    rw (entry-page ram pt (va + j) va (omega arith)) (ground arith)

pub user_address-untouched :
    (s : Kernel) (r : ℕ → ℕ) (pt : ℕ)
    → ((c : ℕ) → (r c ≡ s.ram c) ⊎ IsOutside s pt c)
    → (va need : ℕ) → user_address r pt va need ≡ user_address s.ram pt va need
unfolding user_address
user_address-untouched s r pt same va need = rw (entry-untouched s r pt same va) refl
