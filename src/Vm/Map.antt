-- ===== src/Vm/Map.antt =====
-- mappage of kernel/vm.c on every branch.
use wl_00_rv.Prelude.{
  ℕ, ◌/◌, ◌%◌, ◌^◌, ◌≡◌, ◌≢◌, ◌<◌, ◌⊎◌, inl, inr, refl, ap, ap₂, subst, ◌∙◌, sym, arith, true,
  false, ◌==◌, ◌&&◌, if◌then◌else◌, Bool-cases,
}
use wl_00_rv.Prelude.Bits.{bit_and-one}
use wl_00_rv.Machine.{Kernel, ok, panic, and_then, ◌>>=◌}
use wl_00_rv.Ram.{load_word, store_word}
use wl_00_rv.Mem.{page_size, num_pages}
use wl_00_rv.Vm.Defs.{vpn1, vpn0, find_pte, set_leaf, mappage, store}
use wl_00_rv.Vm.Entry.{vpn1_lem, vpn0_lem, leaf, leaf_fields}
use wl_00_rv.Vm.Tables.{upper, HasTable, slot, entry, IsPagetable, IsReady, vpn1-lt}
use wl_00_rv.Vm.Extends.{Extends, SameEntries, Extends-trans}
use wl_00_rv.Vm.Find.{find_pte-Found, find_pte-present}
use wl_00_rv.Vm.Leaf.{slot-at_leaf, entry-stored, Extends-stored}

pub same_page :
    (va a : ℕ)
    → va < 2 ^ 32
    → a < 2 ^ 32
    → ((vpn1 va == vpn1 a) && (vpn0 va == vpn0 a)) ≡ (va / page_size == a / page_size)
same_page va a hv ha = ground (arith, vpn1_lem va, vpn1_lem a, vpn0_lem va, vpn0_lem a)

-- From `s` to `t` the page of `va` is mapped to `pa`, and no other address is.
abbrev pub Mapped : (s t : Kernel) (pt va pa flags : ℕ) → Type 0
Mapped s t pt va pa flags =
    (a : ℕ)
    → a < 2 ^ 32
    → entry t.ram pt a
      ≡ (if va / page_size == a / page_size then leaf pa flags else entry s.ram pt a)

-- mappage behind its two tests.
mappage-aligned :
    (pt va pa flags : ℕ) (s : Kernel)
    → va % page_size ≡ 0
    → pa % page_size ≡ 0
    → mappage pt va pa flags s ≡ (find_pte pt va true >>= set_leaf pa flags) s
unfolding mappage
mappage-aligned pt va pa flags s hv hp = rw (hv, hp) refl

set_leaf-stored :
    (pa flags pte : ℕ) (s : Kernel)
    → pte ≢ 0
    → load_word s.ram pte % 2 ≡ 0
    → set_leaf pa flags pte s ≡ ok pte (store pte (leaf pa flags) s)
unfolding set_leaf
set_leaf-stored pa flags pte s real empty =
    let some_pte : (pte == 0) ≡ false = ground arith in
    rw (some_pte, bit_and-one (load_word s.ram pte), empty) refl

set_leaf-null : (pa flags : ℕ) (s : Kernel) → set_leaf pa flags 0 s ≡ ok 0 s
unfolding set_leaf
set_leaf-null pa flags s = refl

set_leaf-remap :
    (pa flags pte : ℕ) (s : Kernel)
    → pte ≢ 0
    → load_word s.ram pte % 2 ≡ 1
    → set_leaf pa flags pte s ≡ panic "mappage: remap of an already-mapped va" s
unfolding set_leaf
set_leaf-remap pa flags pte s real full =
    let some_pte : (pte == 0) ≡ false = ground arith in
    rw (some_pte, bit_and-one (load_word s.ram pte), full) refl

pub slot-real :
    (s : Kernel) (pt va : ℕ) → IsPagetable s pt → HasTable s.ram pt (vpn1 va) → slot s.ram pt va ≢ 0
unfolding slot
slot-real s pt va table has = rw has (omega (arith, (table.tables (vpn1 va) (vpn1-lt va) has).low))

pub load-slot :
    (s : Kernel) (pt va : ℕ)
    → HasTable s.ram pt (vpn1 va)
    → load_word s.ram (slot s.ram pt va) ≡ entry s.ram pt va
unfolding slot entry
load-slot s pt va has = rw has refl

has-entry : (ram : ℕ → ℕ) (pt va : ℕ) → entry ram pt va % 2 ≡ 1 → HasTable ram pt (vpn1 va)
unfolding entry
has-entry ram pt va h = elim (Bool-cases (upper ram pt (vpn1 va) % 2 == 1)) [
  | inl e ↦ ground arith
  | inr e ↦ absurd (ground arith)
]

-- mappage from the state that find_pte leaves behind.
mappage-found :
    (pt va pa flags r : ℕ) (s t : Kernel)
    → va % page_size ≡ 0
    → pa % page_size ≡ 0
    → find_pte pt va true s ≡ ok r t
    → mappage pt va pa flags s ≡ set_leaf pa flags r t
mappage-found pt va pa flags r s t hv hp e =
    mappage-aligned pt va pa flags s hv hp ∙ ap (λ m. and_then m (set_leaf pa flags)) e

-- The entry of `va` written in the slot that find_pte found.
mappage-stored :
    (pt va pa flags : ℕ) (s t : Kernel)
    → va % page_size ≡ 0
    → va < 2 ^ 32
    → pa % page_size ≡ 0
    → pa < 2 ^ 32
    → flags < 1024
    → entry s.ram pt va % 2 ≡ 0
    → find_pte pt va true s ≡ ok (slot t.ram pt va) t
    → Extends s t pt
    → SameEntries s t pt
    → HasTable t.ram pt (vpn1 va)
    → (u : Kernel) × (mappage pt va pa flags s ≡ ok (slot t.ram pt va) u)
      × Extends s u pt
      × Mapped s u pt va pa flags
mappage-stored pt va pa flags s t hv wide hp widep hf empty e ext same has =
    let v = leaf pa flags in
    (
      store (slot t.ram pt va) v t,
      mappage-found pt va pa flags (slot t.ram pt va) s t hv hp e
          ∙ set_leaf-stored pa flags (slot t.ram pt va) t (slot-real t pt va ext.table has)
              (ap (λ x. x % 2) (load-slot t pt va has ∙ same va) ∙ empty),
      subst (λ p. Extends s (store p v t) pt) (sym (slot-at_leaf t pt va v ext.table has))
          (Extends-trans s t _ pt ext (Extends-stored t pt va v ext.table has ext.ready)),
      λ a ha.
          ap (λ p. entry (store_word t.ram p v) pt a) (slot-at_leaf t pt va v ext.table has)
          ∙ (entry-stored t pt va v ext.table has (leaf_fields pa flags widep hp hf).0 a
              ∙ ap₂ (λ b x. if b then v else x) (same_page va a wide ha) (same a)),
    )

-- mappage of an aligned page whose address is not mapped returns: either with 0, which only happens
-- when memory is full, and no translation changed, or with a pointer that is not NULL and exactly
-- that page mapped.
pub mappage-Mapped :
    (pt va pa flags : ℕ) (s : Kernel)
    → IsReady s
    → IsPagetable s pt
    → va % page_size ≡ 0
    → va < 2 ^ 32
    → pa % page_size ≡ 0
    → pa < 2 ^ 32
    → flags < 1024
    → entry s.ram pt va % 2 ≡ 0
    → (r : ℕ) × (t : Kernel) × (mappage pt va pa flags s ≡ ok r t)
      × Extends s t pt
      × (((r ≡ 0) × ((j : ℕ) → j < num_pages → s.mem_bitmap j ≡ 0) × SameEntries s t pt)
          ⊎ ((r ≢ 0) × Mapped s t pt va pa flags))
mappage-Mapped pt va pa flags s ready table hv wide hp widep hf empty =
    let (r, t, e, (ext, same, out)) = find_pte-Found pt va s ready table in
    elim out [
      | inl (null, full) ↦ (
        0,
        t,
        mappage-found pt va pa flags 0 s t hv hp (e ∙ ap (λ x. ok x t) null)
            ∙ set_leaf-null pa flags t,
        ext,
        inl (refl, full, same),
      )
      | inr (has, at) ↦
          let (u, e', ext', mapped) =
            mappage-stored pt va pa flags s t hv wide hp widep hf empty (e ∙ ap (λ x. ok x t) at)
              ext same has in
          (slot t.ram pt va, u, e', ext', inr (slot-real t pt va ext.table has, mapped))
    ]

-- mappage panics on an address that is not page aligned, and on a page that is mapped already.
mappage-refused :
    (pt va pa flags : ℕ) (s : Kernel)
    → IsPagetable s pt
    → (va % page_size ≢ 0 → mappage pt va pa flags s ≡ panic "mappage: va not aligned" s)
      × (va % page_size ≡ 0
          → pa % page_size ≢ 0
          → mappage pt va pa flags s ≡ panic "mappage: pa not aligned" s)
      × (va % page_size ≡ 0
          → pa % page_size ≡ 0
          → entry s.ram pt va % 2 ≡ 1
          → mappage pt va pa flags s ≡ panic "mappage: remap of an already-mapped va" s)
unfolding mappage
mappage-refused pt va pa flags s table = (
  λ hv. ground arith,
  λ hv hp. ground arith,
  λ hv hp full.
      let has = has-entry s.ram pt va full in
      mappage-found pt va pa flags (slot s.ram pt va) s s hv hp (find_pte-present pt va s has)
      ∙ set_leaf-remap pa flags (slot s.ram pt va) s (slot-real s pt va table has)
          (ap (λ x. x % 2) (load-slot s pt va has) ∙ full),
)
