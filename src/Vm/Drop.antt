-- ===== src/Vm/Drop.antt =====
-- One round of uvmunmap of kernel/vm.c: a page that is mapped is given back and unmapped.
use wl_00_rv.Prelude.{
  ℕ, ◌+◌, ◌*◌, ◌-◌, ◌/◌, ◌%◌, ◌^◌, ◌≡◌, ◌≢◌, ◌≤◌, ◌<◌, ◌⊎◌, inl, inr, refl, ap, ap₂, ◌∙◌, sym,
  arith, true, false, ◌==◌, if◌then◌else◌, bit_and, Bool-cases,
}
use wl_00_rv.Prelude.Bits.{bit_and-one}
use wl_00_rv.Machine.{Kernel, ok, and_then, modify, ◌>>=◌}
use wl_00_rv.Spinlock.Critical.{settled}
use wl_00_rv.Ram.{load_word}
use wl_00_rv.Ram.Words.{store_word-outside}
use wl_00_rv.Mem.{page_size, num_pages, mem_start, memset, kfree, set_page}
use wl_00_rv.Mem.Bytes.{within, memset-within}
use wl_00_rv.Mem.Pages.{page_addr}
use wl_00_rv.Mem.Free.{zero_page, kfree_outcomes}
use wl_00_rv.Vm.Defs.{pte2pa, vpn1, vpn0, find_pte, store}
use wl_00_rv.Vm.Unmap.{drop_pte}
use wl_00_rv.Vm.Entry.{vpn1_lem, vpn0_lem}
use wl_00_rv.Vm.Tables.{
  upper, second, HasTable, slot, entry, InUse, IsPagetable, IsOutside, IsReady, vpn1-lt, vpn0-lt,
  pages_apart, find_pte-slot,
}
use wl_00_rv.Vm.Leaf.{at_leaf, slot-at_leaf, upper-stored, entry-stored, Extends-stored}
use wl_00_rv.Vm.Map.{same_page}
use wl_00_rv.Vm.Untouched.{with_ram, upper-untouched, entry-untouched, IsPagetable-untouched}
use wl_00_rv.Vm.Rest.{IsRestKept-refl, settled-IsRestKept}
use wl_00_rv.Vm.Freed.{freed_page-IsReady}
use wl_00_rv.Vm.Owned.{IsMapped, target, Owns, Released}

-- Addresses of one page have one entry.
entry-same_page :
    (ram : ℕ → ℕ) (pt a b : ℕ) → a / page_size ≡ b / page_size → entry ram pt a ≡ entry ram pt b
unfolding entry
entry-same_page ram pt a b same =
    let one : vpn1 a ≡ vpn1 b = omega (arith, vpn1_lem a, vpn1_lem b) in
    let zero_index : vpn0 a ≡ vpn0 b = omega (arith, vpn0_lem a, vpn0_lem b) in
    ap₂ (λ i j. if upper ram pt i % 2 == 1 then load_word ram (second ram pt i + 4 * j) else 0) one
      zero_index

-- A page that is not mapped is passed over.
drop-unmapped :
    (pt va : ℕ) (s : Kernel)
    → entry s.ram pt va % 2 ≡ 0
    → drop_pte true (slot s.ram pt va) s ≡ ok tt s
unfolding drop_pte slot entry
drop-unmapped pt va s empty = elim (Bool-cases (upper s.ram pt (vpn1 va) % 2 == 1)) [
  | inl e ↦
      let leaf_word = load_word s.ram (second s.ram pt (vpn1 va) + 4 * vpn0 va) in
      let off : leaf_word % 2 ≡ 0 = rw e at empty in
      let invalid : (bit_and leaf_word 1 == 0) ≡ true = ground (arith, bit_and-one leaf_word) in
      rw e (ground arith)
  | inr e ↦ rw e refl
]

Released-unmapped :
    (pt va : ℕ) (s : Kernel)
    → IsReady s
    → IsPagetable s pt
    → va % page_size ≡ 0
    → entry s.ram pt va % 2 ≡ 0
    → Released s s pt va 1
Released-unmapped pt va s ready table aligned empty =
    let none_mapped = λ (a : ℕ) (m : IsMapped s pt va 1 a).
      let same : a / page_size ≡ va / page_size = ground (arith, m) in
      let e = entry-same_page s.ram pt a va same in let no : ⊥ = omega (arith, e, m.2) in no in
    record {
      ready = ready;
      table = table;
      kept_rest = IsRestKept-refl s;
      start = refl;
      uppers = λ i hi. refl;
      unmapped = λ a ha i.
          let same : a / page_size ≡ va / page_size = ground arith in
          ap (λ x. x % 2) (entry-same_page s.ram pt a va same) ∙ empty;
      others = λ a ha i. refl;
      freed = λ a k m e. absurd (none_mapped a m);
      kept = λ k no. refl;
      bytes = λ c out no. refl;
    }

-- The first page is mapped to page `k` of RAM.
module _ (pt va k : ℕ) (s : Kernel) (ready : IsReady s) (table : IsPagetable s pt)
    (aligned : va % page_size ≡ 0) (low : va < 2 ^ 32) (own : Owns s pt va 1)
    (mapped : entry s.ram pt va % 2 ≡ 1) (real : k < num_pages)
    (page : target s pt va ≡ page_addr k) (start : s.start_page ≤ page_addr k)
    (taken : s.mem_bitmap k ≡ 0) where
  abbrev pa : ℕ
  pa = target s pt va

  here : IsMapped s pt va 1 va
  here = (low, ground arith, mapped)

  has : HasTable s.ram pt (vpn1 va)
  unfolding entry
  has = ground (arith, mapped)

  -- Behind the kfree.
  abbrev freed : Kernel
  freed = set_page k 1 (settled (zero_page pa s))

  kfree-freed : kfree pa s ≡ ok tt freed
  kfree-freed =
      (kfree_outcomes pa s ready.steady ready.memory).3 k real page (omega (arith, page, start))
        taken

  zeroed : (c : ℕ) → (memset pa 0 page_size s.ram c ≡ s.ram c) ⊎ IsOutside s pt c
  zeroed c = elim (Bool-cases (within pa page_size c)) [
    | inl e ↦ inr (record {
      root =
          let apart =
            pages_apart pa pt (omega (arith, page)) table.root.aligned (own.root va here) in
          ground (arith, apart);
      tables = λ i hi h.
          let apart =
            pages_apart (second s.ram pt i) pa (table.tables i hi h).aligned (omega (arith, page))
              (own.tables va i here hi h) in
          ground (arith, apart);
    })
    | inr e ↦ inl (memset-within pa 0 page_size s.ram c ∙ rw e refl)
  ]

  upper-freed : (i : ℕ) → i < 1024 → upper freed.ram pt i ≡ upper s.ram pt i
  unfolding settled
  upper-freed = upper-untouched s (memset pa 0 page_size s.ram) pt zeroed

  freed-IsReady : IsReady freed
  freed-IsReady = freed_page-IsReady pa k s ready

  InUse-freed :
      (a : ℕ) → InUse (with_ram (memset pa 0 page_size s.ram) s) a → a ≢ pa → InUse freed a
  unfolding settled
  InUse-freed a used ne =
      let far : (k == (a - mem_start) / page_size) ≡ false =
        ground (arith, page, used.aligned, used.low, ne) in
      record { aligned = used.aligned; low = used.low; high = used.high; taken = rw far used.taken }

  freed-IsPagetable : IsPagetable freed pt
  unfolding settled
  freed-IsPagetable =
      let old = IsPagetable-untouched s (memset pa 0 page_size s.ram) pt zeroed table in
      record {
        root = InUse-freed pt old.root (λ e. own.root va here (sym e));
        tables = λ i hi h. InUse-freed _ (old.tables i hi h) λ e.
            own.tables va i here hi (ap (λ x. x % 2) (sym (upper-freed i hi)) ∙ h)
              (ap pte2pa (sym (upper-freed i hi)) ∙ e);
        apart = old.apart;
        distinct = old.distinct;
      }

  has-freed : HasTable freed.ram pt (vpn1 va)
  has-freed = ap (λ x. x % 2) (upper-freed (vpn1 va) (vpn1-lt va)) ∙ has

  -- The address of the entry, and the state behind its clearing.
  abbrev at : ℕ
  at = at_leaf freed pt va 0 freed-IsPagetable has-freed

  abbrev dropped : Kernel
  dropped = store at 0 freed

  slot-at : slot s.ram pt va ≡ at
  slot-at =
      slot-at_leaf s pt va 0 table has
      ∙ ap (λ x. pte2pa x + 4 * vpn0 va) (sym (upper-freed (vpn1 va) (vpn1-lt va)))

  entry-freed : (a : ℕ) → entry freed.ram pt a ≡ entry s.ram pt a
  unfolding settled
  entry-freed = entry-untouched s (memset pa 0 page_size s.ram) pt zeroed

  entry-dropped :
      (a : ℕ)
      → a < 2 ^ 32
      → entry dropped.ram pt a ≡ (if va / page_size == a / page_size then 0 else entry s.ram pt a)
  entry-dropped a ha =
      entry-stored freed pt va 0 freed-IsPagetable has-freed (omega arith) a
      ∙ ap₂ (λ b (x : ℕ). if b then 0 else x) (same_page va a low ha) (entry-freed a)

  -- Every mapped address of the first page has the page of `va`.
  target-first : (a : ℕ) → IsMapped s pt va 1 a → target s pt a ≡ pa
  target-first a m =
      let same : a / page_size ≡ va / page_size = ground (arith, m) in
      ap pte2pa (entry-same_page s.ram pt a va same)

  bytes-dropped :
      (c : ℕ) → IsOutside s pt c → within pa page_size c ≡ false → dropped.ram c ≡ s.ram c
  unfolding settled
  bytes-dropped c out far =
      let table_page = out.tables (vpn1 va) (vpn1-lt va) has in
      let same : second freed.ram pt (vpn1 va) ≡ second s.ram pt (vpn1 va) =
        ap pte2pa (upper-freed (vpn1 va) (vpn1-lt va)) in
      store_word-outside freed.ram at 0 c (omega (arith, vpn0-lt va, table_page, same))
      ∙ (memset-within pa 0 page_size s.ram c ∙ rw far refl)

  dropped-Released : Released s dropped pt va 1
  unfolding settled
  dropped-Released =
      let ext = Extends-stored freed pt va 0 freed-IsPagetable has-freed freed-IsReady in
      record {
        ready = ext.ready;
        table = ext.table;
        kept_rest = settled-IsRestKept s dropped.ram dropped.mem_bitmap;
        start = refl;
        uppers =
            λ i hi. upper-stored freed pt va 0 freed-IsPagetable has-freed i hi ∙ upper-freed i hi;
        unmapped = λ a ha i.
            let same : (va / page_size == a / page_size) ≡ true = ground arith in
            let cleared : entry dropped.ram pt a ≡ 0 = entry-dropped a ha ∙ rw same refl in
            ap (λ x. x % 2) cleared;
        others = λ a ha i.
            let other : (va / page_size == a / page_size) ≡ false = ground arith in
            entry-dropped a ha ∙ rw other refl;
        freed = λ a j m e.
            let index : (k == j) ≡ true = ground (arith, page, e, target-first a m) in
            rw index refl;
        kept = λ j no.
            let differs = no va here in
            let ne : (k == j) ≡ false = ground (arith, page, differs) in rw ne refl;
        bytes = λ c out no. bytes-dropped c out (no va here);
      }

  slot-word : load_word s.ram (slot s.ram pt va) ≡ entry s.ram pt va
  unfolding slot entry
  slot-word = rw has refl

  drop-dropped : drop_pte true (slot s.ram pt va) s ≡ ok tt dropped
  unfolding drop_pte
  drop-dropped =
      let root_table = table.tables (vpn1 va) (vpn1-lt va) has in
      let real_slot : (slot s.ram pt va == 0) ≡ false =
        ground (arith, slot-at_leaf s pt va 0 table has, root_table.low) in
      let valid : (bit_and (load_word s.ram (slot s.ram pt va)) 1 == 0) ≡ false =
        ground (arith, bit_and-one (load_word s.ram (slot s.ram pt va)), slot-word, mapped) in
      rw (real_slot, valid)
        (ap (λ x. and_then (kfree (pte2pa x) s) λ _. modify (store (slot s.ram pt va) 0)) slot-word
          ∙ ap (λ m. and_then m λ _. modify (store (slot s.ram pt va) 0)) kfree-freed
          ∙ ap (λ x. ok tt (store x 0 freed)) slot-at)

-- One round of uvmunmap.
pub drop-Released :
    (pt va : ℕ) (s : Kernel)
    → IsReady s
    → IsPagetable s pt
    → va % page_size ≡ 0
    → va < 2 ^ 32
    → Owns s pt va 1
    → (t : Kernel) × ((find_pte pt va false >>= drop_pte true) s ≡ ok tt t) × Released s t pt va 1
drop-Released pt va s ready table aligned low own =
    let found = ap (λ m. and_then m (drop_pte true)) (find_pte-slot pt va s) in
    elim (Bool-cases (entry s.ram pt va % 2 == 1)) [
      | inl e ↦
          let mapped : entry s.ram pt va % 2 ≡ 1 = ground arith in
          let (k, real, page, start, taken) = own.page va (low, ground arith, mapped) in
          (
            dropped pt va k s ready table aligned low own mapped real page start taken,
            found ∙ drop-dropped pt va k s ready table aligned low own mapped real page start taken,
            dropped-Released pt va k s ready table aligned low own mapped real page start taken,
          )
      | inr e ↦
          let empty : entry s.ram pt va % 2 ≡ 0 = ground arith in
          (
            s,
            found ∙ drop-unmapped pt va s empty,
            Released-unmapped pt va s ready table aligned empty,
          )
    ]
