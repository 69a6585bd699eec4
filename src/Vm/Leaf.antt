-- ===== src/Vm/Leaf.antt =====
-- A store to a leaf entry, as by mappage and uvmunmap: it changes one translation.
use wl_00_rv.Prelude.{
  ℕ, ◌+◌, ◌*◌, ◌%◌, ◌^◌, ◌≡◌, ◌≢◌, ◌≤◌, ◌<◌, ◌⊎◌, inl, inr, refl, ap, subst, ◌∙◌, sym, arith, ◌==◌,
  ◌&&◌, if◌then◌else◌, Bool-cases,
}
use wl_00_rv.Machine.{Kernel}
use wl_00_rv.Ram.{load_word, store_word}
use wl_00_rv.Ram.Words.{load_word-store_word, load_word-store_ne, store_word-outside}
use wl_00_rv.Mem.{page_size}
use wl_00_rv.Vm.Defs.{pte2pa, vpn1, vpn0, store}
use wl_00_rv.Vm.Tables.{
  upper, second, HasTable, slot, entry, InUse, IsPagetable, IsOutside, IsReady, vpn1-lt, vpn0-lt,
  pages_apart,
}
use wl_00_rv.Vm.Extends.{Extends}

module _ (s : Kernel) (pt va v : ℕ) (table : IsPagetable s pt)
    (has : HasTable s.ram pt (vpn1 va)) where
  abbrev pub at_leaf : ℕ
  at_leaf = second s.ram pt (vpn1 va) + 4 * vpn0 va

  pub slot-at_leaf : slot s.ram pt va ≡ at_leaf
  unfolding slot
  slot-at_leaf = rw has refl

  pub upper-stored : (i : ℕ) → i < 1024 → upper (store_word s.ram at_leaf v) pt i ≡ upper s.ram pt i
  upper-stored i hi =
      let used = table.tables (vpn1 va) (vpn1-lt va) has in
      load_word-store_ne s.ram at_leaf (pt + 4 * i) v (
        omega (
          arith,
          vpn0-lt va,
          pages_apart (second s.ram pt (vpn1 va)) pt used.aligned table.root.aligned
              (table.apart (vpn1 va) (vpn1-lt va) has),
        ))

  second_apart :
      (i : ℕ)
      → i < 1024
      → HasTable s.ram pt i
      → vpn1 va ≢ i
      → (second s.ram pt i + page_size ≤ second s.ram pt (vpn1 va))
        ⊎ (second s.ram pt (vpn1 va) + page_size ≤ second s.ram pt i)
  second_apart i hi hasi ne =
      pages_apart (second s.ram pt i) (second s.ram pt (vpn1 va)) (table.tables i hi hasi).aligned
        (table.tables (vpn1 va) (vpn1-lt va) has).aligned
        λ e. ne (sym (table.distinct i (vpn1 va) hi (vpn1-lt va) hasi has e))

  leaf-stored :
      v < 2 ^ 32
      → (i j : ℕ) → i < 1024
      → j < 1024
      → HasTable s.ram pt i
      → load_word (store_word s.ram at_leaf v) (second s.ram pt i + 4 * j) ≡ (
          if (vpn1 va == i) && (vpn0 va == j)
          then v
          else load_word s.ram (second s.ram pt i + 4 * j))
  leaf-stored wide i j hi hj hasi = elim (Bool-cases (vpn1 va == i)) [
    | inl e ↦
        let here : i ≡ vpn1 va = ground arith in
        let same : second s.ram pt i ≡ second s.ram pt (vpn1 va) = ap (second s.ram pt) here in
        elim (Bool-cases (vpn0 va == j)) [
          | inl f ↦
              let slot_same : second s.ram pt i + 4 * j ≡ at_leaf = ground arith in
              rw (e, f)
                (ap (load_word (store_word s.ram at_leaf v)) slot_same
                  ∙ load_word-store_word s.ram at_leaf v wide)
          | inr f ↦
              rw (e, f)
                (load_word-store_ne s.ram at_leaf (second s.ram pt i + 4 * j) v (ground arith))
        ]
    | inr e ↦ rw e (
        load_word-store_ne s.ram at_leaf (second s.ram pt i + 4 * j) v
          (omega (arith, vpn0-lt va, second_apart i hi hasi (ground arith))))
  ]

  pub entry-stored :
      v < 2 ^ 32
      → (a : ℕ)
      → entry (store_word s.ram at_leaf v) pt a
        ≡ (if (vpn1 va == vpn1 a) && (vpn0 va == vpn0 a) then v else entry s.ram pt a)
  unfolding entry
  entry-stored wide a =
      rw (upper-stored (vpn1 a) (vpn1-lt a)) (elim (Bool-cases (upper s.ram pt (vpn1 a) % 2 == 1)) [
        | inl h ↦ rw h (leaf-stored wide (vpn1 a) (vpn0 a) (vpn1-lt a) (vpn0-lt a) (ground arith))
        | inr h ↦ elim (Bool-cases (vpn1 va == vpn1 a)) [
          | inl e ↦
              let here : vpn1 va ≡ vpn1 a = ground arith in
              absurd (ground (arith, ap (λ i. upper s.ram pt i % 2) here))
          | inr e ↦ rw (h, e) refl
        ]
      ])

  has-stored : (i : ℕ) → i < 1024 → HasTable (store_word s.ram at_leaf v) pt i → HasTable s.ram pt i
  has-stored i hi h = ap (λ x. x % 2) (sym (upper-stored i hi)) ∙ h

  second-stored : (i : ℕ) → i < 1024 → second (store_word s.ram at_leaf v) pt i ≡ second s.ram pt i
  second-stored i hi = ap pte2pa (upper-stored i hi)

  InUse-stored : (a : ℕ) → InUse s a → InUse (store at_leaf v s) a
  InUse-stored a used = record {
    aligned = used.aligned;
    low = used.low;
    high = used.high;
    taken = used.taken;
  }

  IsOutside-stored : (c : ℕ) → IsOutside (store at_leaf v s) pt c → IsOutside s pt c
  IsOutside-stored c out = record {
    root = out.root;
    tables = λ i hi h.
        subst (λ a. (c < a) ⊎ (a + page_size ≤ c)) (second-stored i hi)
          (out.tables i hi (ap (λ x. x % 2) (upper-stored i hi) ∙ h));
  }

  pub Extends-stored : IsReady s → Extends s (store at_leaf v s) pt
  Extends-stored ready = record {
    ready = record {
      steady = record { wide = ready.steady.wide; quiet = ready.steady.quiet };
      memory = ready.memory;
      console = ready.console;
      calm = ready.calm;
    };
    table = record {
      root = InUse-stored pt table.root;
      tables = λ i hi h.
          subst (InUse (store at_leaf v s)) (sym (second-stored i hi))
            (InUse-stored _ (table.tables i hi (has-stored i hi h)));
      apart = λ i hi h e. table.apart i hi (has-stored i hi h) (sym (second-stored i hi) ∙ e);
      distinct = λ i j hi hj hasi hasj e.
          table.distinct i j hi hj (has-stored i hi hasi) (has-stored j hj hasj)
            (sym (second-stored i hi) ∙ (e ∙ second-stored j hj));
    };
    in_use = InUse-stored;
    outside = IsOutside-stored;
    same = λ c out.
        let was = IsOutside-stored c out in
        store_word-outside s.ram at_leaf v c
          (omega (arith, vpn0-lt va, was.tables (vpn1 va) (vpn1-lt va) has));
  }
