-- ===== src/Vm/Grow.antt =====
-- find_pte that allocates: a new second-level table changes no translation.
use wl_00_rv.Prelude.{
  ℕ, ◌+◌, ◌*◌, ◌%◌, ◌≡◌, ◌≢◌, ◌≤◌, ◌<◌, ◌⊎◌, inl, inr, refl, ap, subst, ◌∙◌, sym, arith, ◌==◌,
  if◌then◌else◌, Bool-cases,
}
use wl_00_rv.Machine.{Kernel, update}
use wl_00_rv.Spinlock.Critical.{settled}
use wl_00_rv.Ram.{load_word, store_word}
use wl_00_rv.Ram.Words.{load_word-store_word, load_word-store_ne, store_word-outside}
use wl_00_rv.Mem.{num_pages, page_size, memset}
use wl_00_rv.Mem.Bytes.{memset-within}
use wl_00_rv.Mem.Pages.{page_addr}
use wl_00_rv.Vm.Defs.{pte2pa, vpn1, vpn0}
use wl_00_rv.Vm.Entry.{branch, branch_fields}
use wl_00_rv.Vm.Tables.{
  upper, second, HasTable, slot, entry, InUse, IsPagetable, IsOutside, vpn1-lt, vpn0-lt,
  pages_apart, InUse-ne_free, load-memset_outside, load-memset_inside,
}

-- RAM with the page `p` cleared and linked as the second-level table of `va`.
unfoldable pub linked : (ram : ℕ → ℕ) (pt va p : ℕ) → ℕ → ℕ
linked ram pt va p = store_word (memset p 0 page_size ram) (pt + 4 * vpn1 va) (branch p)

-- `s` behind it, with the page `k` taken.
abbrev pub opened : (s : Kernel) (pt va k : ℕ) → Kernel
opened s pt va k = record (settled s) {
  ram = linked s.ram pt va (page_addr k);
  mem_bitmap = update s.mem_bitmap k 0;
}

module _ (s : Kernel) (pt va k : ℕ) (table : IsPagetable s pt) (range : k < num_pages)
    (avail : s.mem_bitmap k ≢ 0) (missing : upper s.ram pt (vpn1 va) % 2 ≡ 0) where
  upper-linked :
      (i : ℕ)
      → i < 1024
      → upper (linked s.ram pt va (page_addr k)) pt i
        ≡ (if vpn1 va == i then branch (page_addr k) else upper s.ram pt i)
  unfolding linked
  upper-linked i hi = elim (Bool-cases (vpn1 va == i)) [
    | inl e ↦ rw e (
        ap (λ j. load_word (linked s.ram pt va (page_addr k)) (pt + 4 * j)) (ground arith)
        ∙ load_word-store_word _ (pt + 4 * vpn1 va) (branch (page_addr k))
            (branch_fields (page_addr k) (omega arith) (omega arith)).0)
    | inr e ↦ rw e (
        load_word-store_ne _ (pt + 4 * vpn1 va) (pt + 4 * i) (branch (page_addr k)) (ground arith)
        ∙ load-memset_outside s.ram (page_addr k) (pt + 4 * i) (
            omega (
              arith,
              table.root.aligned,
              vpn1-lt va,
              pages_apart pt (page_addr k) table.root.aligned (omega arith)
                  (InUse-ne_free s pt k table.root avail),
            )))
  ]

  leaf-linked :
      (a j : ℕ)
      → InUse s a
      → a ≢ pt
      → j < 1024
      → load_word (linked s.ram pt va (page_addr k)) (a + 4 * j) ≡ load_word s.ram (a + 4 * j)
  unfolding linked
  leaf-linked a j used ne hj =
      load_word-store_ne _ (pt + 4 * vpn1 va) (a + 4 * j) (branch (page_addr k))
        (omega (arith, vpn1-lt va, pages_apart a pt used.aligned table.root.aligned ne))
      ∙ load-memset_outside s.ram (page_addr k) (a + 4 * j) (
          omega (
            arith,
            pages_apart a (page_addr k) used.aligned (omega arith) (InUse-ne_free s a k used avail),
          ))

  leaf-new :
      (j : ℕ) → j < 1024 → load_word (linked s.ram pt va (page_addr k)) (page_addr k + 4 * j) ≡ 0
  unfolding linked
  leaf-new j hj =
      load_word-store_ne _ (pt + 4 * vpn1 va) (page_addr k + 4 * j) (branch (page_addr k)) (
        omega (
          arith,
          vpn1-lt va,
          pages_apart pt (page_addr k) table.root.aligned (omega arith)
              (InUse-ne_free s pt k table.root avail),
        ))
      ∙ load-memset_inside s.ram (page_addr k) (page_addr k + 4 * j) (omega arith) (omega arith)

  -- A second-level table of the new state is the new page, or one of before.
  table_cases :
      (i : ℕ)
      → i < 1024
      → HasTable (opened s pt va k).ram pt i
      → ((i ≡ vpn1 va) × (second (opened s pt va k).ram pt i ≡ page_addr k))
        ⊎ ((i ≢ vpn1 va)
            × HasTable s.ram pt i
            × (second (opened s pt va k).ram pt i ≡ second s.ram pt i))
  table_cases i hi has = elim (Bool-cases (vpn1 va == i)) [
    | inl e ↦
        let up : upper (linked s.ram pt va (page_addr k)) pt i ≡ branch (page_addr k) =
          upper-linked i hi ∙ ap (λ b. if b then branch (page_addr k) else upper s.ram pt i) e in
        inl
          (ground arith, ap pte2pa up ∙ (branch_fields (page_addr k) (omega arith) (omega arith)).2)
    | inr e ↦
        let up : upper (linked s.ram pt va (page_addr k)) pt i ≡ upper s.ram pt i =
          upper-linked i hi ∙ ap (λ b. if b then branch (page_addr k) else upper s.ram pt i) e in
        inr (ground arith, ap (λ x. x % 2) (sym up) ∙ has, ap pte2pa up)
  ]

  pub InUse-opened : (a : ℕ) → InUse s a → InUse (opened s pt va k) a
  InUse-opened a used = record {
    aligned = used.aligned;
    low = used.low;
    high = used.high;
    taken = ground (arith, used.taken);
  }

  InUse-new : InUse (opened s pt va k) (page_addr k)
  InUse-new = record {
    aligned = omega arith;
    low = omega arith;
    high = omega arith;
    taken = ground arith;
  }

  pub IsPagetable-opened : IsPagetable (opened s pt va k) pt
  IsPagetable-opened = record {
    root = InUse-opened pt table.root;
    tables = λ i hi has. elim (table_cases i hi has) [
      | inl (e, f) ↦ rw f InUse-new
      | inr (e, was, f) ↦ rw f (InUse-opened _ (table.tables i hi was))
    ];
    apart = λ i hi has. elim (table_cases i hi has) [
      | inl (e, f) ↦ λ h. InUse-ne_free s pt k table.root avail (sym h ∙ f)
      | inr (e, was, f) ↦ λ h. table.apart i hi was (sym f ∙ h)
    ];
    distinct = λ i j hi hj hasi hasj same. elim (table_cases i hi hasi) [
      | inl (e, f) ↦ elim (table_cases j hj hasj) [
        | inl (e', f') ↦ e ∙ sym e'
        | inr (e', was', f') ↦
            absurd (InUse-ne_free s _ k (table.tables j hj was') avail (sym f' ∙ (sym same ∙ f)))
      ]
      | inr (e, was, f) ↦ elim (table_cases j hj hasj) [
        | inl (e', f') ↦
            absurd (InUse-ne_free s _ k (table.tables i hi was) avail (sym f ∙ (same ∙ f')))
        | inr (e', was', f') ↦ table.distinct i j hi hj was was' (sym f ∙ (same ∙ f'))
      ]
    ];
  }

  pub link_fields :
      (upper (opened s pt va k).ram pt (vpn1 va) % 2 ≡ 1)
      × (second (opened s pt va k).ram pt (vpn1 va) ≡ page_addr k)
  link_fields =
      let up : upper (linked s.ram pt va (page_addr k)) pt (vpn1 va) ≡ branch (page_addr k) =
        upper-linked (vpn1 va) (vpn1-lt va) ∙ ground arith in
      let fields = branch_fields (page_addr k) (omega arith) (omega arith) in
      (ap (λ x. x % 2) up ∙ fields.1, ap pte2pa up ∙ fields.2)

  -- The leaf entry's address lies in the new page.
  pub slot-opened : slot (opened s pt va k).ram pt va ≡ page_addr k + 4 * vpn0 va
  unfolding slot
  slot-opened = rw (link_fields.0, link_fields.1) refl

  pub entry-opened : (a : ℕ) → entry (opened s pt va k).ram pt a ≡ entry s.ram pt a
  unfolding entry
  entry-opened a = elim (Bool-cases (vpn1 va == vpn1 a)) [
    | inl e ↦
        let same : vpn1 va ≡ vpn1 a = ground arith in
        let up : upper (linked s.ram pt va (page_addr k)) pt (vpn1 a) ≡ branch (page_addr k) =
          upper-linked (vpn1 a) (vpn1-lt a)
          ∙ ap (λ b. if b then branch (page_addr k) else upper s.ram pt (vpn1 a)) e in
        let fields = branch_fields (page_addr k) (omega arith) (omega arith) in
        let was : upper s.ram pt (vpn1 a) % 2 ≡ 0 =
          ap (λ x. upper s.ram pt x % 2) (sym same) ∙ missing in
        rw (up, was, fields.1, fields.2) (leaf-new (vpn0 a) (vpn0-lt a))
    | inr e ↦
        let up : upper (linked s.ram pt va (page_addr k)) pt (vpn1 a) ≡ upper s.ram pt (vpn1 a) =
          upper-linked (vpn1 a) (vpn1-lt a)
          ∙ ap (λ b. if b then branch (page_addr k) else upper s.ram pt (vpn1 a)) e in
        elim (Bool-cases (upper s.ram pt (vpn1 a) % 2 == 1)) [
          | inl has ↦
              rw (up, has)
                (leaf-linked (second s.ram pt (vpn1 a)) (vpn0 a)
                  (table.tables (vpn1 a) (vpn1-lt a) (ground arith))
                  (table.apart (vpn1 a) (vpn1-lt a) (ground arith)) (vpn0-lt a))
          | inr has ↦ rw (up, has) refl
        ]
  ]

  pub IsOutside-opened : (c : ℕ) → IsOutside (opened s pt va k) pt c → IsOutside s pt c
  IsOutside-opened c out = record {
    root = out.root;
    tables = λ i hi has. elim (Bool-cases (vpn1 va == i)) [
      | inl e ↦ ground arith
      | inr e ↦
          let up : upper (linked s.ram pt va (page_addr k)) pt i ≡ upper s.ram pt i =
            upper-linked i hi ∙ ap (λ b. if b then branch (page_addr k) else upper s.ram pt i) e in
          subst (λ a. (c < a) ⊎ (a + page_size ≤ c)) (ap pte2pa up)
            (out.tables i hi (ap (λ x. x % 2) up ∙ has))
    ];
  }

  pub opened-outside :
      (c : ℕ) → IsOutside (opened s pt va k) pt c → (opened s pt va k).ram c ≡ s.ram c
  unfolding linked
  opened-outside c out =
      let new : (c < page_addr k) ⊎ (page_addr k + page_size ≤ c) =
        subst (λ a. (c < a) ⊎ (a + page_size ≤ c)) link_fields.1
          (out.tables (vpn1 va) (vpn1-lt va) link_fields.0) in
      store_word-outside _ (pt + 4 * vpn1 va) (branch (page_addr k)) c
        (omega (arith, vpn1-lt va, out.root))
      ∙ ground (arith, memset-within (page_addr k) 0 page_size s.ram c)
