-- ===== src/Vm/Apart.antt =====
-- A user address space is left as it is when pages that it does not use are given back.
use wl_00_rv.Prelude.{
  ℕ, ◌+◌, ◌*◌, ◌-◌, ◌/◌, ◌%◌, ◌≡◌, ◌≢◌, ◌≤◌, ◌<◌, inl, inr, refl, ap, subst, ◌∙◌, sym, arith, ◌==◌,
  Bool-cases,
}
use wl_00_rv.Machine.{Kernel}
use wl_00_rv.Ram.Words.{load_word-ext}
use wl_00_rv.Mem.{page_size, mem_start}
use wl_00_rv.Mem.Pages.{page_addr}
use wl_00_rv.Vm.Defs.{pte2pa, user_base, vpn1, vpn0}
use wl_00_rv.Vm.Tables.{upper, second, entry, HasTable, InUse, IsPagetable, vpn1-lt, vpn0-lt}
use wl_00_rv.Vm.Owned.{IsMapped, target, Owns}
use wl_00_rv.Vm.Freed.{Freed, upper-Freed}
use wl_00_rv.Vm.Freewalk.{IsAllocated}
use wl_00_rv.Vm.Space.{
  stack_base, UserPage, root_page, table_page, memory_page, stack_page, IsUserSpace,
}

module _ (s t : Kernel) (pt n : ℕ) (P : ℕ → Type 0) (f : Freed s t P) (space : IsUserSpace s pt n)
    (apart : (k : ℕ) → P k → UserPage s pt n k → ⊥) where
  upper-apart : (i : ℕ) → i < 1024 → upper t.ram pt i ≡ upper s.ram pt i
  upper-apart i hi =
      upper-Freed s t P pt i f space.tables.table.root.aligned (λ k p e. apart k p (root_page e)) hi

  table-ne : (i k : ℕ) → i < 1024 → HasTable s.ram pt i → P k → page_addr k ≢ second s.ram pt i
  table-ne i k hi has p e = apart k p (table_page (i, (omega arith, hi, has), sym e))

  entry-apart : (a : ℕ) → entry t.ram pt a ≡ entry s.ram pt a
  unfolding entry
  entry-apart a =
      rw (upper-apart (vpn1 a) (vpn1-lt a)) (elim (Bool-cases (upper s.ram pt (vpn1 a) % 2 == 1)) [
        | inl h ↦
            let has : HasTable s.ram pt (vpn1 a) = ground arith in
            let used = space.tables.table.tables (vpn1 a) (vpn1-lt a) has in
            rw h (
              load_word-ext t.ram s.ram (second s.ram pt (vpn1 a) + 4 * vpn0 a) λ c lo hi.
                f.bytes c λ k p.
                  let ne = table-ne (vpn1 a) k (vpn1-lt a) has p in
                  ground (arith, ne, used.aligned, vpn0-lt a))
        | inr h ↦ rw h refl
      ])

  has-s : (i : ℕ) → i < 1024 → HasTable t.ram pt i → HasTable s.ram pt i
  has-s i hi h = ap (λ x. x % 2) (sym (upper-apart i hi)) ∙ h

  InUse-apart : (a : ℕ) → InUse s a → ((k : ℕ) → P k → page_addr k ≢ a) → InUse t a
  InUse-apart a used ne =
      let index = (a - mem_start) / page_size in
      let page : page_addr index ≡ a = omega (arith, used.aligned, used.low) in
      record {
        aligned = used.aligned;
        low = used.low;
        high = used.high;
        taken = f.kept index (λ p. ne index p page) ∙ used.taken;
      }

  IsPagetable-apart : IsPagetable t pt
  IsPagetable-apart =
      let old = space.tables.table in
      record {
        root = InUse-apart pt old.root λ k p e. apart k p (root_page e);
        tables = λ i hi h. subst (InUse t) (sym (ap pte2pa (upper-apart i hi))) (
            InUse-apart (second s.ram pt i) (old.tables i hi (has-s i hi h))
              λ k p. table-ne i k hi (has-s i hi h) p);
        apart = λ i hi h e. old.apart i hi (has-s i hi h) (sym (ap pte2pa (upper-apart i hi)) ∙ e);
        distinct = λ i j hi hj h h' e.
            old.distinct i j hi hj (has-s i hi h) (has-s j hj h')
              (sym (ap pte2pa (upper-apart i hi)) ∙ (e ∙ ap pte2pa (upper-apart j hj)));
      }

  IsAllocated-apart : IsAllocated t pt
  IsAllocated-apart = record {
    table = IsPagetable-apart;
    root = subst (λ x. x ≤ pt) (sym f.start) space.tables.root;
    tables = λ i hi h.
        let low = space.tables.tables i hi (has-s i hi h) in
        omega (arith, low, f.start, ap pte2pa (upper-apart i hi));
  }

  IsMapped-apart : (v m a : ℕ) → IsMapped t pt v m a → IsMapped s pt v m a
  IsMapped-apart v m a (ha, i, h) = (ha, i, ap (λ x. x % 2) (sym (entry-apart a)) ∙ h)

  target-apart : (a : ℕ) → target t pt a ≡ target s pt a
  target-apart a = ap pte2pa (entry-apart a)

  Owns-apart :
      (v m : ℕ)
      → Owns s pt v m
      → ((a k : ℕ) → IsMapped s pt v m a → target s pt a ≡ page_addr k → P k → ⊥)
      → Owns t pt v m
  Owns-apart v m own free_of = record {
    page = λ a h.
        let (k, hk, e, low, taken) = own.page a (IsMapped-apart v m a h) in
        (
          k,
          hk,
          target-apart a ∙ e,
          subst (λ x. x ≤ page_addr k) (sym f.start) low,
          f.kept k (free_of a k (IsMapped-apart v m a h) e) ∙ taken,
        );
    root = λ a h e. own.root a (IsMapped-apart v m a h) (sym (target-apart a) ∙ e);
    tables = λ a i h hi has e.
        own.tables a i (IsMapped-apart v m a h) hi (has-s i hi has)
          (sym (ap pte2pa (upper-apart i hi)) ∙ (e ∙ target-apart a));
    distinct = λ a b ha hb e.
        own.distinct a b (IsMapped-apart v m a ha) (IsMapped-apart v m b hb)
          (sym (target-apart a) ∙ (e ∙ target-apart b));
  }

  pub IsUserSpace-apart : IsUserSpace t pt n
  IsUserSpace-apart = record {
    tables = IsAllocated-apart;
    below = space.below;
    memory = Owns-apart user_base n space.memory λ a k m e p. apart k p (memory_page a m e);
    stack = Owns-apart stack_base 1 space.stack λ a k m e p. apart k p (stack_page a m e);
    apart = λ a b ha hb e.
        space.apart a b (IsMapped-apart user_base n a ha) (IsMapped-apart stack_base 1 b hb)
          (sym (target-apart a) ∙ (e ∙ target-apart b));
  }

  pub UserPage-before : (k : ℕ) → UserPage t pt n k → UserPage s pt n k
  UserPage-before k u = elim u [
    | root_page e ↦ root_page e
    | table_page (j, (lo, hi, h), e) ↦
        table_page (j, (lo, hi, has-s j hi h), sym (ap pte2pa (upper-apart j hi)) ∙ e)
    | memory_page a m e ↦ memory_page a (IsMapped-apart user_base n a m) (sym (target-apart a) ∙ e)
    | stack_page a m e ↦ stack_page a (IsMapped-apart stack_base 1 a m) (sym (target-apart a) ∙ e)
  ]

  pub UserPage-after : (k : ℕ) → UserPage s pt n k → UserPage t pt n k
  UserPage-after k u = elim u [
    | root_page e ↦ root_page e
    | table_page (j, (lo, hi, h), e) ↦
        table_page
          (j, (lo, hi, ap (λ x. x % 2) (upper-apart j hi) ∙ h), ap pte2pa (upper-apart j hi) ∙ e)
    | memory_page a (ha, i, m) e ↦
        memory_page a (ha, i, ap (λ x. x % 2) (entry-apart a) ∙ m) (target-apart a ∙ e)
    | stack_page a (ha, i, m) e ↦
        stack_page a (ha, i, ap (λ x. x % 2) (entry-apart a) ∙ m) (target-apart a ∙ e)
  ]
