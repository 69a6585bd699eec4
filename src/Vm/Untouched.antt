-- ===== src/Vm/Untouched.antt =====
-- Writes outside a page table change neither the table nor a translation.
use wl_00_rv.Prelude.{
  ℕ, ◌+◌, ◌*◌, ◌%◌, ◌≡◌, ◌≤◌, ◌<◌, ◌⊎◌, inl, inr, refl, ap, subst, ◌∙◌, sym, arith, ◌==◌,
  Bool-cases,
}
use wl_00_rv.Machine.{Kernel}
use wl_00_rv.Ram.Words.{load_word-ext}
use wl_00_rv.Mem.{page_size}
use wl_00_rv.Vm.Defs.{pte2pa, vpn1, vpn0}
use wl_00_rv.Vm.Tables.{
  upper, second, HasTable, entry, InUse, IsPagetable, IsOutside, vpn1-lt, vpn0-lt,
}

-- `s` with the memory `r`
abbrev pub with_ram : (ℕ → ℕ) → Kernel → Kernel
with_ram r s = record s { ram = r }

module _ (s : Kernel) (r : ℕ → ℕ) (pt : ℕ)
    (same : (c : ℕ) → (r c ≡ s.ram c) ⊎ IsOutside s pt c) where
  pub upper-untouched : (i : ℕ) → i < 1024 → upper r pt i ≡ upper s.ram pt i
  upper-untouched i hi =
      load_word-ext r s.ram (pt + 4 * i)
        λ c lo hi'. elim (same c) [ inl e ↦ e | inr out ↦ absurd (omega (arith, out.root)) ]

  pub entry-untouched : (a : ℕ) → entry r pt a ≡ entry s.ram pt a
  unfolding entry
  entry-untouched a =
      rw (upper-untouched (vpn1 a) (vpn1-lt a))
        (elim (Bool-cases (upper s.ram pt (vpn1 a) % 2 == 1)) [
          | inl h ↦ rw h (
              load_word-ext r s.ram (second s.ram pt (vpn1 a) + 4 * vpn0 a) λ c lo hi.
                elim (same c) [
                  | inl e ↦ e
                  | inr out ↦
                      absurd
                        (omega (arith, vpn0-lt a, out.tables (vpn1 a) (vpn1-lt a) (ground arith)))
                ])
          | inr h ↦ rw h refl
        ])

  was : (i : ℕ) → i < 1024 → HasTable r pt i → HasTable s.ram pt i
  was i hi h = ap (λ x. x % 2) (sym (upper-untouched i hi)) ∙ h

  second-untouched : (i : ℕ) → i < 1024 → second r pt i ≡ second s.ram pt i
  second-untouched i hi = ap pte2pa (upper-untouched i hi)

  InUse-untouched : (a : ℕ) → InUse s a → InUse (with_ram r s) a
  InUse-untouched a used = record {
    aligned = used.aligned;
    low = used.low;
    high = used.high;
    taken = used.taken;
  }

  pub IsPagetable-untouched : IsPagetable s pt → IsPagetable (with_ram r s) pt
  IsPagetable-untouched table = record {
    root = InUse-untouched pt table.root;
    tables = λ i hi h.
        subst (InUse (with_ram r s)) (sym (second-untouched i hi))
          (InUse-untouched _ (table.tables i hi (was i hi h)));
    apart = λ i hi h e. table.apart i hi (was i hi h) (sym (second-untouched i hi) ∙ e);
    distinct = λ i j hi hj hasi hasj e.
        table.distinct i j hi hj (was i hi hasi) (was j hj hasj)
          (sym (second-untouched i hi) ∙ (e ∙ second-untouched j hj));
  }

  pub IsOutside-untouched : (c : ℕ) → IsOutside s pt c → IsOutside (with_ram r s) pt c
  IsOutside-untouched c out = record {
    root = out.root;
    tables = λ i hi h.
        subst (λ a. (c < a) ⊎ (a + page_size ≤ c)) (sym (second-untouched i hi))
          (out.tables i hi (was i hi h));
  }
