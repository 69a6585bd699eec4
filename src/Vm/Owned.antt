-- ===== src/Vm/Owned.antt =====
-- The pages that a range of user addresses is mapped to, and what it means that they were released.
use wl_00_rv.Prelude.{
  ℕ, suc, ◌+◌, ◌/◌, ◌%◌, ◌^◌, ◌≡◌, ◌≢◌, ◌≤◌, ◌<◌, ◌⊎◌, inl, inr, refl, ap, subst, ◌∙◌, sym, arith,
  true, false, Bool-cases,
}
use wl_00_rv.Machine.{Kernel}
use wl_00_rv.Mem.{page_size, num_pages}
use wl_00_rv.Mem.Bytes.{within}
use wl_00_rv.Mem.Pages.{page_addr}
use wl_00_rv.Vm.Defs.{pte2pa}
use wl_00_rv.Vm.Rest.{IsRestKept, IsRestKept-refl, IsRestKept-then}
use wl_00_rv.Vm.Tables.{upper, second, HasTable, entry, IsPagetable, IsOutside, IsReady}
use wl_00_rv.Vm.Range.{inside}

-- A mapped address of the range.
abbrev pub IsMapped : (s : Kernel) (pt va n a : ℕ) → Type 0
IsMapped s pt va n a = (a < 2 ^ 32) × (inside va n a ≡ true) × (entry s.ram pt a % 2 ≡ 1)

abbrev pub target : (s : Kernel) (pt a : ℕ) → ℕ
target s pt a = pte2pa (entry s.ram pt a)

-- Each page of the range that is mapped is mapped to a page of its own, which the allocator has
-- handed out and which is no page of the table.
pub record Owns (s : Kernel) (pt va n : ℕ) : Type 0 where
  pub page :
      (a : ℕ)
      → IsMapped s pt va n a
      → (k : ℕ) × (k < num_pages)
        × (target s pt a ≡ page_addr k)
        × (s.start_page ≤ page_addr k)
        × (s.mem_bitmap k ≡ 0)
  pub root : (a : ℕ) → IsMapped s pt va n a → target s pt a ≢ pt
  pub tables :
      (a i : ℕ)
      → IsMapped s pt va n a
      → i < 1024
      → HasTable s.ram pt i
      → second s.ram pt i ≢ target s pt a
  pub distinct :
      (a b : ℕ)
      → IsMapped s pt va n a
      → IsMapped s pt va n b
      → target s pt a ≡ target s pt b
      → a / page_size ≡ b / page_size

-- From `s` to `t` the `n` pages from `va` on were unmapped and given back to the allocator, and
-- nothing else changed: no other translation, no other page of the allocator, and no byte but those
-- of the table and of the pages given back.
pub record Released (s t : Kernel) (pt va n : ℕ) : Type 0 where
  pub ready : IsReady t
  pub table : IsPagetable t pt
  pub kept_rest : IsRestKept s t
  pub start : t.start_page ≡ s.start_page
  pub uppers : (i : ℕ) → i < 1024 → upper t.ram pt i ≡ upper s.ram pt i
  pub unmapped : (a : ℕ) → a < 2 ^ 32 → inside va n a ≡ true → entry t.ram pt a % 2 ≡ 0
  pub others : (a : ℕ) → a < 2 ^ 32 → inside va n a ≡ false → entry t.ram pt a ≡ entry s.ram pt a
  pub freed : (a k : ℕ) → IsMapped s pt va n a → target s pt a ≡ page_addr k → t.mem_bitmap k ≡ 1
  pub kept :
      (k : ℕ)
      → ((a : ℕ) → IsMapped s pt va n a → target s pt a ≢ page_addr k)
      → t.mem_bitmap k ≡ s.mem_bitmap k
  pub bytes :
      (c : ℕ)
      → IsOutside s pt c
      → ((a : ℕ) → IsMapped s pt va n a → within (target s pt a) page_size c ≡ false)
      → t.ram c ≡ s.ram c

pub Released-zero : (s : Kernel) (pt va : ℕ) → IsReady s → IsPagetable s pt → Released s s pt va 0
Released-zero s pt va ready table = record {
  ready = ready;
  table = table;
  kept_rest = IsRestKept-refl s;
  start = refl;
  uppers = λ i hi. refl;
  unmapped = λ a ha i. ground arith;
  others = λ a ha i. refl;
  freed = λ a k m e. ground (arith, m);
  kept = λ k free. refl;
  bytes = λ c out free. refl;
}

-- A part of the range.
pub Owns-narrow :
    (s : Kernel) (pt va n vb m : ℕ)
    → ((a : ℕ) → inside vb m a ≡ true → inside va n a ≡ true)
    → Owns s pt va n
    → Owns s pt vb m
Owns-narrow s pt va n vb m part own =
    let wider = λ (a : ℕ) (h : IsMapped s pt vb m a).
      let all : IsMapped s pt va n a = (h.0, part a h.1, h.2) in all in
    record {
      page = λ a h. own.page a (wider a h);
      root = λ a h. own.root a (wider a h);
      tables = λ a i h. own.tables a i (wider a h);
      distinct = λ a b ha hb. own.distinct a b (wider a ha) (wider b hb);
    }

-- The pages of a range are kept while those of another are released.
module _ (s t : Kernel) (pt va n vb m : ℕ) (out : Released s t pt va n)
    (other : (a : ℕ) → inside vb m a ≡ true → inside va n a ≡ false) where
  pub IsMapped-kept : (a : ℕ) → IsMapped t pt vb m a → IsMapped s pt vb m a
  IsMapped-kept a (ha, i, h) = (ha, i, ap (λ x. x % 2) (sym (out.others a ha (other a i))) ∙ h)

  pub target-kept : (a : ℕ) → IsMapped t pt vb m a → target t pt a ≡ target s pt a
  target-kept a (ha, i, h) = ap pte2pa (out.others a ha (other a i))

  pub Owns-kept :
      ((a b : ℕ) → IsMapped s pt va n a → IsMapped s pt vb m b → target s pt a ≢ target s pt b)
      → Owns s pt vb m
      → Owns t pt vb m
  Owns-kept apart own = record {
    page = λ a h.
        let (k, hk, e, low, taken) = own.page a (IsMapped-kept a h) in
        (
          k,
          hk,
          target-kept a h ∙ e,
          subst (λ x. x ≤ page_addr k) (sym out.start) low,
          out.kept k (λ b hb same. apart b a hb (IsMapped-kept a h) (same ∙ sym e)) ∙ taken,
        );
    root = λ a h e. own.root a (IsMapped-kept a h) (sym (target-kept a h) ∙ e);
    tables = λ a i h hi has e.
        own.tables a i (IsMapped-kept a h) hi (ap (λ x. x % 2) (sym (out.uppers i hi)) ∙ has)
          (ap pte2pa (sym (out.uppers i hi)) ∙ (e ∙ target-kept a h));
    distinct = λ a b ha hb e.
        own.distinct a b (IsMapped-kept a ha) (IsMapped-kept b hb)
          (sym (target-kept a ha) ∙ (e ∙ target-kept b hb));
  }

  pub IsOutside-kept : (c : ℕ) → IsOutside s pt c → IsOutside t pt c
  IsOutside-kept c far = record {
    root = far.root;
    tables = λ i hi h.
        subst (λ x. (c < x) ⊎ (x + page_size ≤ c)) (ap pte2pa (sym (out.uppers i hi)))
          (far.tables i hi (ap (λ x. x % 2) (sym (out.uppers i hi)) ∙ h));
  }

-- The first page released, then the rest.
module _ (s t : Kernel) (pt va n : ℕ) (aligned : va % page_size ≡ 0)
    (first : Released s t pt va 1) where
  past : (a : ℕ) → inside (va + page_size) n a ≡ true → inside va 1 a ≡ false
  past a i = ground arith

  within_all : (a : ℕ) → inside (va + page_size) n a ≡ true → inside va (suc n) a ≡ true
  within_all a i = ground arith

  IsMapped-later : (a : ℕ) → IsMapped t pt (va + page_size) n a → IsMapped s pt va (suc n) a
  IsMapped-later a m =
      let (ha, i, h) = IsMapped-kept s t pt va 1 (va + page_size) n first past a m in
      (ha, within_all a i, h)

  IsMapped-first : (a : ℕ) → IsMapped s pt va 1 a → IsMapped s pt va (suc n) a
  IsMapped-first a (ha, i, m) = (ha, ground arith, m)

  target-later : (a : ℕ) → IsMapped t pt (va + page_size) n a → target t pt a ≡ target s pt a
  target-later a m = target-kept s t pt va 1 (va + page_size) n first past a m

  -- A mapped address of the range lies in the first page or in the rest.
  IsMapped-cases :
      (a : ℕ)
      → IsMapped s pt va (suc n) a
      → IsMapped s pt va 1 a ⊎ IsMapped t pt (va + page_size) n a
  IsMapped-cases a (ha, i, m) = elim (Bool-cases (inside va 1 a)) [
    | inl e ↦ inl (ha, e, m)
    | inr e ↦
        let i' : inside (va + page_size) n a ≡ true = ground arith in
        inr (ha, i', ap (λ x. x % 2) (first.others a ha (past a i')) ∙ m)
  ]

  -- The first page and the later pages are mapped to different pages.
  target-ne :
      Owns s pt va (suc n)
      → (b a : ℕ) → IsMapped s pt va 1 b
      → IsMapped s pt (va + page_size) n a
      → target s pt b ≢ target s pt a
  target-ne own b a f (ha, i, m) same =
      let pages = own.distinct b a (IsMapped-first b f) (ha, within_all a i, m) same in
      ground (arith, pages, f)

  pub Owns-later : Owns s pt va (suc n) → Owns t pt (va + page_size) n
  Owns-later own =
      Owns-kept s t pt va 1 (va + page_size) n first past (target-ne own)
        (Owns-narrow s pt va (suc n) (va + page_size) n within_all own)

  pub Released-suc :
      (u : Kernel)
      → Owns s pt va (suc n)
      → Released t u pt (va + page_size) n
      → Released s u pt va (suc n)
  Released-suc u own rest = record {
    ready = rest.ready;
    table = rest.table;
    kept_rest = IsRestKept-then s t u first.kept_rest rest.kept_rest;
    start = rest.start ∙ first.start;
    uppers = λ i hi. rest.uppers i hi ∙ first.uppers i hi;
    unmapped = λ a ha i. elim (Bool-cases (inside (va + page_size) n a)) [
      | inl e ↦ rest.unmapped a ha e
      | inr e ↦ ap (λ x. x % 2) (rest.others a ha e) ∙ first.unmapped a ha (ground arith)
    ];
    others = λ a ha i. rest.others a ha (ground arith) ∙ first.others a ha (ground arith);
    freed = λ a k m e. elim (IsMapped-cases a m) [
      | inl f ↦
          rest.kept k (λ b mb same.
            target-ne own a b f (IsMapped-kept s t pt va 1 (va + page_size) n first past b mb)
              (e ∙ (sym same ∙ target-later b mb)))
          ∙ first.freed a k f e
      | inr g ↦ rest.freed a k g (target-later a g ∙ e)
    ];
    kept = λ k no.
        rest.kept k (λ a m same. no a (IsMapped-later a m) (sym (target-later a m) ∙ same))
        ∙ first.kept k (λ a f. no a (IsMapped-first a f));
    bytes = λ c out no.
        rest.bytes c (IsOutside-kept s t pt va 1 (va + page_size) n first past c out)
          (λ a m. ap (λ x. within x page_size c) (target-later a m) ∙ no a (IsMapped-later a m))
        ∙ first.bytes c out (λ a f. no a (IsMapped-first a f));
  }
