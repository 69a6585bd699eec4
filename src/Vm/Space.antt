-- ===== src/Vm/Space.antt =====
-- The pages of a user address space, and what is left of it behind uvmunmap and freewalk.
use wl_00_rv.Prelude.{
  ℕ, ◌+◌, ◌*◌, ◌-◌, ◌%◌, ◌≡◌, ◌≢◌, ◌≤◌, ◌<◌, ◌⊎◌, inl, inr, ap, subst, ◌∙◌, sym, arith, true, false,
}
use wl_00_rv.Machine.{Kernel}
use wl_00_rv.Mem.{page_size}
use wl_00_rv.Mem.Bytes.{within}
use wl_00_rv.Mem.Pages.{page_addr}
use wl_00_rv.Vm.Defs.{pte2pa, user_base, user_stack_top}
use wl_00_rv.Vm.Tables.{upper, second, IsOutside}
use wl_00_rv.Vm.Range.{inside}
use wl_00_rv.Vm.Owned.{IsMapped, IsMapped-kept, IsOutside-kept, target, target-kept, Owns, Released}
use wl_00_rv.Vm.Rest.{IsRestKept-then}
use wl_00_rv.Vm.Freed.{Freed}
use wl_00_rv.Vm.Freewalk.{TablePage, IsAllocated, page_number}

-- The user stack is the page from here on.
abbrev pub stack_base : ℕ
stack_base = user_stack_top - page_size

-- The pages of an address space with `n` pages of memory below the stack: the root, the
-- second-level tables, and the pages that the memory and the stack are mapped to.
pub data UserPage (s : Kernel) (pt n k : ℕ) : Type 0 where
  root_page : page_addr k ≡ pt → UserPage s pt n k
  table_page : TablePage s pt 0 1024 k → UserPage s pt n k
  memory_page :
      (a : ℕ) → IsMapped s pt user_base n a → target s pt a ≡ page_addr k → UserPage s pt n k
  stack_page :
      (a : ℕ) → IsMapped s pt stack_base 1 a → target s pt a ≡ page_addr k → UserPage s pt n k

-- An address space that nothing else shares pages with.
pub record IsUserSpace (s : Kernel) (pt n : ℕ) : Type 0 where
  pub tables : IsAllocated s pt
  pub below : user_base + n * page_size ≤ stack_base
  pub memory : Owns s pt user_base n
  pub stack : Owns s pt stack_base 1
  pub apart :
      (a b : ℕ)
      → IsMapped s pt user_base n a
      → IsMapped s pt stack_base 1 b
      → target s pt a ≢ target s pt b

-- Behind the two calls of uvmunmap.
module _ (s t u : Kernel) (pt n : ℕ) (space : IsUserSpace s pt n)
    (first : Released s t pt user_base n) (next : Released t u pt stack_base 1) where
  other : (a : ℕ) → inside stack_base 1 a ≡ true → inside user_base n a ≡ false
  other a i = ground (arith, space.below)

  upper-u : (i : ℕ) → i < 1024 → upper u.ram pt i ≡ upper s.ram pt i
  upper-u i hi = next.uppers i hi ∙ first.uppers i hi

  TablePage-u : (k : ℕ) → TablePage u pt 0 1024 k → TablePage s pt 0 1024 k
  TablePage-u k (j, (lo, hi, has), e) =
      let same = upper-u j hi in
      (j, (lo, hi, ap (λ x. x % 2) (sym same) ∙ has), ap pte2pa (sym same) ∙ e)

  TablePage-s : (k : ℕ) → TablePage s pt 0 1024 k → TablePage u pt 0 1024 k
  TablePage-s k (j, (lo, hi, has), e) =
      let same = upper-u j hi in (j, (lo, hi, ap (λ x. x % 2) same ∙ has), ap pte2pa same ∙ e)

  pub IsAllocated-u : IsAllocated u pt
  IsAllocated-u =
      let start = next.start ∙ first.start in
      record {
        table = next.table;
        root = subst (λ x. x ≤ pt) (sym start) space.tables.root;
        tables = λ i hi has.
            let same = upper-u i hi in
            let low = space.tables.tables i hi (ap (λ x. x % 2) (sym same) ∙ has) in
            omega (arith, low, start, ap pte2pa same);
      }

  -- A page that the stack is mapped to in `t`.
  stack-t :
      (a k : ℕ)
      → IsMapped t pt stack_base 1 a
      → target t pt a ≡ page_addr k
      → IsMapped s pt stack_base 1 a × (target s pt a ≡ page_addr k)
  stack-t a k m e = (
    IsMapped-kept s t pt user_base n stack_base 1 first other a m,
    sym (target-kept s t pt user_base n stack_base 1 first other a m) ∙ e,
  )

  -- The memory and the stack lie on no page of the table.
  memory-apart :
      (a k : ℕ)
      → IsMapped s pt user_base n a
      → target s pt a ≡ page_addr k
      → (TablePage u pt 0 1024 k ⊎ (page_addr k ≡ pt))
      → ⊥
  memory-apart a k m e r = elim r [
    | inl p ↦
        let (j, (lo, hi, has), e') = TablePage-u k p in
        space.memory.tables a j m hi has (e' ∙ sym e)
    | inr p ↦ space.memory.root a m (e ∙ p)
  ]

  stack-apart :
      (a k : ℕ)
      → IsMapped s pt stack_base 1 a
      → target s pt a ≡ page_addr k
      → (TablePage u pt 0 1024 k ⊎ (page_addr k ≡ pt))
      → ⊥
  stack-apart a k m e r = elim r [
    | inl p ↦
        let (j, (lo, hi, has), e') = TablePage-u k p in space.stack.tables a j m hi has (e' ∙ sym e)
    | inr p ↦ space.stack.root a m (e ∙ p)
  ]

  stack-s :
      (a k : ℕ)
      → IsMapped s pt stack_base 1 a
      → target s pt a ≡ page_addr k
      → IsMapped t pt stack_base 1 a × (target t pt a ≡ page_addr k)
  stack-s a k (ha, i, m) e =
      let same = first.others a ha (other a i) in
      ((ha, i, ap (λ x. x % 2) same ∙ m), ap pte2pa same ∙ e)

  -- A byte outside every page of the address space.
  module _ (c : ℕ)
      (far : (k : ℕ) → UserPage s pt n k → within (page_addr k) page_size c ≡ false) where
    outside : IsOutside s pt c
    outside = record {
      root =
          let (k, real, e, taken) = page_number s pt space.tables.table.root in
          let away = far k (root_page (sym e)) in ground (arith, e, away);
      tables = λ i hi has.
          let (k, real, e, taken) =
            page_number s (second s.ram pt i) (space.tables.table.tables i hi has) in
          let away = far k (table_page (i, (omega arith, hi, has), e)) in ground (arith, e, away);
    }

    far_memory : (a : ℕ) → IsMapped s pt user_base n a → within (target s pt a) page_size c ≡ false
    far_memory a m =
        let (k, real, e, low, taken) = space.memory.page a m in
        ap (λ x. within x page_size c) e ∙ far k (memory_page a m e)

    far_stack : (a : ℕ) → IsMapped t pt stack_base 1 a → within (target t pt a) page_size c ≡ false
    far_stack a m =
        let (k, real, e, low, taken) =
          space.stack.page a (IsMapped-kept s t pt user_base n stack_base 1 first other a m) in
        let same = target-kept s t pt user_base n stack_base 1 first other a m in
        ap (λ x. within x page_size c) (same ∙ e)
        ∙ far k (stack_page a (IsMapped-kept s t pt user_base n stack_base 1 first other a m) e)

    unmapped_bytes : u.ram c ≡ s.ram c
    unmapped_bytes =
        next.bytes c (IsOutside-kept s t pt user_base n stack_base 1 first other c outside)
          far_stack
        ∙ first.bytes c outside far_memory

  pub Freed-space :
      (v : Kernel)
      → Freed u v (λ k. TablePage u pt 0 1024 k ⊎ (page_addr k ≡ pt))
      → Freed s v (UserPage s pt n)
  Freed-space v walk = record {
    ready = walk.ready;
    kept_rest =
        IsRestKept-then s t v first.kept_rest (IsRestKept-then t u v next.kept_rest walk.kept_rest);
    start = walk.start ∙ (next.start ∙ first.start);
    freed = λ k p. elim p [
      | root_page e ↦ walk.freed k (inr e)
      | table_page q ↦ walk.freed k (inl (TablePage-s k q))
      | memory_page a m e ↦
          walk.kept k (memory-apart a k m e)
          ∙ (next.kept k (λ b mb same.
                let (mb', e') = stack-t b k mb same in space.apart a b m mb' (e ∙ sym e'))
              ∙ first.freed a k m e)
      | stack_page a m e ↦
          let (m', e') = stack-s a k m e in walk.kept k (stack-apart a k m e) ∙ next.freed a k m' e'
    ];
    kept = λ k no.
        walk.kept k
          (λ r. elim r [ inl q ↦ no (table_page (TablePage-u k q)) | inr e ↦ no (root_page e) ])
        ∙ (next.kept k (λ b mb same. let (mb', e) = stack-t b k mb same in no (stack_page b mb' e))
            ∙ first.kept k (λ a m e. no (memory_page a m e)));
    bytes = λ c far.
        walk.bytes c (λ k r. elim r [
          | inl q ↦ far k (table_page (TablePage-u k q))
          | inr e ↦ far k (root_page e)
        ])
        ∙ unmapped_bytes c far;
  }
