-- ===== src/Vm/Find.antt =====
-- find_pte of kernel/vm.c on every branch.
use wl_00_rv.Prelude.{
  ℕ, ◌+◌, ◌*◌, ◌%◌, ◌≡◌, ◌≢◌, ◌<◌, ◌⊎◌, inl, inr, refl, ap, ◌∙◌, sym, arith, true, false, ◌==◌,
  Bool-cases, codes,
}
use wl_00_rv.Prelude.Bits.{bit_and-one}
use wl_00_rv.Machine.{Kernel, ok, and_then, ◌>>=◌}
use wl_00_rv.Spinlock.Critical.{settled}
use wl_00_rv.Kprint.Output.{error-sent}
use wl_00_rv.Mem.{num_pages, kalloc, set_page}
use wl_00_rv.Mem.Alloc.{kalloc_lem}
use wl_00_rv.Mem.Pages.{page_addr}
use wl_00_rv.Vm.Defs.{vpn1, vpn0, find_pte, new_table}
use wl_00_rv.Vm.Tables.{upper, HasTable, slot, IsPagetable, IsReady}
use wl_00_rv.Vm.Grow.{
  linked, opened, InUse-opened, IsPagetable-opened, slot-opened, entry-opened, IsOutside-opened,
  opened-outside, link_fields,
}
use wl_00_rv.Vm.Extends.{
  Extends, SameEntries, Extends-refl, reported, IsReady-settled, Extends-reported, Extends-settled,
}

pub find_pte-present :
    (pt va : ℕ) (s : Kernel)
    → HasTable s.ram pt (vpn1 va)
    → find_pte pt va true s ≡ ok (slot s.ram pt va) s
unfolding find_pte slot
find_pte-present pt va s has = rw (bit_and-one (upper s.ram pt (vpn1 va)), has) refl

find_pte-missing :
    (pt va : ℕ) (s : Kernel)
    → upper s.ram pt (vpn1 va) % 2 ≡ 0
    → find_pte pt va true s ≡ (kalloc >>= new_table (pt + 4 * vpn1 va) va) s
unfolding find_pte
find_pte-missing pt va s missing = rw (bit_and-one (upper s.ram pt (vpn1 va)), missing) refl

-- What find_pte leaves behind with the result `r`.
abbrev pub Found : (s t : Kernel) (pt va r : ℕ) → Type 0
Found s t pt va r =
    Extends s t pt
    × SameEntries s t pt
    × (((r ≡ 0) × ((j : ℕ) → j < num_pages → s.mem_bitmap j ≡ 0))
        ⊎ (HasTable t.ram pt (vpn1 va) × (r ≡ slot t.ram pt va)))

find_pte-full :
    (pt va : ℕ) (s : Kernel)
    → IsReady s
    → upper s.ram pt (vpn1 va) % 2 ≡ 0
    → kalloc s ≡ ok 0 (settled s)
    → find_pte pt va true s ≡ ok 0 (reported (codes "find_pte: NULL address") (settled s))
unfolding new_table
find_pte-full pt va s ready missing full =
    let r = IsReady-settled s ready in
    find_pte-missing pt va s missing
    ∙ (ap (λ m. and_then m (new_table (pt + 4 * vpn1 va) va)) full
        ∙ ap (λ m. and_then m λ _ u. ok 0 u)
            (error-sent (codes "find_pte: NULL address") (settled s) r.calm r.steady r.console))

find_pte-opened :
    (pt va k : ℕ) (s : Kernel)
    → upper s.ram pt (vpn1 va) % 2 ≡ 0
    → kalloc s ≡ ok (page_addr k) (set_page k 0 (settled s))
    → find_pte pt va true s ≡ ok (page_addr k + 4 * vpn0 va) (opened s pt va k)
unfolding new_table linked settled
find_pte-opened pt va k s missing found =
    let real : (page_addr k == 0) ≡ false = ground arith in
    find_pte-missing pt va s missing
    ∙ (ap (λ m. and_then m (new_table (pt + 4 * vpn1 va) va)) found ∙ rw real refl)

pub Extends-opened :
    (s : Kernel) (pt va k : ℕ)
    → IsReady s
    → IsPagetable s pt
    → k < num_pages
    → s.mem_bitmap k ≢ 0
    → upper s.ram pt (vpn1 va) % 2 ≡ 0
    → Extends s (opened s pt va k) pt
unfolding settled
Extends-opened s pt va k ready table range avail missing = record {
  ready =
      let r = IsReady-settled s ready in
      record {
        steady = record { wide = r.steady.wide; quiet = r.steady.quiet };
        memory = r.memory;
        console = r.console;
        calm = r.calm;
      };
  table = IsPagetable-opened s pt va k table range avail missing;
  in_use = InUse-opened s pt va k table range avail missing;
  outside = IsOutside-opened s pt va k table range avail missing;
  same = opened-outside s pt va k table range avail missing;
}

find_pte-missing_Found :
    (pt va : ℕ) (s : Kernel)
    → IsReady s
    → IsPagetable s pt
    → upper s.ram pt (vpn1 va) % 2 ≡ 0
    → (r : ℕ) × (t : Kernel) × (find_pte pt va true s ≡ ok r t) × Found s t pt va r
unfolding settled
find_pte-missing_Found pt va s ready table missing =
    let text = codes "find_pte: NULL address" in
    elim (kalloc_lem s ready.steady ready.memory) [
      | inl (full, e) ↦ (
        0,
        reported text (settled s),
        find_pte-full pt va s ready missing e,
        (
          Extends-reported text s (settled s) pt (Extends-settled s pt ready table),
          λ a. refl,
          inl (refl, full),
        ),
      )
      | inr (k, range, avail, below, e) ↦ (
        page_addr k + 4 * vpn0 va,
        opened s pt va k,
        find_pte-opened pt va k s missing e,
        (
          Extends-opened s pt va k ready table range avail missing,
          entry-opened s pt va k table range avail missing,
          inr (
            (link_fields s pt va k table range avail missing).0,
            sym (slot-opened s pt va k table range avail missing),
          ),
        ),
      )
    ]

-- find_pte with `alloc` set always returns. Every translation stays, and it answers the address of
-- the leaf entry, or NULL with every page taken.
pub find_pte-Found :
    (pt va : ℕ) (s : Kernel)
    → IsReady s
    → IsPagetable s pt
    → (r : ℕ) × (t : Kernel) × (find_pte pt va true s ≡ ok r t) × Found s t pt va r
find_pte-Found pt va s ready table = elim (Bool-cases (upper s.ram pt (vpn1 va) % 2 == 1)) [
  | inl has ↦ (
    slot s.ram pt va,
    s,
    find_pte-present pt va s (ground arith),
    (Extends-refl s pt ready table, λ a. refl, inr (ground arith, refl)),
  )
  | inr e ↦ find_pte-missing_Found pt va s ready table (ground arith)
]
