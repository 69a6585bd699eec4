-- ===== src/Tests/Copies.antt =====
-- A page table that maps one user page, and the copies from and to it.
use wl_00_rv.Prelude.{
  ℕ, ◌+◌, ◌*◌, ◌/◌, ◌%◌, ◌≡◌, ◌≢◌, ◌^◌, ◌<◌, ◌≤◌, inr, refl, arith, ◌==◌, ◌&&◌, ◌∙◌, ap, true,
  false,
}
use wl_00_rv.Machine.{Kernel, ok}
use wl_00_rv.Ram.{load_word}
use wl_00_rv.Mem.{page_size}
use wl_00_rv.Vm.Defs.{pa2pte, pte2pa, store, pte_r, pte_w, vpn1, vpn0}
use wl_00_rv.Vm.Copy.{find_user_pa, copyin, copyinstr, copyout}
use wl_00_rv.Vm.Entry.{leaf}
use wl_00_rv.Vm.Tables.{entry, HasTable, IsPagetable, IsOutside, IsReady}
use wl_00_rv.Vm.Grow.{opened, link_fields, entry-opened}
use wl_00_rv.Vm.Extends.{Extends}
use wl_00_rv.Vm.Find.{Extends-opened}
use wl_00_rv.Vm.Leaf.{at_leaf, entry-stored, Extends-stored}
use wl_00_rv.Vm.Map.{same_page}
use wl_00_rv.Vm.Access.{user_address, translated, bit, find_user_pa-translated}
use wl_00_rv.Vm.Untouched.{with_ram}
use wl_00_rv.Vm.Copyin.{copyin-Outcome}
use wl_00_rv.Vm.Copyin.Round.{IsBuffer, Outcome}
use wl_00_rv.Vm.Copyinstr.{copyinstr-Found}
use wl_00_rv.Vm.Copyinstr.Round.{Found}
use wl_00_rv.Vm.Copyout.{copyout-Written}
use wl_00_rv.Vm.Copyout.Round.{IsTarget, Written}
use wl_00_rv.Tests.Paging.{empty, root, empty-IsReady, empty-IsPagetable, not_mapped}

-- The second page of RAM is the second-level table of the address 0x1000.
abbrev pub linked_table : Kernel
linked_table = opened empty root 0x1000 1

no_root : load_word empty.ram (root + 4 * vpn1 0x1000) % 2 ≡ 0
unfolding load_word
no_root = refl

pub linked : Extends empty linked_table root
linked =
    Extends-opened empty root 0x1000 1 empty-IsReady empty-IsPagetable (omega arith) (omega arith)
      no_root

pub has_table : HasTable linked_table.ram root (vpn1 0x1000)
has_table =
    (link_fields empty root 0x1000 1 empty-IsPagetable (omega arith) (omega arith) no_root).0

-- The user page 0x1000 is the page 0x80005000, to read and write.
abbrev pub pte : ℕ
pte = leaf 0x8000_5000 0x17

abbrev pub mapped : Kernel
mapped = store (at_leaf linked_table root 0x1000 pte linked.table has_table) pte linked_table

pub mapped-IsPagetable : IsPagetable mapped root
mapped-IsPagetable =
    (Extends-stored linked_table root 0x1000 pte linked.table has_table linked.ready).table

pub mapped-IsReady : IsReady mapped
mapped-IsReady =
    (Extends-stored linked_table root 0x1000 pte linked.table has_table linked.ready).ready

-- Every address of the page has its entry.
pub mapped-entry : (a : ℕ) → a / page_size ≡ 1 → entry mapped.ram root a ≡ pte
unfolding pa2pte
mapped-entry a page =
    let same : ((vpn1 0x1000 == vpn1 a) && (vpn0 0x1000 == vpn0 a)) ≡ true =
      same_page 0x1000 a (omega arith) (omega arith) ∙ ground arith in
    entry-stored linked_table root 0x1000 pte linked.table has_table (omega arith) a ∙ rw same refl

-- No other address is mapped.
pub mapped-rest : (a : ℕ) → a < 2 ^ 32 → a / page_size ≢ 1 → entry mapped.ram root a % 2 ≡ 0
unfolding pa2pte
mapped-rest a ha other =
    let apart : ((vpn1 0x1000 == vpn1 a) && (vpn0 0x1000 == vpn0 a)) ≡ false =
      same_page 0x1000 a (omega arith) ha ∙ ground arith in
    let kept : entry mapped.ram root a ≡ entry linked_table.ram root a =
      entry-stored linked_table root 0x1000 pte linked.table has_table (omega arith) a
      ∙ rw apart refl in
    ap (λ x. x % 2)
      (kept
        ∙ entry-opened empty root 0x1000 1 empty-IsPagetable (omega arith) (omega arith) no_root a)
    ∙ not_mapped a

readable : (i : ℕ) → i < 16 → user_address mapped.ram root (0x1004 + i) pte_r ≡ 0x8000_5004 + i
unfolding user_address pa2pte pte2pa
readable i hi = rw (mapped-entry (0x1004 + i) (omega arith)) (omega arith)

writable : (i : ℕ) → i < 16 → user_address mapped.ram root (0x1004 + i) pte_w ≡ 0x8000_5004 + i
unfolding user_address pa2pte pte2pa
writable i hi = rw (mapped-entry (0x1004 + i) (omega arith)) (omega arith)

-- Everything behind the second page lies outside the table.
pub outside : (c : ℕ) → 0x8000_2000 ≤ c → IsOutside mapped root c
outside c hc = record {
  root = inr (omega arith);
  tables = λ i hi has.
      let used = mapped-IsPagetable.tables i hi has in
      ground (arith, used.taken, used.aligned, used.low);
}

buffer : IsBuffer mapped root 0x8000_6000 0x1004 3
buffer = record {
  outside = λ c lo hi. outside c (omega arith);
  apart = λ i hi. omega (arith, readable i (omega arith));
}

user : IsTarget mapped root 0x1004 0x8000_6000 3
user = record {
  outside = λ i hi real. outside _ (omega (arith, writable i (omega arith)));
  apart = λ i hi real. omega (arith, writable i (omega arith));
  distinct = λ i j hij hj real. omega (arith, writable i (omega arith), writable j (omega arith));
}

copyin-Outcome_example :
    (r : ℕ) × (ram : ℕ → ℕ) × (copyin root 0x8000_6000 0x1004 3 mapped ≡ ok r (with_ram ram mapped))
    × Outcome mapped root 0x8000_6000 0x1004 3 r ram
copyin-Outcome_example =
    copyin-Outcome mapped root 0x8000_6000 0x1004 3 mapped-IsPagetable buffer (omega arith)

copyinstr-Found_example :
    (r : ℕ) × (ram : ℕ → ℕ) × (copyinstr root 0x8000_6000 0x1004 3 mapped
      ≡ ok r (with_ram ram mapped))
    × Found mapped root 0x8000_6000 0x1004 3 r ram
copyinstr-Found_example =
    copyinstr-Found mapped root 0x8000_6000 0x1004 3 mapped-IsPagetable buffer (omega arith)

copyout-Written_example :
    (r : ℕ) × (ram : ℕ → ℕ) × (copyout root 0x1004 0x8000_6000 3 mapped
      ≡ ok r (with_ram ram mapped))
    × Written mapped root 0x1004 0x8000_6000 3 r ram
copyout-Written_example =
    copyout-Written mapped root 0x1004 0x8000_6000 3 mapped-IsPagetable user (omega arith)

find_user_pa-translated_example :
    (find_user_pa root 0x1004 0 mapped
      ≡ ok
          (translated
            (entry mapped.ram root 0x1004)
            0x1004
            (bit (entry mapped.ram root 0x1004) 0 && bit (entry mapped.ram root 0x1004) 4))
          mapped)
    × (find_user_pa root 0x1004 pte_r mapped
        ≡ ok
            (translated (entry mapped.ram root 0x1004) 0x1004 (
              bit (entry mapped.ram root 0x1004) 0
              && bit (entry mapped.ram root 0x1004) 4
              && bit (entry mapped.ram root 0x1004) 1))
            mapped)
    × (find_user_pa root 0x1004 pte_w mapped
        ≡ ok
            (translated (entry mapped.ram root 0x1004) 0x1004 (
              bit (entry mapped.ram root 0x1004) 0
              && bit (entry mapped.ram root 0x1004) 4
              && bit (entry mapped.ram root 0x1004) 2))
            mapped)
find_user_pa-translated_example = find_user_pa-translated root 0x1004 mapped mapped-IsPagetable
