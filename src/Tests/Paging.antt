-- ===== src/Tests/Paging.antt =====
-- A page table with nothing in it, and the theorems on it.
use wl_00_rv.Prelude.{ℕ, ◌*◌, ◌%◌, ◌≡◌, ◌≢◌, ◌<◌, ◌⊎◌, refl, arith, ◌==◌, if◌then◌else◌}
use wl_00_rv.Machine.{Kernel, ok}
use wl_00_rv.Mem.{page_size, num_pages, mem_start}
use wl_00_rv.Vm.Defs.{mappage, mappages}
use wl_00_rv.Ram.{load_word}
use wl_00_rv.Vm.Tables.{entry, HasTable, IsPagetable, IsReady}
use wl_00_rv.Vm.Extends.{Extends, SameEntries}
use wl_00_rv.Vm.Map.{Mapped, mappage-Mapped}
use wl_00_rv.Vm.Range.{Outcome}
use wl_00_rv.Vm.Mappages.{mappages-Outcome}
use wl_00_rv.Tests.State.{machine}

-- The first page of RAM is the root, and all of RAM is 0.
abbrev pub empty : Kernel
empty = record machine { ram = λ _. 0; mem_bitmap = λ i. if i == 0 then 0 else 1 }

abbrev pub root : ℕ
root = mem_start

pub empty-IsReady : IsReady empty
empty-IsReady = record {
  steady = record { wide = omega arith; quiet = λ h. absurd (h refl) };
  memory = (refl, refl);
  console = (refl, refl);
  calm = refl;
}

pub no_table : (i : ℕ) → HasTable empty.ram root i → ⊥
unfolding load_word
no_table i has = omega arith

pub empty-IsPagetable : IsPagetable empty root
empty-IsPagetable = record {
  root = record { aligned = refl; low = omega arith; high = omega arith; taken = refl };
  tables = λ i hi has. absurd (no_table i has);
  apart = λ i hi has. absurd (no_table i has);
  distinct = λ i j hi hj has. absurd (no_table i has);
}

pub not_mapped : (a : ℕ) → entry empty.ram root a % 2 ≡ 0
unfolding entry load_word
not_mapped a = refl

mappage-Mapped_example :
    (r : ℕ) × (t : Kernel) × (mappage root 0x1000 0x8000_5000 0x17 empty ≡ ok r t)
    × Extends empty t root
    × (((r ≡ 0) × ((j : ℕ) → j < num_pages → empty.mem_bitmap j ≡ 0) × SameEntries empty t root)
        ⊎ ((r ≢ 0) × Mapped empty t root 0x1000 0x8000_5000 0x17))
mappage-Mapped_example =
    mappage-Mapped root 0x1000 0x8000_5000 0x17 empty empty-IsReady empty-IsPagetable refl
      (omega arith) refl (omega arith) (omega arith) (not_mapped 0x1000)

mappages-Outcome_example :
    (r : ℕ) × (t : Kernel) × (mappages root 0x1000 0x8000_5000 (3 * page_size) 0x17 empty ≡ ok r t)
    × Outcome empty t root 0x1000 3 0x8000_5000 0x17 r
mappages-Outcome_example =
    mappages-Outcome root 0x1000 0x8000_5000 3 0x17 empty empty-IsReady empty-IsPagetable refl refl
      (omega arith) (omega arith) (omega arith) (omega arith) (omega arith) λ a ha i. not_mapped a
