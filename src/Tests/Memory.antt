-- ===== src/Tests/Memory.antt =====
-- kernel/mem.c at concrete inputs.
use wl_00_rv.Prelude.{
  ℕ, ◌+◌, ◌-◌, ◌%◌, ◌≡◌, ◌≢◌, ◌≤◌, ◌<◌, ◌⊎◌, refl, arith, [], ◌∷◌, if◌then◌else◌,
}
use wl_00_rv.Machine.{Kernel, ok, panic}
use wl_00_rv.Spinlock.Critical.{settled}
use wl_00_rv.Mem.{
  num_pages, page_size, mem_end, memmove, kalloc, kfree, set_page, init_bitmap, scan,
}
use wl_00_rv.Mem.Pages.{page_addr}
use wl_00_rv.Mem.Bytes.{within, memmove-within}
use wl_00_rv.Mem.Alloc.{kalloc_lem, kalloc-allocated}
use wl_00_rv.Mem.Free.{zero_page, kfree_outcomes}
use wl_00_rv.Mem.Init.{Initialized, init_bitmap-Initialized}
use wl_00_rv.Mem.Pool.{begin, take, Pool, Uses-Pool}
use wl_00_rv.Tests.State.{machine, machine-IsSteady}

overlap : memmove 2 0 4 (λ a. a) 5 ≡ 3
unfolding memmove
overlap = refl

memmove-within_example : memmove 2 0 4 (λ a. a) 5 ≡ (if within 2 4 5 then 0 + (5 - 2) else 5)
memmove-within_example = memmove-within 2 0 4 (λ a. a) 5

kalloc_lem_example :
    (((j : ℕ) → j < num_pages → machine.mem_bitmap j ≡ 0)
      × (kalloc machine ≡ ok 0 (settled machine)))
    ⊎ ((i : ℕ) × (i < num_pages)
        × (machine.mem_bitmap i ≢ 0)
        × ((j : ℕ) → j < i → machine.mem_bitmap j ≡ 0)
        × (kalloc machine ≡ ok (page_addr i) (set_page i 0 (settled machine))))
kalloc_lem_example = kalloc_lem machine machine-IsSteady (refl, refl)

kfree_outcomes_example :
    (page_addr 3 % page_size ≢ 0
      → kfree (page_addr 3) machine ≡ panic "kfree: address not page aligned" machine)
    × (page_addr 3 % page_size ≡ 0
        → (page_addr 3 < machine.start_page) ⊎ (mem_end ≤ page_addr 3)
        → kfree (page_addr 3) machine
          ≡ panic "kfree: address outside the allocatable range" machine)
    × ((i : ℕ)
        → i < num_pages
        → page_addr 3 ≡ page_addr i
        → machine.start_page ≤ page_addr 3
        → machine.mem_bitmap i ≢ 0
        → kfree (page_addr 3) machine
          ≡ panic "kfree: double free" (settled (zero_page (page_addr 3) machine)))
    × ((i : ℕ)
        → i < num_pages
        → page_addr 3 ≡ page_addr i
        → machine.start_page ≤ page_addr 3
        → machine.mem_bitmap i ≡ 0
        → kfree (page_addr 3) machine
          ≡ ok tt (set_page i 1 (settled (zero_page (page_addr 3) machine))))
kfree_outcomes_example = kfree_outcomes (page_addr 3) machine machine-IsSteady (refl, refl)

abbrev cold : Kernel
cold = record machine { mem_bitmap = λ _. 0 }

init_bitmap-Initialized_example :
    (t : Kernel) × (init_bitmap 0x8001_0123 cold ≡ ok tt t) × Initialized 0x8001_0123 cold t
init_bitmap-Initialized_example =
    init_bitmap-Initialized 0x8001_0123 cold (omega arith) (omega arith)
      (record { wide = omega arith; quiet = λ h. absurd (h refl) }) (λ j. refl)

-- The first page that the machine hands out.
first : kalloc machine ≡ ok (page_addr 0) (set_page 0 0 (settled machine))
unfolding scan
first = kalloc-allocated machine machine-IsSteady (refl, refl)

Uses-Pool_example : Pool machine (0 ∷ []) (set_page 0 0 (settled machine))
Uses-Pool_example = Uses-Pool machine-IsSteady (refl, refl) (take 0 begin first)
