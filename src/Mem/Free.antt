-- ===== src/Mem/Free.antt =====
-- kfree of kernel/mem.c on each branch.
use wl_00_rv.Prelude.{
  ℕ, ◌%◌, ◌≡◌, ◌≢◌, ◌≤◌, ◌<◌, ◌⊎◌, refl, ap, ◌∙◌, arith, false, ◌!=◌, if◌then◌else◌, ltb, leb, ◌||◌,
}
use wl_00_rv.Machine.{Kernel, ok, panic}
use wl_00_rv.Spinlock.{mem_lock}
use wl_00_rv.Spinlock.Critical.{IsSteady, IsFree, entered, settled, lock-entered, unlock-entered}
use wl_00_rv.Mem.{num_pages, page_size, mem_end, memset, publish, page_idx, kfree, set_page}
use wl_00_rv.Mem.Pages.{page_addr, page_idx-page_addr}

-- `s` with the page at `pa` filled with zeros
abbrev pub zero_page : ℕ → Kernel → Kernel
zero_page pa s = record s { ram = memset pa 0 page_size s.ram }

-- The critical section of kfree on page `i`.
publish_lem :
    (i : ℕ) (s : Kernel)
    → IsSteady s
    → IsFree mem_lock s
    → publish i (entered mem_lock s) ≡ (
        if s.mem_bitmap i != 0
        then panic "kfree: double free" (settled s)
        else ok tt (set_page i 1 (settled s)))
unfolding publish entered settled
publish_lem i s steady free =
    rw
      (
        unlock-entered mem_lock s s steady free,
        unlock-entered mem_lock s (set_page i 1 s) steady free,
      )
      refl

-- Behind the two tests of the address.
kfree_section :
    (pa i : ℕ) (s : Kernel)
    → IsSteady s
    → IsFree mem_lock s
    → pa % page_size ≡ 0
    → s.start_page ≤ pa
    → pa < mem_end
    → page_idx pa ≡ i
    → kfree pa s ≡ (
        if s.mem_bitmap i != 0
        then panic "kfree: double free" (settled (zero_page pa s))
        else ok tt (set_page i 1 (settled (zero_page pa s))))
unfolding kfree
kfree_section pa i s steady free aligned low high e =
    let inside : (ltb pa s.start_page || leb mem_end pa) ≡ false = ground arith in
    rw (aligned, inside, lock-entered mem_lock (zero_page pa s) steady.wide free, e)
      (publish_lem i (zero_page pa s) (record { wide = steady.wide; quiet = steady.quiet }) free)

-- What kfree does with each address: it panics on one that is not page aligned, on one outside the
-- allocatable range, and on a page that is free already; any other page it fills with zeros and
-- marks as free.
pub kfree_outcomes :
    (pa : ℕ) (s : Kernel)
    → IsSteady s
    → IsFree mem_lock s
    → (pa % page_size ≢ 0 → kfree pa s ≡ panic "kfree: address not page aligned" s)
      × (pa % page_size ≡ 0
          → (pa < s.start_page) ⊎ (mem_end ≤ pa)
          → kfree pa s ≡ panic "kfree: address outside the allocatable range" s)
      × ((i : ℕ)
          → i < num_pages
          → pa ≡ page_addr i
          → s.start_page ≤ pa
          → s.mem_bitmap i ≢ 0
          → kfree pa s ≡ panic "kfree: double free" (settled (zero_page pa s)))
      × ((i : ℕ)
          → i < num_pages
          → pa ≡ page_addr i
          → s.start_page ≤ pa
          → s.mem_bitmap i ≡ 0
          → kfree pa s ≡ ok tt (set_page i 1 (settled (zero_page pa s))))
kfree_outcomes pa s steady free = (
  λ odd. unfold kfree in ground arith,
  λ aligned out. unfold kfree in rw aligned (ground arith),
  λ i hi e low taken.
      let index : page_idx pa ≡ i = ap page_idx e ∙ page_idx-page_addr i hi in
      kfree_section pa i s steady free (omega arith) low (omega arith) index ∙ ground arith,
  λ i hi e low taken.
      let index : page_idx pa ≡ i = ap page_idx e ∙ page_idx-page_addr i hi in
      kfree_section pa i s steady free (omega arith) low (omega arith) index ∙ rw taken,
)
