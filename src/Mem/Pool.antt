-- ===== src/Mem/Pool.antt =====
-- The allocator over a history of calls: no page is handed out twice, and none is lost.
use wl_00_rv.Prelude.{
  ℕ, zero, suc, ◌+◌, ◌≡◌, ◌≢◌, ◌≤◌, ◌<◌, refl, arith, List, [], ◌∷◌, ◌++◌, All, length, ◌!=◌,
  if◌then◌else◌, inl, inr, ap, ◌∙◌, sym, ==_self,
}
use native.Mathlib.Decide.{dec_lt}
use wl_00_rv.Machine.{Kernel, ok, update}
use wl_00_rv.Spinlock.{mem_lock}
use wl_00_rv.Spinlock.Critical.{IsSteady, IsFree, settled, settled-IsSteady}
use wl_00_rv.Mem.{num_pages, kalloc, kfree, set_page}
use wl_00_rv.Mem.Pages.{page_addr}
use wl_00_rv.Mem.Alloc.{kalloc_lem}
use wl_00_rv.Mem.Free.{kfree_outcomes, zero_page}

-- How many of the first `n` pages are free.
unfoldable pub free_pages : ℕ → (ℕ → ℕ) → ℕ
free_pages zero bitmap = 0
free_pages (suc n) bitmap = free_pages n bitmap + (if bitmap n != 0 then 1 else 0)

-- `Uses s held t`: from `s` some calls of kalloc and kfree led to `t`, where the pages `held` have
-- been handed out and not been given back. Only a page that is held is given back.
pub data Uses (s : Kernel) : List ℕ → Kernel → Type 0 where
  begin : Uses s [] s
  take :
      {held : List ℕ} {t u : Kernel} (i : ℕ)
      → Uses s held t
      → kalloc t ≡ ok (page_addr i) u
      → Uses s (i ∷ held) u
  give :
      {t u : Kernel} (before after : List ℕ) (i : ℕ)
      → Uses s (before ++ i ∷ after) t
      → kfree (page_addr i) t ≡ ok tt u
      → Uses s (before ++ after) u

abbrev pub Fresh : ℕ → List ℕ → Type 0
Fresh i held = All (λ j. j ≢ i) held

abbrev pub AllDistinct : List ℕ → Type 0
AllDistinct [] = Unit
AllDistinct (i ∷ held) = Fresh i held × AllDistinct held

free_pages-update_of_le :
    (n i v : ℕ) (bitmap : ℕ → ℕ) → n ≤ i → free_pages n (update bitmap i v) ≡ free_pages n bitmap
unfolding free_pages
free_pages-update_of_le zero i v bitmap h = refl
free_pages-update_of_le (suc n) i v bitmap h = ground (arith, free_pages-update_of_le n i v bitmap)

free_pages-update :
    (n i v : ℕ) (bitmap : ℕ → ℕ)
    → i < n
    → free_pages n (update bitmap i v) + (if bitmap i != 0 then 1 else 0)
      ≡ free_pages n bitmap + (if v != 0 then 1 else 0)
unfolding free_pages
free_pages-update zero i v bitmap h = absurd (omega arith)
free_pages-update (suc n) i v bitmap h = elim (dec_lt i n) [
  | yes below ↦ ground (arith, free_pages-update n i v bitmap)
  | no last ↦ ground (arith, free_pages-update_of_le n i v bitmap)
]

free_pages-take :
    (n i : ℕ) (bitmap : ℕ → ℕ)
    → i < n
    → bitmap i ≢ 0
    → free_pages n (update bitmap i 0) + 1 ≡ free_pages n bitmap
free_pages-take n i bitmap h avail = ground (arith, free_pages-update n i 0 bitmap)

free_pages-give :
    (n i : ℕ) (bitmap : ℕ → ℕ)
    → i < n
    → bitmap i ≡ 0
    → free_pages n (update bitmap i 1) ≡ free_pages n bitmap + 1
free_pages-give n i bitmap h taken = ground (arith, free_pages-update n i 1 bitmap)

-- What kalloc did, from its result.
kalloc-took :
    (i : ℕ) (t u : Kernel)
    → IsSteady t
    → IsFree mem_lock t
    → kalloc t ≡ ok (page_addr i) u
    → (i < num_pages) × (t.mem_bitmap i ≢ 0) × (u ≡ set_page i 0 (settled t))
kalloc-took i t u steady free e = elim (kalloc_lem t steady free) [
  | inl (taken, null) ↦ absurd (ground arith)
  | inr (k, hi, avail, below, got) ↦
      let same : k ≡ i = ground arith in rw (← same) (hi, avail, ground arith)
]

-- What kfree of a page in use did, from its result.
kfree-gave :
    (i : ℕ) (t u : Kernel)
    → IsSteady t
    → IsFree mem_lock t
    → i < num_pages
    → t.mem_bitmap i ≡ 0
    → kfree (page_addr i) t ≡ ok tt u
    → u ≡ set_page i 1 (settled (zero_page (page_addr i) t))
kfree-gave i t u steady free hi taken e =
    let (odd, outside, double, done) = kfree_outcomes (page_addr i) t steady free in
    elim (dec_lt (page_addr i) t.start_page) [
      | yes low ↦ cc (outside (omega arith) (inl low))
      | no high ↦ cc (done i hi refl (omega arith) taken)
    ]

Fresh-of_free :
    (i : ℕ) (bitmap : ℕ → ℕ) (held : List ℕ)
    → bitmap i ≢ 0
    → All (λ j. (j < num_pages) × (bitmap j ≡ 0)) held
    → Fresh i held
Fresh-of_free i bitmap [] avail h = tt
Fresh-of_free i bitmap (j ∷ held) avail (h, hs) =
    (λ e. avail (ap bitmap (sym e) ∙ h.1), Fresh-of_free i bitmap held avail hs)

-- A write to a page that is not held.
All-held-update :
    (i v : ℕ) (bitmap : ℕ → ℕ) (held : List ℕ)
    → Fresh i held
    → All (λ j. (j < num_pages) × (bitmap j ≡ 0)) held
    → All (λ j. (j < num_pages) × (update bitmap i v j ≡ 0)) held
All-held-update i v bitmap [] fresh h = tt
All-held-update i v bitmap (j ∷ held) (ne, fresh) (h, hs) =
    ((h.0, ground arith), All-held-update i v bitmap held fresh hs)

All-remove {κ} :
    (P : ℕ → Type κ) (before after : List ℕ) (i : ℕ)
    → All P (before ++ i ∷ after)
    → P i × All P (before ++ after)
All-remove P [] after i h = h
All-remove P (b ∷ before) after i (h, hs) =
    let (here, rest) = All-remove _ before after i hs in (here, (h, rest))

-- Taking one entry out of distinct ones.
AllDistinct-remove :
    (before after : List ℕ) (i : ℕ)
    → AllDistinct (before ++ i ∷ after)
    → Fresh i (before ++ after) × AllDistinct (before ++ after)
AllDistinct-remove [] after i h = h
AllDistinct-remove (b ∷ before) after i (h, hs) =
    let (ne, fresh) = All-remove _ before after i h in
    let (others, distinct) = AllDistinct-remove before after i hs in
    (((λ e. ne (sym e)), others), (fresh, distinct))

length-remove :
    (before after : List ℕ) (i : ℕ) → length (before ++ i ∷ after) ≡ suc (length (before ++ after))
length-remove [] after i = refl
length-remove (b ∷ before) after i = ap suc (length-remove before after i)

-- The bookkeeping of the pages in use.
pub record Pool (s : Kernel) (held : List ℕ) (t : Kernel) : Type 0 where
  pub steady : IsSteady t
  pub unlocked : IsFree mem_lock t
  pub in_use : All (λ i. (i < num_pages) × (t.mem_bitmap i ≡ 0)) held
  pub distinct : AllDistinct held
  pub count : free_pages num_pages t.mem_bitmap + length held ≡ free_pages num_pages s.mem_bitmap

Pool-take :
    (i : ℕ) {s t : Kernel} {held : List ℕ}
    → Pool s held t
    → i < num_pages
    → t.mem_bitmap i ≢ 0
    → Pool s (i ∷ held) (set_page i 0 (settled t))
unfolding settled
Pool-take i {t} {held} p hi avail =
    let fresh = Fresh-of_free i t.mem_bitmap held avail p.in_use in
    record {
      steady = record { wide = p.steady.wide; quiet = (settled-IsSteady t p.steady).quiet };
      unlocked = p.unlocked;
      in_use = ((hi, rw (==_self i)), All-held-update i 0 t.mem_bitmap held fresh p.in_use);
      distinct = (fresh, p.distinct);
      count = omega (arith, free_pages-take num_pages i t.mem_bitmap hi avail);
    }

Pool-give :
    (i : ℕ) (before after : List ℕ) {s t : Kernel}
    → Pool s (before ++ i ∷ after) t
    → Pool s (before ++ after) (set_page i 1 (settled (zero_page (page_addr i) t)))
unfolding settled
Pool-give i before after {t} p =
    let (fresh, distinct) = AllDistinct-remove before after i p.distinct in
    let (here, rest) = All-remove _ before after i p.in_use in
    record {
      steady = record { wide = p.steady.wide; quiet = (settled-IsSteady t p.steady).quiet };
      unlocked = p.unlocked;
      in_use = All-held-update i 1 t.mem_bitmap (before ++ after) fresh rest;
      distinct = distinct;
      count = omega (
        arith,
        length-remove before after i,
        free_pages-give num_pages i t.mem_bitmap here.0 here.1,
      );
    }

-- In every history of calls that starts with mem_lock free, the pages that are held are pairwise
-- distinct pages of RAM that are marked as taken, and the number of free pages is the one at the
-- start less the number of pages held: no page is handed out twice, and none is lost.
pub Uses-Pool :
    {s t : Kernel} {held : List ℕ} → IsSteady s → IsFree mem_lock s → Uses s held t → Pool s held t
Uses-Pool {s} steady free begin = record {
  steady = steady;
  unlocked = free;
  in_use = tt;
  distinct = tt;
  count = omega arith;
}
Uses-Pool steady free (take {t} {u} i h e) =
    let p = Uses-Pool steady free h in
    let (hi, avail, is) = kalloc-took i t u p.steady p.unlocked e in rw is (Pool-take i p hi avail)
Uses-Pool steady free (give {t} {u} before after i h e) =
    let p = Uses-Pool steady free h in
    let here = (All-remove _ before after i p.in_use).0 in
    rw (kfree-gave i t u p.steady p.unlocked here.0 here.1 e) (Pool-give i before after p)
