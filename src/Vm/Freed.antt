-- ===== src/Vm/Freed.antt =====
-- What it means that the pages of a set were given back with kfree of kernel/mem.c.
use wl_00_rv.Prelude.{
  ℕ, ◌+◌, ◌*◌, ◌%◌, ◌≡◌, ◌≢◌, ◌≤◌, ◌<◌, ◌⊎◌, inl, inr, refl, ap, ◌∙◌, arith, false, ◌==◌,
}
use wl_00_rv.Machine.{Kernel, ok, update}
use wl_00_rv.Spinlock.Critical.{settled, settled-IsSteady}
use wl_00_rv.Ram.Words.{load_word-ext}
use wl_00_rv.Mem.{page_size, num_pages, memset, kfree, set_page}
use wl_00_rv.Mem.Bytes.{within, memset-within}
use wl_00_rv.Mem.Pages.{page_addr}
use wl_00_rv.Mem.Free.{zero_page, kfree_outcomes}
use wl_00_rv.Vm.Rest.{IsRestKept, IsRestKept-refl, IsRestKept-then, settled-IsRestKept}
use wl_00_rv.Vm.Tables.{upper, IsReady}

-- From `s` to `t` the pages of `P` became free, and no other page and no byte outside them changed.
pub record Freed (s t : Kernel) (P : ℕ → Type 0) : Type 0 where
  pub ready : IsReady t
  pub kept_rest : IsRestKept s t
  pub start : t.start_page ≡ s.start_page
  pub freed : (k : ℕ) → P k → t.mem_bitmap k ≡ 1
  pub kept : (k : ℕ) → (P k → ⊥) → t.mem_bitmap k ≡ s.mem_bitmap k
  pub bytes :
      (c : ℕ) → ((k : ℕ) → P k → within (page_addr k) page_size c ≡ false) → t.ram c ≡ s.ram c

pub freed_page-IsReady :
    (pa k : ℕ) (s : Kernel) → IsReady s → IsReady (set_page k 1 (settled (zero_page pa s)))
unfolding settled
freed_page-IsReady pa k s ready =
    let q = settled-IsSteady s ready.steady in
    record {
      steady = record { wide = q.wide; quiet = q.quiet };
      memory = ready.memory;
      console = ready.console;
      calm = ready.calm;
    }

freed_page-Freed :
    (k : ℕ) (s : Kernel)
    → IsReady s
    → Freed s (set_page k 1 (settled (zero_page (page_addr k) s))) (λ j. j ≡ k)
unfolding settled
freed_page-Freed k s ready = record {
  ready = freed_page-IsReady (page_addr k) k s ready;
  kept_rest =
      settled-IsRestKept s (memset (page_addr k) 0 page_size s.ram) (update s.mem_bitmap k 1);
  start = refl;
  freed = λ j e. ground arith;
  kept = λ j ne. let far : (k == j) ≡ false = ground arith in rw far refl;
  bytes = λ c far.
      let outside = far k refl in memset-within (page_addr k) 0 page_size s.ram c ∙ rw outside refl;
}

-- kfree of a page in use.
pub kfree-Freed :
    (pa k : ℕ) (s : Kernel)
    → IsReady s
    → k < num_pages
    → pa ≡ page_addr k
    → s.start_page ≤ page_addr k
    → s.mem_bitmap k ≡ 0
    → (t : Kernel) × (kfree pa s ≡ ok tt t) × Freed s t (λ j. j ≡ k)
kfree-Freed pa k s ready real e low taken = (
  set_page k 1 (settled (zero_page (page_addr k) s)),
  ap (λ x. kfree x s) e
      ∙ (kfree_outcomes (page_addr k) s ready.steady ready.memory).3 k real refl low taken,
  freed_page-Freed k s ready,
)

pub Freed-none : (s : Kernel) (P : ℕ → Type 0) → IsReady s → ((k : ℕ) → P k → ⊥) → Freed s s P
Freed-none s P ready none_held = record {
  ready = ready;
  kept_rest = IsRestKept-refl s;
  start = refl;
  freed = λ k p. absurd (none_held k p);
  kept = λ k ne. refl;
  bytes = λ c far. refl;
}

pub Freed-same :
    (s t : Kernel) (P Q : ℕ → Type 0)
    → ((k : ℕ) → P k → Q k)
    → ((k : ℕ) → Q k → P k)
    → Freed s t P
    → Freed s t Q
Freed-same s t P Q to from f = record {
  ready = f.ready;
  kept_rest = f.kept_rest;
  start = f.start;
  freed = λ k q. f.freed k (from k q);
  kept = λ k ne. f.kept k λ p. ne (to k p);
  bytes = λ c far. f.bytes c λ k p. far k (to k p);
}

-- The pages of `P`, then those of `Q`.
pub Freed-then :
    (s t u : Kernel) (P Q : ℕ → Type 0)
    → ((k : ℕ) → P k → Q k → ⊥)
    → Freed s t P
    → Freed t u Q
    → Freed s u (λ k. P k ⊎ Q k)
Freed-then s t u P Q apart f g = record {
  ready = g.ready;
  kept_rest = IsRestKept-then s t u f.kept_rest g.kept_rest;
  start = g.start ∙ f.start;
  freed = λ k r. elim r [ inl p ↦ g.kept k (apart k p) ∙ f.freed k p | inr q ↦ g.freed k q ];
  kept = λ k ne. g.kept k (λ q. ne (inr q)) ∙ f.kept k (λ p. ne (inl p));
  bytes = λ c far. g.bytes c (λ k q. far k (inr q)) ∙ f.bytes c (λ k p. far k (inl p));
}

-- A table whose root is none of the pages keeps its upper entries.
pub upper-Freed :
    (s t : Kernel) (P : ℕ → Type 0) (pt i : ℕ)
    → Freed s t P
    → pt % page_size ≡ 0
    → ((k : ℕ) → P k → page_addr k ≢ pt)
    → i < 1024
    → upper t.ram pt i ≡ upper s.ram pt i
upper-Freed s t P pt i f aligned other hi =
    load_word-ext t.ram s.ram (pt + 4 * i)
      λ c lo hi'. f.bytes c λ k p. let ne = other k p in ground arith
