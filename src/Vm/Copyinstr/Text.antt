-- ===== src/Vm/Copyinstr/Text.antt =====
-- The inner loop of copyinstr of kernel/vm.c: it copies up to the first NUL.
use wl_00_rv.Prelude.{
  ℕ, zero, suc, ◌+◌, ◌-◌, ◌≡◌, ◌≢◌, ◌≤◌, ◌<◌, ◌⊎◌, inl, inr, refl, ap, subst, ◌∙◌, sym, arith, true,
  false, ◌==◌, if◌then◌else◌, Bool-cases,
}
use wl_00_rv.Machine.{update}
use wl_00_rv.Mem.Bytes.{within}
use wl_00_rv.Vm.Copy.{Scan, copy_text}

-- `out` is `ram` with `n` bytes from `p` on copied to `dst`.
abbrev pub Copy : (ram out : ℕ → ℕ) (n p dst : ℕ) → Type 0
Copy ram out n p dst = (a : ℕ) → out a ≡ (if within dst n a then ram (p + (a - dst)) else ram a)

-- A text of fewer than `n` bytes and its NUL were copied, or all of `n` bytes, none of them NUL.
abbrev pub Scanned : (n max p dst : ℕ) (ram : ℕ → ℕ) → Scan → Type 0
Scanned n max p dst ram r =
    ((r.null ≡ true)
      × ((k : ℕ) × (k < n)
          × ((i : ℕ) → i < k → ram (p + i) ≢ 0)
          × (ram (p + k) ≡ 0)
          × Copy ram r.ram (k + 1) p dst))
    ⊎ ((r.null ≡ false)
        × (r.max ≡ max - n)
        × (r.dst ≡ dst + n)
        × ((i : ℕ) → i < n → ram (p + i) ≢ 0)
        × Copy ram r.ram n p dst)

-- Later bytes of the text are not touched by the first.
shifted :
    (n p dst i : ℕ) (ram : ℕ → ℕ)
    → (p + suc n ≤ dst) ⊎ (dst + suc n ≤ p)
    → i < n
    → update ram dst (ram p) (p + 1 + i) ≡ ram (p + suc i)
shifted n p dst i ram apart hi =
    let place : p + 1 + i ≡ p + suc i = omega arith in
    let far : (dst == p + suc i) ≡ false = ground arith in
    ap (update ram dst (ram p)) place ∙ rw far refl

Copy-suc :
    (n k p dst : ℕ) (ram out : ℕ → ℕ)
    → (p + suc n ≤ dst) ⊎ (dst + suc n ≤ p)
    → k ≤ n
    → Copy (update ram dst (ram p)) out k (p + 1) (dst + 1)
    → Copy ram out (suc k) p dst
Copy-suc n k p dst ram out apart le copy a = ground (arith, copy a)

nonzero-suc :
    (n k p dst : ℕ) (ram : ℕ → ℕ)
    → (p + suc n ≤ dst) ⊎ (dst + suc n ≤ p)
    → k ≤ n
    → ram p ≢ 0
    → ((i : ℕ) → i < k → update ram dst (ram p) (p + 1 + i) ≢ 0)
    → (i : ℕ) → i < suc k
    → ram (p + i) ≢ 0
nonzero-suc n k p dst ram apart le first rest zero hi =
    let place : p + 0 ≡ p = omega arith in λ z. first (ap ram (sym place) ∙ z)
nonzero-suc n k p dst ram apart le first rest (suc i) hi =
    λ z. rest i (omega arith) (shifted n p dst i ram apart (omega arith) ∙ z)

Scanned-suc :
    (n max p dst : ℕ) (ram : ℕ → ℕ) (r : Scan)
    → (p + suc n ≤ dst) ⊎ (dst + suc n ≤ p)
    → ram p ≢ 0
    → Scanned n (max - 1) (p + 1) (dst + 1) (update ram dst (ram p)) r
    → Scanned (suc n) max p dst ram r
Scanned-suc n max p dst ram r apart first out = elim out [
  | inl (null, (k, below, text, nul, copy)) ↦
      let one_more : suc (k + 1) ≡ suc k + 1 = omega arith in
      inl (
        null,
        (
          suc k,
          omega arith,
          nonzero-suc n k p dst ram apart (omega arith) first text,
          sym (shifted n p dst k ram apart below) ∙ nul,
          subst (λ m. Copy ram r.ram m p dst) one_more
              (Copy-suc n (k + 1) p dst ram r.ram apart (omega arith) copy),
        ),
      )
  | inr (null, left, next, text, copy) ↦ inr (
    null,
    left ∙ omega arith,
    next ∙ omega arith,
    nonzero-suc n n p dst ram apart (omega arith) first text,
    Copy-suc n n p dst ram r.ram apart (omega arith) copy,
  )
]

pub copy_text-Scanned :
    (n max p dst : ℕ) (ram : ℕ → ℕ)
    → (p + n ≤ dst) ⊎ (dst + n ≤ p)
    → Scanned n max p dst ram (copy_text n max p dst ram)
unfolding copy_text
copy_text-Scanned zero max p dst ram apart =
    inr (refl, omega arith, omega arith, λ i hi. absurd (omega arith), λ a. ground arith)
copy_text-Scanned (suc n) max p dst ram apart = elim (Bool-cases (ram p == 0)) [
  | inl e ↦
      let place : p + 0 ≡ p = omega arith in
      rw e (
        inl (
          refl,
          (
            0,
            omega arith,
            λ i hi. absurd (omega arith),
            ap ram place ∙ ground arith,
            λ a. ground arith,
          ),
        ))
  | inr e ↦ rw e (
      Scanned-suc n max p dst ram _ apart (ground arith)
        (copy_text-Scanned n (max - 1) (p + 1) (dst + 1) (update ram dst (ram p)) (omega arith)))
]
