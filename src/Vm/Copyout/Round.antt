-- ===== src/Vm/Copyout/Round.antt =====
-- One round of copyout of kernel/vm.c, and what the whole copy leaves behind.
use wl_00_rv.Prelude.{
  ℕ, suc, ◌+◌, ◌-◌, ◌%◌, ◌^◌, ◌≡◌, ◌≢◌, ◌≤◌, ◌<◌, ◌⊎◌, inl, inr, refl, ap, subst, ◌∙◌, sym, arith,
  true, false, ◌==◌, ltb, Bool-cases, add32,
}
use wl_00_rv.Machine.{Kernel}
use wl_00_rv.Mem.{page_size, memmove}
use wl_00_rv.Mem.Bytes.{within, memmove-within}
use wl_00_rv.Vm.Defs.{pte_w, minus_one}
use wl_00_rv.Vm.Copy.{chunk, copyout_loop}
use wl_00_rv.Vm.Tables.{IsPagetable, IsOutside}
use wl_00_rv.Vm.Access.{
  user_address, find_user_pa-user_address, user_address-offset, user_address-add,
  user_address-untouched,
}
use wl_00_rv.Vm.Untouched.{with_ram, IsOutside-untouched}

-- Where the byte at the user address `va` is written; 0 if the process may not write there.
abbrev pub target : (s : Kernel) (pt va : ℕ) → ℕ
target s pt va = user_address s.ram pt va pte_w

-- The user's bytes at `va` lie outside the page table and outside the kernel's bytes at `src`, and no
-- two addresses share a byte.
pub record IsTarget (s : Kernel) (pt va src len : ℕ) : Type 0 where
  pub outside : (i : ℕ) → i < len → target s pt (va + i) ≢ 0 → IsOutside s pt (target s pt (va + i))
  pub apart :
      (i : ℕ)
      → i < len
      → target s pt (va + i) ≢ 0
      → (target s pt (va + i) < src) ⊎ (src + len ≤ target s pt (va + i))
  pub distinct :
      (i j : ℕ)
      → i < j
      → j < len
      → target s pt (va + i) ≢ 0
      → target s pt (va + i) ≢ target s pt (va + j)

-- No byte but the first `len` at `va` has changed.
abbrev pub Kept : (s : Kernel) (pt va len : ℕ) (ram : ℕ → ℕ) → Type 0
Kept s pt va len ram = (a : ℕ) → ((i : ℕ) → i < len → target s pt (va + i) ≢ a) → ram a ≡ s.ram a

-- All bytes can be written and are, or one cannot.
abbrev pub Written : (s : Kernel) (pt va src len r : ℕ) (ram : ℕ → ℕ) → Type 0
Written s pt va src len r ram =
    Kept s pt va len ram
    × (((r ≡ 0)
          × ((i : ℕ)
              → i < len
              → (target s pt (va + i) ≢ 0) × (ram (target s pt (va + i)) ≡ s.ram (src + i))))
        ⊎ ((r ≡ minus_one) × ((i : ℕ) × (i < len) × (target s pt (va + i) ≡ 0))))

-- One round, with the first page writable.
module _ (s : Kernel) (pt va src len : ℕ) (table : IsPagetable s pt)
    (user : IsTarget s pt va src len) (some_bytes : 0 < len) (top : va + len < 2 ^ 32)
    (writable : target s pt va ≢ 0) where
  abbrev pub pa : ℕ
  pa = target s pt va

  abbrev pub n : ℕ
  n = chunk pa len

  abbrev pub after : Kernel
  after = with_ram (memmove pa src n s.ram) s

  pub chunk_lem : (0 < n) × (n ≤ len) × (va % page_size + n ≤ page_size)
  chunk_lem = ground (arith, user_address-offset s.ram pt va pte_w writable)

  -- The bytes of this round.
  at : (j : ℕ) → j < n → target s pt (va + j) ≡ pa + j
  at j hj = user_address-add s.ram pt va j pte_w writable (omega (arith, chunk_lem))

  pub after-same : (c : ℕ) → (after.ram c ≡ s.ram c) ⊎ IsOutside s pt c
  after-same c = elim (Bool-cases (within pa n c)) [
    | inl e ↦
        let here : target s pt (va + (c - pa)) ≡ c = ground (arith, at (c - pa) (ground arith)) in
        inr (
          subst (IsOutside s pt) here
            (user.outside (c - pa) (ground (arith, chunk_lem)) (ground (arith, here))))
    | inr e ↦ inl (memmove-within pa src n s.ram c ∙ rw e refl)
  ]

  same_target : (a : ℕ) → target after pt a ≡ target s pt a
  same_target a = user_address-untouched s after.ram pt after-same a pte_w

  later : (i : ℕ) → target after pt (va + n + i) ≡ target s pt (va + (n + i))
  later i =
      let place : va + n + i ≡ va + (n + i) = omega arith in
      same_target (va + n + i) ∙ ap (target s pt) place

  pub IsTarget-after : IsTarget after pt (va + n) (src + n) (len - n)
  IsTarget-after = record {
    outside = λ i hi real. subst (IsOutside after pt) (sym (later i)) (
        IsOutside-untouched s after.ram pt after-same _
          (user.outside (n + i) (omega (arith, chunk_lem)) (omega (arith, later i, real))));
    apart = λ i hi real. omega (
      arith,
      later i,
      chunk_lem,
      user.apart (n + i) (omega (arith, chunk_lem)) (omega (arith, later i, real)),
    );
    distinct = λ i j hij hj real.
        let far =
          user.distinct (n + i) (n + j) (omega arith) (omega (arith, chunk_lem))
            (omega (arith, later i, real)) in
        omega (arith, later i, later j, far);
  }

  pub step :
      (fuel : ℕ)
      → copyout_loop (suc fuel) pt va src len s
        ≡ copyout_loop fuel pt (va + n) (src + n) (len - n) after
  unfolding copyout_loop
  step fuel =
      let more : ltb 0 len ≡ true = ground arith in
      let real : (pa == 0) ≡ false = ground arith in
      let next : add32 va n ≡ va + n = omega (arith, chunk_lem) in
      rw (more, find_user_pa-user_address pte_w va s pt table (omega arith), real)
        (ap (λ x. copyout_loop fuel pt x (src + n) (len - n) after) next)

  Kept-after : (ram : ℕ → ℕ) → Kept after pt (va + n) (len - n) ram → Kept s pt va len ram
  Kept-after ram kept a far = elim (Bool-cases (within pa n a)) [
    | inl e ↦
        absurd
          (far (a - pa) (ground (arith, chunk_lem)) (ground (arith, at (a - pa) (ground arith))))
    | inr e ↦
        kept a (λ i hi. λ same. far (n + i) (omega (arith, chunk_lem)) (sym (later i) ∙ same))
        ∙ (memmove-within pa src n s.ram a ∙ rw e refl)
  ]

  -- This round does not touch the kernel's bytes, and later rounds do not touch its own.
  source_kept : (i : ℕ) → i < len → after.ram (src + i) ≡ s.ram (src + i)
  source_kept i hi = elim (Bool-cases (within pa n (src + i))) [
    | inl e ↦
        let here : target s pt (va + (src + i - pa)) ≡ src + i =
          ground (arith, at (src + i - pa) (ground arith)) in
        absurd (
          ground (
            arith,
            here,
            user.apart (src + i - pa) (ground (arith, chunk_lem)) (ground (arith, here)),
          ))
    | inr e ↦ memmove-within pa src n s.ram (src + i) ∙ rw e refl
  ]

  first_bytes :
      (ram : ℕ → ℕ)
      → Kept after pt (va + n) (len - n) ram
      → (i : ℕ) → i < n
      → (target s pt (va + i) ≢ 0) × (ram (target s pt (va + i)) ≡ s.ram (src + i))
  first_bytes ram kept i hi =
      let here = at i hi in
      let real : target s pt (va + i) ≢ 0 = omega (arith, here) in
      let inside : within pa n (pa + i) ≡ true = ground arith in
      let place : src + (pa + i - pa) ≡ src + i = omega arith in
      (
        real,
        kept (target s pt (va + i)) (λ j hj. λ same.
              user.distinct i (n + j) (omega arith) (omega (arith, chunk_lem)) real
                (sym same ∙ later j))
            ∙ (ap after.ram here
                ∙ (memmove-within pa src n s.ram (pa + i) ∙ rw inside (ap s.ram place))),
      )

  other_bytes :
      (ram : ℕ → ℕ) (i : ℕ)
      → i < len
      → n ≤ i
      → (target after pt (va + n + (i - n)) ≢ 0)
        × (ram (target after pt (va + n + (i - n))) ≡ after.ram (src + n + (i - n)))
      → (target s pt (va + i) ≢ 0) × (ram (target s pt (va + i)) ≡ s.ram (src + i))
  other_bytes ram i hi late (real, byte) =
      let place : n + (i - n) ≡ i = omega arith in
      let same : target after pt (va + n + (i - n)) ≡ target s pt (va + i) =
        later (i - n) ∙ ap (λ x. target s pt (va + x)) place in
      let source : src + n + (i - n) ≡ src + i = omega arith in
      (
        λ missing. real (same ∙ missing),
        ap ram (sym same) ∙ (byte ∙ (ap after.ram source ∙ source_kept i hi)),
      )

  pub Written-after :
      (r : ℕ) (ram : ℕ → ℕ)
      → Written after pt (va + n) (src + n) (len - n) r ram
      → Written s pt va src len r ram
  Written-after r ram (kept, out) = (
    Kept-after ram kept,
    elim out [
      | inl (z, rest) ↦ inl (
        z,
        λ i hi. elim (Bool-cases (ltb i n)) [
          | inl e ↦ first_bytes ram kept i (ground arith)
          | inr e ↦ other_bytes ram i hi (ground arith) (rest (i - n) (ground (arith, chunk_lem)))
        ],
      )
      | inr (z, (i, below, missing)) ↦
          inr (z, (n + i, omega (arith, chunk_lem), sym (later i) ∙ missing))
    ],
  )
