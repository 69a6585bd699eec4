-- ===== src/Vm/Copyin/Round.antt =====
-- One round of copyin of kernel/vm.c, and what the whole copy leaves behind.
use wl_00_rv.Prelude.{
  ℕ, suc, ◌+◌, ◌-◌, ◌%◌, ◌^◌, ◌≡◌, ◌≢◌, ◌≤◌, ◌<◌, ◌⊎◌, inl, inr, refl, ap, subst, ◌∙◌, sym, arith,
  true, false, ◌==◌, ltb, if◌then◌else◌, Bool-cases, add32,
}
use wl_00_rv.Machine.{Kernel}
use wl_00_rv.Mem.{page_size, memmove}
use wl_00_rv.Mem.Bytes.{within, memmove-within}
use wl_00_rv.Vm.Defs.{pte_r, minus_one}
use wl_00_rv.Vm.Copy.{chunk, copyin_loop}
use wl_00_rv.Vm.Tables.{IsPagetable, IsOutside}
use wl_00_rv.Vm.Access.{
  user_address-offset, user_address-add, user_address-untouched, user_address,
  find_user_pa-user_address,
}
use wl_00_rv.Vm.Untouched.{with_ram, IsOutside-untouched}

-- The kernel buffer at `dst` lies outside the page table and outside the user's pages that are read.
pub record IsBuffer (s : Kernel) (pt dst va len : ℕ) : Type 0 where
  pub outside : (c : ℕ) → dst ≤ c → c < dst + len → IsOutside s pt c
  pub apart :
      (i : ℕ)
      → i < len
      → (user_address s.ram pt (va + i) pte_r < dst)
        ⊎ (dst + len ≤ user_address s.ram pt (va + i) pte_r)

-- What a copy of `len` bytes from the user address `va` leaves in RAM.
abbrev pub Copied : (s : Kernel) (pt dst va len : ℕ) (ram : ℕ → ℕ) → Type 0
Copied s pt dst va len ram =
    (a : ℕ)
    → ram a
      ≡ (if within dst len a then s.ram (user_address s.ram pt (va + (a - dst)) pte_r) else s.ram a)

-- All bytes can be read and are copied, or some cannot and no byte outside the buffer changes.
abbrev pub Outcome : (s : Kernel) (pt dst va len r : ℕ) (ram : ℕ → ℕ) → Type 0
Outcome s pt dst va len r ram =
    ((r ≡ 0)
      × ((i : ℕ) → i < len → user_address s.ram pt (va + i) pte_r ≢ 0)
      × Copied s pt dst va len ram)
    ⊎ ((r ≡ minus_one)
        × ((i : ℕ) × (i < len) × (user_address s.ram pt (va + i) pte_r ≡ 0))
        × ((a : ℕ) → within dst len a ≡ false → ram a ≡ s.ram a))

-- One round, with the first page readable.
module _ (s : Kernel) (pt dst va len : ℕ) (table : IsPagetable s pt)
    (buffer : IsBuffer s pt dst va len) (some_bytes : 0 < len) (top : va + len < 2 ^ 32)
    (readable : user_address s.ram pt va pte_r ≢ 0) where
  abbrev pub pa : ℕ
  pa = user_address s.ram pt va pte_r

  abbrev pub n : ℕ
  n = chunk pa len

  abbrev pub after : Kernel
  after = with_ram (memmove dst pa n s.ram) s

  pub chunk_lem : (0 < n) × (n ≤ len) × (va % page_size + n ≤ page_size)
  chunk_lem = ground (arith, user_address-offset s.ram pt va pte_r readable)

  pub after-same : (c : ℕ) → (after.ram c ≡ s.ram c) ⊎ IsOutside s pt c
  after-same c = elim (Bool-cases (within dst n c)) [
    | inl e ↦ inr (buffer.outside c (ground arith) (ground (arith, chunk_lem)))
    | inr e ↦ inl (memmove-within dst pa n s.ram c ∙ rw e refl)
  ]

  same_address : (a : ℕ) → user_address after.ram pt a pte_r ≡ user_address s.ram pt a pte_r
  same_address a = user_address-untouched s after.ram pt after-same a pte_r

  pub IsBuffer-after : IsBuffer after pt (dst + n) (va + n) (len - n)
  IsBuffer-after = record {
    outside = λ c lo hi.
        IsOutside-untouched s after.ram pt after-same c
          (buffer.outside c (omega arith) (omega (arith, chunk_lem)));
    apart = λ i hi.
        let place : va + (n + i) ≡ va + n + i = omega arith in
        let before : (user_address s.ram pt (va + n + i) pte_r < dst)
            ⊎ (dst + len ≤ user_address s.ram pt (va + n + i) pte_r) =
          subst
            (λ a.
              (user_address s.ram pt a pte_r < dst) ⊎ (dst + len ≤ user_address s.ram pt a pte_r))
            place (buffer.apart (n + i) (omega (arith, chunk_lem))) in
        omega (arith, same_address (va + n + i), chunk_lem);
  }

  pub step :
      (fuel : ℕ)
      → copyin_loop (suc fuel) pt dst va len s
        ≡ copyin_loop fuel pt (dst + n) (va + n) (len - n) after
  unfolding copyin_loop
  step fuel =
      let more : ltb 0 len ≡ true = ground arith in
      let real : (pa == 0) ≡ false = ground arith in
      let next : add32 va n ≡ va + n = omega (arith, chunk_lem) in
      rw (more, find_user_pa-user_address pte_r va s pt table (omega arith), real)
        (ap (λ x. copyin_loop fuel pt (dst + n) x (len - n) after) next)

  Copied-after :
      (ram : ℕ → ℕ) → Copied after pt (dst + n) (va + n) (len - n) ram → Copied s pt dst va len ram
  Copied-after ram rest a = elim (Bool-cases (within (dst + n) (len - n) a)) [
    | inl e ↦
        let here : within dst len a ≡ true = ground (arith, chunk_lem) in
        let place : va + n + (a - (dst + n)) ≡ va + (a - dst) = ground arith in
        let far : within dst n (user_address s.ram pt (va + (a - dst)) pte_r) ≡ false =
          ground (arith, chunk_lem, buffer.apart (a - dst) (ground arith)) in
        rw here (
          rest a
          ∙ rw e (
              ap after.ram (same_address _ ∙ ap (λ x. user_address s.ram pt x pte_r) place)
              ∙ (memmove-within dst pa n s.ram _ ∙ rw far refl)))
    | inr e ↦
        let kept : ram a ≡ (if within dst n a then s.ram (pa + (a - dst)) else s.ram a) =
          rest a ∙ rw e (memmove-within dst pa n s.ram a) in
        elim (Bool-cases (within dst n a)) [
          | inl f ↦
              let here : within dst len a ≡ true = ground (arith, chunk_lem) in
              let place : user_address s.ram pt (va + (a - dst)) pte_r ≡ pa + (a - dst) =
                user_address-add s.ram pt va (a - dst) pte_r readable (ground (arith, chunk_lem)) in
              rw (here, place) (kept ∙ rw f refl)
          | inr f ↦
              let out : within dst len a ≡ false = ground (arith, chunk_lem) in
              rw out (kept ∙ rw f refl)
        ]
  ]

  reads :
      ((i : ℕ) → i < len - n → user_address after.ram pt (va + n + i) pte_r ≢ 0)
      → (i : ℕ) → i < len
      → user_address s.ram pt (va + i) pte_r ≢ 0
  reads all i hi = elim (Bool-cases (ltb i n)) [
    | inl e ↦
        omega (arith, user_address-add s.ram pt va i pte_r readable (ground (arith, chunk_lem)))
    | inr e ↦
        let place : va + n + (i - n) ≡ va + i = ground arith in
        λ missing.
          all (i - n) (ground arith)
            (same_address _ ∙ (ap (λ x. user_address s.ram pt x pte_r) place ∙ missing))
  ]

  pub Outcome-after :
      (r : ℕ) (ram : ℕ → ℕ)
      → Outcome after pt (dst + n) (va + n) (len - n) r ram
      → Outcome s pt dst va len r ram
  Outcome-after r ram out = elim out [
    | inl (z, all, rest) ↦ inl (z, reads all, Copied-after ram rest)
    | inr (z, (i, below, missing), kept) ↦ inr (
      z,
      (
        n + i,
        omega (arith, chunk_lem),
        ap (λ x. user_address s.ram pt x pte_r) (omega arith)
            ∙ (sym (same_address (va + n + i)) ∙ missing),
      ),
      λ a far.
          let early : within dst n a ≡ false = ground (arith, chunk_lem) in
          kept a (ground (arith, chunk_lem)) ∙ (memmove-within dst pa n s.ram a ∙ rw early refl),
    )
  ]
