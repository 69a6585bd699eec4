-- ===== src/Vm/Copyinstr/Round.antt =====
-- One round of copyinstr of kernel/vm.c, and what the whole scan leaves behind.
use wl_00_rv.Prelude.{
  ℕ, suc, ◌+◌, ◌-◌, ◌%◌, ◌^◌, ◌≡◌, ◌≢◌, ◌≤◌, ◌<◌, ◌⊎◌, inl, inr, refl, ap, subst, ◌∙◌, sym, arith,
  true, false, ◌==◌, ◌&&◌, not, ltb, Bool-cases, add32,
}
use wl_00_rv.Machine.{Kernel}
use wl_00_rv.Mem.{page_size}
use wl_00_rv.Mem.Bytes.{within}
use wl_00_rv.Vm.Defs.{pte_r, minus_one}
use wl_00_rv.Vm.Copy.{Scan, chunk, copy_text, copyinstr_loop}
use wl_00_rv.Vm.Tables.{IsPagetable, IsOutside}
use wl_00_rv.Vm.Access.{
  user_address, find_user_pa-user_address, user_address-offset, user_address-add,
  user_address-untouched,
}
use wl_00_rv.Vm.Untouched.{with_ram, IsOutside-untouched}
use wl_00_rv.Vm.Copyin.Round.{IsBuffer}
use wl_00_rv.Vm.Copyinstr.Text.{Copy, Scanned, copy_text-Scanned}

-- The user's byte at `va`, and whether the process may read it.
abbrev pub byte : (s : Kernel) (pt va : ℕ) → ℕ
byte s pt va = s.ram (user_address s.ram pt va pte_r)

abbrev pub IsReadable : (s : Kernel) (pt va : ℕ) → Type 0
IsReadable s pt va = user_address s.ram pt va pte_r ≢ 0

-- The first `n` bytes can be read, and none is NUL.
abbrev pub IsText : (s : Kernel) (pt va n : ℕ) → Type 0
IsText s pt va n = (i : ℕ) → i < n → IsReadable s pt (va + i) × (byte s pt (va + i) ≢ 0)

-- A text that ends within `max` bytes was found and copied with its NUL, or there is none: a byte
-- cannot be read, or there is no NUL.
abbrev pub Found : (s : Kernel) (pt dst va max r : ℕ) (ram : ℕ → ℕ) → Type 0
Found s pt dst va max r ram =
    ((a : ℕ) → within dst max a ≡ false → ram a ≡ s.ram a)
    × (((r ≡ 0)
          × ((k : ℕ) × (k < max)
              × IsText s pt va k
              × IsReadable s pt (va + k)
              × (byte s pt (va + k) ≡ 0)
              × ((i : ℕ) → i ≤ k → ram (dst + i) ≡ byte s pt (va + i))))
        ⊎ ((r ≡ minus_one)
            × (((k : ℕ) × (k < max) × IsText s pt va k × (user_address s.ram pt (va + k) pte_r ≡ 0))
                ⊎ IsText s pt va max)))

-- One round, with the first page readable.
module _ (s : Kernel) (pt dst va max : ℕ) (table : IsPagetable s pt)
    (buffer : IsBuffer s pt dst va max) (some_bytes : 0 < max) (top : va + max < 2 ^ 32)
    (readable : IsReadable s pt va) where
  abbrev pub pa : ℕ
  pa = user_address s.ram pt va pte_r

  abbrev pub n : ℕ
  n = chunk pa max

  abbrev pub scan : Scan
  scan = copy_text n max pa dst s.ram

  pub chunk_lem : (0 < n) × (n ≤ max) × (va % page_size + n ≤ page_size)
  chunk_lem = ground (arith, user_address-offset s.ram pt va pte_r readable)

  at : (j : ℕ) → j < n → user_address s.ram pt (va + j) pte_r ≡ pa + j
  at j hj = user_address-add s.ram pt va j pte_r readable (omega (arith, chunk_lem))

  apart : (pa + n ≤ dst) ⊎ (dst + n ≤ pa)
  apart =
      let last = buffer.apart (n - 1) (omega (arith, chunk_lem)) in
      let here = at (n - 1) (omega (arith, chunk_lem)) in
      let first = buffer.apart 0 (omega (arith, chunk_lem)) in
      let here0 = at 0 (omega (arith, chunk_lem)) in
      omega (arith, last, here, first, here0, chunk_lem)

  pub scanned : Scanned n max pa dst s.ram scan
  scanned = copy_text-Scanned n max pa dst s.ram apart

  pub IsText-here : (k : ℕ) → k ≤ n → ((i : ℕ) → i < k → s.ram (pa + i) ≢ 0) → IsText s pt va k
  IsText-here k le text i hi =
      (omega (arith, at i (omega arith)), λ z. text i hi (ap s.ram (sym (at i (omega arith))) ∙ z))

  pub round :
      (fuel : ℕ)
      → copyinstr_loop (suc fuel) pt va max dst false s
        ≡ copyinstr_loop fuel pt (va + n) scan.max scan.dst scan.null (with_ram scan.ram s)
  unfolding copyinstr_loop
  round fuel =
      let more : (not false && ltb 0 max) ≡ true = ground arith in
      let real : (pa == 0) ≡ false = ground arith in
      let next : add32 va n ≡ va + n = omega (arith, chunk_lem) in
      rw (more, find_user_pa-user_address pte_r va s pt table (omega arith), real)
        (ap (λ x. copyinstr_loop fuel pt x scan.max scan.dst scan.null (with_ram scan.ram s)) next)

  abbrev pub after : Kernel
  after = with_ram scan.ram s

  copied :
      (m i : ℕ)
      → Copy s.ram scan.ram m pa dst
      → i < m
      → i < n
      → scan.ram (dst + i) ≡ byte s pt (va + i)
  copied m i copy hi low =
      let here : within dst m (dst + i) ≡ true = ground arith in
      let place : pa + (dst + i - dst) ≡ user_address s.ram pt (va + i) pte_r =
        omega (arith, at i low) in
      copy (dst + i) ∙ rw here (ap s.ram place)

  pub Found-ended :
      (k : ℕ)
      → k < n
      → ((i : ℕ) → i < k → s.ram (pa + i) ≢ 0)
      → s.ram (pa + k) ≡ 0
      → Copy s.ram scan.ram (k + 1) pa dst
      → Found s pt dst va max 0 scan.ram
  Found-ended k below text nul copy = (
    λ a far.
        let out : within dst (k + 1) a ≡ false = ground (arith, chunk_lem, far) in
        copy a ∙ rw out refl,
    inl (
      refl,
      (
        k,
        omega (arith, chunk_lem),
        IsText-here k (omega arith) text,
        omega (arith, at k below),
        ap s.ram (at k below) ∙ nul,
        λ i hi. copied (k + 1) i copy (omega arith) (omega arith),
      ),
    ),
  )

  module _ (text : (i : ℕ) → i < n → s.ram (pa + i) ≢ 0) (copy : Copy s.ram scan.ram n pa dst) where
    pub after-same : (c : ℕ) → (after.ram c ≡ s.ram c) ⊎ IsOutside s pt c
    after-same c = elim (Bool-cases (within dst n c)) [
      | inl e ↦ inr (buffer.outside c (ground arith) (ground (arith, chunk_lem)))
      | inr e ↦ inl (copy c ∙ rw e refl)
    ]

    same_address : (a : ℕ) → user_address after.ram pt a pte_r ≡ user_address s.ram pt a pte_r
    same_address a = user_address-untouched s after.ram pt after-same a pte_r

    later_address :
        (i : ℕ)
        → n ≤ i
        → user_address after.ram pt (va + n + (i - n)) pte_r ≡ user_address s.ram pt (va + i) pte_r
    later_address i le =
        let place : va + n + (i - n) ≡ va + i = omega arith in
        same_address _ ∙ ap (λ x. user_address s.ram pt x pte_r) place

    later_byte : (i : ℕ) → n ≤ i → i < max → byte after pt (va + n + (i - n)) ≡ byte s pt (va + i)
    later_byte i le hi =
        let far : within dst n (user_address s.ram pt (va + i) pte_r) ≡ false =
          ground (arith, chunk_lem, buffer.apart i hi) in
        ap after.ram (later_address i le) ∙ (copy _ ∙ rw far refl)

    pub IsBuffer-after : IsBuffer after pt (dst + n) (va + n) (max - n)
    IsBuffer-after = record {
      outside = λ c lo hi.
          IsOutside-untouched s after.ram pt after-same c
            (buffer.outside c (omega arith) (omega (arith, chunk_lem)));
      apart = λ i hi.
          let place : va + (n + i) ≡ va + n + i = omega arith in
          let same : user_address after.ram pt (va + n + i) pte_r
              ≡ user_address s.ram pt (va + (n + i)) pte_r =
            same_address _ ∙ ap (λ x. user_address s.ram pt x pte_r) (sym place) in
          omega (arith, same, buffer.apart (n + i) (omega (arith, chunk_lem)), chunk_lem);
    }

    IsText-after : (k : ℕ) → k ≤ max - n → IsText after pt (va + n) k → IsText s pt va (n + k)
    IsText-after k le rest i hi = elim (Bool-cases (ltb i n)) [
      | inl e ↦ IsText-here n (omega arith) text i (ground arith)
      | inr e ↦
          let (reads, full) = rest (i - n) (ground arith) in
          (
            λ z. reads (later_address i (ground arith) ∙ z),
            λ z. full (later_byte i (ground arith) (ground (arith, chunk_lem)) ∙ z),
          )
    ]

    pub Found-after :
        (r : ℕ) (ram : ℕ → ℕ)
        → Found after pt (dst + n) (va + n) (max - n) r ram
        → Found s pt dst va max r ram
    Found-after r ram (frame, out) = (
      λ a far.
          let out_here : within dst n a ≡ false = ground (arith, chunk_lem, far) in
          frame a (ground (arith, chunk_lem, far)) ∙ (copy a ∙ rw out_here refl),
      elim out [
        | inl (zero_r, (k, below, rest, reads, nul, same)) ↦
            let shift : n + k - n ≡ k = omega arith in
            inl (
              zero_r,
              (
                n + k,
                omega arith,
                IsText-after k (omega arith) rest,
                λ z. reads (
                    ap (λ x. user_address after.ram pt (va + n + x) pte_r) (sym shift)
                    ∙ (later_address (n + k) (omega arith) ∙ z)),
                sym (later_byte (n + k) (omega arith) (omega arith))
                    ∙ (ap (λ x. byte after pt (va + n + x)) shift ∙ nul),
                λ i hi. elim (Bool-cases (ltb i n)) [
                  | inl e ↦
                      frame (dst + i) (ground arith) ∙ copied n i copy (ground arith) (ground arith)
                  | inr e ↦
                      let place : dst + i ≡ dst + n + (i - n) = ground arith in
                      ap ram place
                      ∙ (same (i - n) (ground arith)
                          ∙ later_byte i (ground arith) (ground (arith, chunk_lem)))
                ],
              ),
            )
        | inr (failed, why) ↦ inr (
          failed,
          elim why [
            | inl (k, below, rest, missing) ↦
                let shift : n + k - n ≡ k = omega arith in
                inl (
                  n + k,
                  omega arith,
                  IsText-after k (omega arith) rest,
                  sym (later_address (n + k) (omega arith))
                      ∙ (ap (λ x. user_address after.ram pt (va + n + x) pte_r) shift ∙ missing),
                )
            | inr rest ↦
                let all : n + (max - n) ≡ max = omega (arith, chunk_lem) in
                inr (subst (IsText s pt va) all (IsText-after (max - n) (omega arith) rest))
          ],
        )
      ],
    )
