-- ===== src/Vm/Copyinstr.antt =====
-- copyinstr of kernel/vm.c: it reads a text through the translation, and its fuel suffices.
pub mod Text
pub mod Round
use wl_00_rv.Prelude.{
  ℕ, zero, suc, ◌+◌, ◌-◌, ◌%◌, ◌^◌, ◌≡◌, ◌≢◌, ◌≤◌, ◌<◌, ◌⊎◌, inl, inr, refl, ap, subst, ◌∙◌, sym,
  arith, Bool, true, false, ◌==◌, ◌&&◌, not, leb, ltb, if◌then◌else◌, Bool-cases, add32,
}
use wl_00_rv.Machine.{Kernel, ok, and_then}
use wl_00_rv.Mem.Bytes.{within}
use wl_00_rv.Vm.Defs.{pte_r, minus_one}
use wl_00_rv.Vm.Copy.{Scan, chunk, copy_text, copyinstr, copyinstr_loop}
use wl_00_rv.Vm.Tables.{IsPagetable, IsOutside}
use wl_00_rv.Vm.Access.{user_address, find_user_pa-user_address}
use wl_00_rv.Vm.Untouched.{with_ram, IsPagetable-untouched, IsOutside-untouched}
use wl_00_rv.Vm.Copyin.Round.{IsBuffer}
use wl_00_rv.Vm.Copyinstr.Text.{Copy, Scanned, copy_text-Scanned}
use wl_00_rv.Vm.Copyinstr.Round.{
  byte, IsReadable, IsText, Found, pa, n, scan, after, chunk_lem, scanned, round, Found-ended,
  after-same, IsBuffer-after, Found-after,
}

copyinstr_loop-ended :
    (fuel : ℕ) (s : Kernel) (pt dst va max : ℕ)
    → 0 < fuel
    → copyinstr_loop fuel pt va max dst true s ≡ ok 0 s
unfolding copyinstr_loop
copyinstr_loop-ended zero s pt dst va max some_fuel = absurd (omega arith)
copyinstr_loop-ended (suc fuel) s pt dst va max some_fuel = refl

copyinstr_loop-exhausted :
    (fuel : ℕ) (s : Kernel) (pt dst va : ℕ)
    → copyinstr_loop (suc fuel) pt va 0 dst false s ≡ ok minus_one s
unfolding copyinstr_loop
copyinstr_loop-exhausted fuel s pt dst va = refl

copyinstr_loop-refused :
    (fuel : ℕ) (s : Kernel) (pt dst va max : ℕ)
    → IsPagetable s pt
    → 0 < max
    → user_address s.ram pt va pte_r ≡ 0
    → copyinstr_loop (suc fuel) pt va max dst false s ≡ ok minus_one s
unfolding copyinstr_loop
copyinstr_loop-refused fuel s pt dst va max table some_bytes missing =
    let more : (not false && ltb 0 max) ≡ true = ground arith in
    rw (more, find_user_pa-user_address pte_r va s pt table (omega arith), missing) refl

copyinstr_loop-Found :
    (fuel : ℕ) (s : Kernel) (pt dst va max : ℕ)
    → IsPagetable s pt
    → IsBuffer s pt dst va max
    → va + max < 2 ^ 32
    → max < fuel
    → (r : ℕ) × (ram : ℕ → ℕ) × (copyinstr_loop fuel pt va max dst false s ≡ ok r (with_ram ram s))
      × Found s pt dst va max r ram
copyinstr_loop-Found zero s pt dst va max table buffer top enough = absurd (omega arith)
copyinstr_loop-Found (suc fuel) s pt dst va zero table buffer top enough = (
  minus_one,
  s.ram,
  copyinstr_loop-exhausted fuel s pt dst va,
  (λ a far. refl, inr (refl, inr (λ i hi. absurd (omega arith)))),
)
copyinstr_loop-Found (suc fuel) s pt dst va (suc m) table buffer top enough =
    elim (Bool-cases (user_address s.ram pt va pte_r == 0)) [
      | inl e ↦
          let here : va + 0 ≡ va = omega arith in
          let missing : user_address s.ram pt va pte_r ≡ 0 = ground arith in
          (
            minus_one,
            s.ram,
            copyinstr_loop-refused fuel s pt dst va (suc m) table (omega arith) missing,
            (
              λ a far. refl,
              inr (
                refl,
                inl (
                  0,
                  omega arith,
                  λ i hi. absurd (omega arith),
                  ap (λ x. user_address s.ram pt x pte_r) here ∙ missing,
                ),
              ),
            ),
          )
      | inr e ↦
          let readable : IsReadable s pt va = ground arith in
          let some_bytes : 0 < suc m = omega arith in
          let fits = chunk_lem s pt dst va (suc m) table buffer some_bytes top readable in
          let size = n s pt dst va (suc m) table buffer some_bytes top readable in
          let found = scan s pt dst va (suc m) table buffer some_bytes top readable in
          let t = after s pt dst va (suc m) table buffer some_bytes top readable in
          let first = round s pt dst va (suc m) table buffer some_bytes top readable fuel in
          elim (scanned s pt dst va (suc m) table buffer some_bytes top readable) [
            | inl (null, (k, below, text, nul, copy)) ↦ (
              0,
              found.ram,
              first
                  ∙ (ap (λ b. copyinstr_loop fuel pt (va + size) found.max found.dst b t) null
                      ∙ copyinstr_loop-ended fuel t pt found.dst (va + size) found.max
                          (omega arith)),
              Found-ended s pt dst va (suc m) table buffer some_bytes top readable k below text nul
                  copy,
            )
            | inr (null, left, next, text, copy) ↦
                let same =
                  after-same s pt dst va (suc m) table buffer some_bytes top readable text copy in
                let (r, ram, run, out) =
                  copyinstr_loop-Found fuel t pt (dst + size) (va + size) (suc m - size)
                    (IsPagetable-untouched s t.ram pt same table)
                    (IsBuffer-after s pt dst va (suc m) table buffer some_bytes top readable text
                      copy)
                    (omega (arith, fits)) (omega (arith, fits)) in
                (
                  r,
                  ram,
                  first
                      ∙ (ap (λ b. copyinstr_loop fuel pt (va + size) found.max found.dst b t) null
                          ∙ (ap (λ x. copyinstr_loop fuel pt (va + size) x found.dst false t) left
                              ∙ (ap
                                    (λ x.
                                      copyinstr_loop fuel pt (va + size) (suc m - size) x false t)
                                    next
                                  ∙ run))),
                  Found-after s pt dst va (suc m) table buffer some_bytes top readable text copy r
                      ram out,
                )
          ]
    ]

-- copyinstr returns, and only the buffer changes. It answers 0 when a NUL stands within `max` bytes
-- of `va`, all bytes up to it readable, and the text with its NUL is then in the buffer; it answers
-- -1 when a byte before any NUL cannot be read or none of the `max` bytes is NUL. (The buffer lies
-- outside the page table and the pages that are read.)
pub copyinstr-Found :
    (s : Kernel) (pt dst va max : ℕ)
    → IsPagetable s pt
    → IsBuffer s pt dst va max
    → va + max < 2 ^ 32
    → (r : ℕ) × (ram : ℕ → ℕ) × (copyinstr pt dst va max s ≡ ok r (with_ram ram s))
      × Found s pt dst va max r ram
unfolding copyinstr
copyinstr-Found s pt dst va max table buffer top =
    copyinstr_loop-Found (suc max) s pt dst va max table buffer top (omega arith)
