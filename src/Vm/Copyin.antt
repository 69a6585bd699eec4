-- ===== src/Vm/Copyin.antt =====
-- copyin of kernel/vm.c: it reads through the translation, page by page, and its fuel suffices.
pub mod Round
use wl_00_rv.Prelude.{
  ℕ, zero, suc, ◌+◌, ◌-◌, ◌%◌, ◌^◌, ◌≡◌, ◌≢◌, ◌≤◌, ◌<◌, ◌⊎◌, inl, inr, refl, ap, subst, ◌∙◌, sym,
  arith, true, false, ◌==◌, ltb, if◌then◌else◌, Bool-cases, add32,
}
use wl_00_rv.Machine.{Kernel, ok}
use wl_00_rv.Mem.{page_size, memmove}
use wl_00_rv.Mem.Bytes.{within, memmove-within}
use wl_00_rv.Vm.Defs.{pte_r, minus_one}
use wl_00_rv.Vm.Copy.{chunk, copyin, copyin_loop}
use wl_00_rv.Vm.Tables.{IsPagetable, IsOutside}
use wl_00_rv.Vm.Access.{
  user_address-offset, user_address-add, user_address-untouched, user_address,
  find_user_pa-user_address,
}
use wl_00_rv.Vm.Untouched.{with_ram, IsPagetable-untouched, IsOutside-untouched}
use wl_00_rv.Vm.Copyin.Round.{
  IsBuffer, Copied, Outcome, pa, n, after, chunk_lem, after-same, IsBuffer-after, step,
  Outcome-after,
}

copyin_loop-done :
    (fuel : ℕ) (s : Kernel) (pt dst va : ℕ) → copyin_loop (suc fuel) pt dst va 0 s ≡ ok 0 s
unfolding copyin_loop
copyin_loop-done fuel s pt dst va = refl

copyin_loop-refused :
    (fuel : ℕ) (s : Kernel) (pt dst va len : ℕ)
    → IsPagetable s pt
    → 0 < len
    → user_address s.ram pt va pte_r ≡ 0
    → copyin_loop (suc fuel) pt dst va len s ≡ ok minus_one s
unfolding copyin_loop
copyin_loop-refused fuel s pt dst va len table some_bytes missing =
    let more : ltb 0 len ≡ true = ground arith in
    rw (more, find_user_pa-user_address pte_r va s pt table (omega arith), missing) refl

copyin_loop-Outcome :
    (fuel : ℕ) (s : Kernel) (pt dst va len : ℕ)
    → IsPagetable s pt
    → IsBuffer s pt dst va len
    → va + len < 2 ^ 32
    → len < fuel
    → (r : ℕ) × (ram : ℕ → ℕ) × (copyin_loop fuel pt dst va len s ≡ ok r (with_ram ram s))
      × Outcome s pt dst va len r ram
copyin_loop-Outcome zero s pt dst va len table buffer top enough = absurd (omega arith)
copyin_loop-Outcome (suc fuel) s pt dst va zero table buffer top enough = (
  0,
  s.ram,
  copyin_loop-done fuel s pt dst va,
  inl (
    refl,
    λ i hi. absurd (omega arith),
    λ a. (let no_byte : within dst 0 a ≡ false = ground arith in rw no_byte refl),
  ),
)
copyin_loop-Outcome (suc fuel) s pt dst va (suc l) table buffer top enough =
    elim (Bool-cases (user_address s.ram pt va pte_r == 0)) [
      | inl e ↦
          let here : va + 0 ≡ va = omega arith in
          let missing : user_address s.ram pt va pte_r ≡ 0 = ground arith in
          (
            minus_one,
            s.ram,
            copyin_loop-refused fuel s pt dst va (suc l) table (omega arith) missing,
            inr (
              refl,
              (0, omega arith, ap (λ x. user_address s.ram pt x pte_r) here ∙ missing),
              λ a far. refl,
            ),
          )
      | inr e ↦
          let readable : user_address s.ram pt va pte_r ≢ 0 = ground arith in
          let size = chunk (user_address s.ram pt va pte_r) (suc l) in
          let fits = chunk_lem s pt dst va (suc l) table buffer (omega arith) top readable in
          let t = after s pt dst va (suc l) table buffer (omega arith) top readable in
          let (r, ram, run, out) =
            copyin_loop-Outcome fuel t pt (dst + size) (va + size) (suc l - size)
              (IsPagetable-untouched s t.ram pt
                (after-same s pt dst va (suc l) table buffer (omega arith) top readable) table)
              (IsBuffer-after s pt dst va (suc l) table buffer (omega arith) top readable)
              (omega (arith, fits)) (omega (arith, fits)) in
          (
            r,
            ram,
            step s pt dst va (suc l) table buffer (omega arith) top readable fuel ∙ run,
            Outcome-after s pt dst va (suc l) table buffer (omega arith) top readable r ram out,
          )
    ]

-- copyin returns. If the process may read all `len` bytes at `va` it answers 0, with those bytes in
-- the buffer and the rest of RAM as before; else it answers -1 and no byte outside the buffer
-- changes. (The buffer lies outside the page table and the pages that are read.)
pub copyin-Outcome :
    (s : Kernel) (pt dst va len : ℕ)
    → IsPagetable s pt
    → IsBuffer s pt dst va len
    → va + len < 2 ^ 32
    → (r : ℕ) × (ram : ℕ → ℕ) × (copyin pt dst va len s ≡ ok r (with_ram ram s))
      × Outcome s pt dst va len r ram
unfolding copyin
copyin-Outcome s pt dst va len table buffer top =
    copyin_loop-Outcome (suc len) s pt dst va len table buffer top (omega arith)
