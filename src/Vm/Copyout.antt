-- ===== src/Vm/Copyout.antt =====
-- copyout of kernel/vm.c: it writes through the translation, page by page, and its fuel suffices.
pub mod Round
use wl_00_rv.Prelude.{
  ℕ, zero, suc, ◌+◌, ◌-◌, ◌%◌, ◌^◌, ◌≡◌, ◌≢◌, ◌≤◌, ◌<◌, ◌⊎◌, inl, inr, refl, ap, subst, ◌∙◌, sym,
  arith, true, false, ◌==◌, ltb, Bool-cases, add32,
}
use wl_00_rv.Machine.{Kernel, ok}
use wl_00_rv.Mem.{page_size, memmove}
use wl_00_rv.Mem.Bytes.{within, memmove-within}
use wl_00_rv.Vm.Defs.{pte_w, minus_one}
use wl_00_rv.Vm.Copy.{chunk, copyout, copyout_loop}
use wl_00_rv.Vm.Tables.{IsPagetable, IsOutside}
use wl_00_rv.Vm.Access.{
  user_address, find_user_pa-user_address, user_address-offset, user_address-add,
  user_address-untouched,
}
use wl_00_rv.Vm.Untouched.{with_ram, IsPagetable-untouched, IsOutside-untouched}
use wl_00_rv.Vm.Copyout.Round.{
  target, IsTarget, Kept, Written, pa, n, after, chunk_lem, after-same, IsTarget-after, step,
  Written-after,
}

copyout_loop-done :
    (fuel : ℕ) (s : Kernel) (pt va src : ℕ) → copyout_loop (suc fuel) pt va src 0 s ≡ ok 0 s
unfolding copyout_loop
copyout_loop-done fuel s pt va src = refl

copyout_loop-refused :
    (fuel : ℕ) (s : Kernel) (pt va src len : ℕ)
    → IsPagetable s pt
    → 0 < len
    → target s pt va ≡ 0
    → copyout_loop (suc fuel) pt va src len s ≡ ok minus_one s
unfolding copyout_loop
copyout_loop-refused fuel s pt va src len table some_bytes missing =
    let more : ltb 0 len ≡ true = ground arith in
    rw (more, find_user_pa-user_address pte_w va s pt table (omega arith), missing) refl

copyout_loop-Written :
    (fuel : ℕ) (s : Kernel) (pt va src len : ℕ)
    → IsPagetable s pt
    → IsTarget s pt va src len
    → va + len < 2 ^ 32
    → len < fuel
    → (r : ℕ) × (ram : ℕ → ℕ) × (copyout_loop fuel pt va src len s ≡ ok r (with_ram ram s))
      × Written s pt va src len r ram
copyout_loop-Written zero s pt va src len table user top enough = absurd (omega arith)
copyout_loop-Written (suc fuel) s pt va src zero table user top enough = (
  0,
  s.ram,
  copyout_loop-done fuel s pt va src,
  (λ a far. refl, inl (refl, λ i hi. absurd (omega arith))),
)
copyout_loop-Written (suc fuel) s pt va src (suc l) table user top enough =
    elim (Bool-cases (target s pt va == 0)) [
      | inl e ↦
          let here : va + 0 ≡ va = omega arith in
          let missing : target s pt va ≡ 0 = ground arith in
          (
            minus_one,
            s.ram,
            copyout_loop-refused fuel s pt va src (suc l) table (omega arith) missing,
            (λ a far. refl, inr (refl, (0, omega arith, ap (target s pt) here ∙ missing))),
          )
      | inr e ↦
          let writable : target s pt va ≢ 0 = ground arith in
          let more : 0 < suc l = omega arith in
          let size = chunk (target s pt va) (suc l) in
          let fits = chunk_lem s pt va src (suc l) table user more top writable in
          let t = after s pt va src (suc l) table user more top writable in
          let (r, ram, run, out) =
            copyout_loop-Written fuel t pt (va + size) (src + size) (suc l - size)
              (IsPagetable-untouched s t.ram pt
                (after-same s pt va src (suc l) table user more top writable) table)
              (IsTarget-after s pt va src (suc l) table user more top writable)
              (omega (arith, fits)) (omega (arith, fits)) in
          (
            r,
            ram,
            step s pt va src (suc l) table user more top writable fuel ∙ run,
            Written-after s pt va src (suc l) table user more top writable r ram out,
          )
    ]

-- copyout returns. If the process may write all `len` bytes at `va` it answers 0 and each of them
-- holds the kernel's byte; else it answers -1. In both cases no other byte of RAM changes. (The
-- user's bytes lie outside the page table and the kernel's bytes, and none is mapped twice.)
pub copyout-Written :
    (s : Kernel) (pt va src len : ℕ)
    → IsPagetable s pt
    → IsTarget s pt va src len
    → va + len < 2 ^ 32
    → (r : ℕ) × (ram : ℕ → ℕ) × (copyout pt va src len s ≡ ok r (with_ram ram s))
      × Written s pt va src len r ram
unfolding copyout
copyout-Written s pt va src len table user top =
    copyout_loop-Written (suc len) s pt va src len table user top (omega arith)
