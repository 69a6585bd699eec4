-- ===== src/Vm/Copy.antt =====
-- Translation and the copies between kernel and user memory of kernel/vm.c.
use wl_00_rv.Prelude.{
  ℕ, zero, suc, ◌+◌, ◌-◌, ◌%◌, Bool, true, false, ◌&&◌, not, ltb, ◌==◌, ◌!=◌, if◌then◌else◌,
  bit_and, bit_or, add32,
}
use wl_00_rv.Machine.{ok, undefined, Cmd, pure, ◌>>=◌, ◌>>◌, modify, update}
use wl_00_rv.Mem.{page_size, memmove}
use wl_00_rv.Vm.Defs.{pte_v, pte_u, pte_r, pte_w, pte2pa, find_pte, load, minus_one}

-- PTE_V | PTE_U | need
abbrev pub user_mask : ℕ → ℕ
user_mask need = bit_or (bit_or pte_v pte_u) need

-- Behind the find_pte of find_user_pa.
unfoldable pub user_pa : (va need pte : ℕ) → Cmd ℕ
user_pa va need pte s =
    if pte == 0
    then ok 0 s
    else if bit_and (load pte s) (user_mask need) != user_mask need
    then ok 0 s
    else ok (add32 (pte2pa (load pte s)) (bit_and va 0xfff)) s

unfoldable pub find_user_pa : (pt va need : ℕ) → Cmd ℕ
unfolding user_pa
find_user_pa pt va need = find_pte pt va false >>= user_pa va need

unfoldable pub find_pa : (pt va : ℕ) → Cmd ℕ
unfolding find_user_pa
find_pa pt va = find_user_pa pt va 0

-- How many bytes one round copies: to the end of the page, or all that are left.
abbrev pub chunk : (pa len : ℕ) → ℕ
chunk pa len = let n = page_size - pa % page_size in if ltb len n then len else n

-- The while loop of copyin, on fuel: each round copies at least one byte.
unfoldable pub copyin_loop : (fuel pt dst src_va len : ℕ) → Cmd ℕ
copyin_loop zero pt dst src_va len s = undefined
copyin_loop (suc fuel) pt dst src_va len s =
    let rest =
      (find_user_pa pt src_va pte_r >>= λ src_pa.
      if src_pa == 0
      then pure minus_one
      else modify (λ t. record t { ram = memmove dst src_pa (chunk src_pa len) t.ram })
        >> copyin_loop fuel pt (dst + chunk src_pa len) (add32 src_va (chunk src_pa len))
            (len - chunk src_pa len))
        s in
    if ltb 0 len then rest else ok 0 s

unfoldable pub copyin : (pt dst src_va len : ℕ) → Cmd ℕ
unfolding copyin_loop
copyin pt dst src_va len = copyin_loop (suc len) pt dst src_va len

-- The while loop of copyout, on fuel.
unfoldable pub copyout_loop : (fuel pt dst_va src len : ℕ) → Cmd ℕ
copyout_loop zero pt dst_va src len s = undefined
copyout_loop (suc fuel) pt dst_va src len s =
    let rest =
      (find_user_pa pt dst_va pte_w >>= λ dst_pa.
      if dst_pa == 0
      then pure minus_one
      else modify (λ t. record t { ram = memmove dst_pa src (chunk dst_pa len) t.ram })
        >> copyout_loop fuel pt (add32 dst_va (chunk dst_pa len)) (src + chunk dst_pa len)
            (len - chunk dst_pa len))
        s in
    if ltb 0 len then rest else ok 0 s

unfoldable pub copyout : (pt dst_va src len : ℕ) → Cmd ℕ
unfolding copyout_loop
copyout pt dst_va src len = copyout_loop (suc len) pt dst_va src len

-- What the inner loop of copyinstr leaves behind.
pub record Scan : Type 0 where
  pub null : Bool
  pub max : ℕ
  pub dst : ℕ
  pub ram : ℕ → ℕ

-- The inner loop of copyinstr: `n` rounds, unless a NUL ends it.
unfoldable pub copy_text : (n max p dst : ℕ) → (ℕ → ℕ) → Scan
copy_text zero max p dst ram = record { null = false; max = max; dst = dst; ram = ram }
copy_text (suc n) max p dst ram =
    let rest = copy_text n (max - 1) (p + 1) (dst + 1) (update ram dst (ram p)) in
    if ram p == 0
    then record { null = true; max = max; dst = dst; ram = update ram dst 0 }
    else rest

-- The outer loop, on fuel: a round ends with a NUL or copies at least one byte.
unfoldable pub copyinstr_loop : (fuel pt src_va max dst : ℕ) (null : Bool) → Cmd ℕ
copyinstr_loop zero pt src_va max dst null s = undefined
copyinstr_loop (suc fuel) pt src_va max dst null s =
    let rest =
      (find_user_pa pt src_va pte_r >>= λ src_pa. if src_pa == 0 then pure minus_one else λ t.
      (let n = chunk src_pa max in
        let r = copy_text n max src_pa dst t.ram in
        copyinstr_loop fuel pt (add32 src_va n) r.max r.dst r.null (record t { ram = r.ram })))
        s in
    if not null && ltb 0 max then rest else ok (if null then 0 else minus_one) s

unfoldable pub copyinstr : (pt dst src_va max : ℕ) → Cmd ℕ
unfolding copyinstr_loop copy_text
copyinstr pt dst src_va max = copyinstr_loop (suc max) pt src_va max dst false
