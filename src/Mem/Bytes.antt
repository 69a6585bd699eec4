-- ===== src/Mem/Bytes.antt =====
-- memset and memmove, byte by byte.
use wl_00_rv.Prelude.{
  ℕ, zero, suc, ◌+◌, ◌-◌, ◌≡◌, ◌≤◌, ◌<◌, arith, Bool, ◌&&◌, ltb, leb, if◌then◌else◌, u8,
}
use wl_00_rv.Machine.{update}
use wl_00_rv.Mem.{memset, memset_loop, memmove, copy_down, copy_up}

-- `a` is one of the `n` addresses from `p` on
abbrev pub within : (p n a : ℕ) → Bool
within p n a = leb p a && ltb a (p + n)

memset_loop-within :
    (n curr value : ℕ) (ram : ℕ → ℕ) (a : ℕ)
    → memset_loop n curr value ram a ≡ (if within curr n a then u8 value else ram a)
unfolding memset_loop
memset_loop-within zero curr value ram a = ground arith
memset_loop-within (suc n) curr value ram a =
    ground (arith, memset_loop-within n (curr + 1) value (update ram curr (u8 value)) a)

-- memset writes the low byte of the value to each of the addresses, and nothing else.
pub memset-within :
    (ptr value num : ℕ) (ram : ℕ → ℕ) (a : ℕ)
    → memset ptr value num ram a ≡ (if within ptr num a then u8 value else ram a)
unfolding memset
memset-within ptr value num ram a = memset_loop-within num ptr value ram a

-- Going up is right unless the target starts inside the source.
copy_up-within :
    (n d s : ℕ) (ram : ℕ → ℕ) (a : ℕ)
    → (s < d → s + n ≤ d)
    → copy_up n d s ram a ≡ (if within d n a then ram (s + (a - d)) else ram a)
unfolding copy_up
copy_up-within zero d s ram a h = ground arith
copy_up-within (suc n) d s ram a h =
    ground (arith, copy_up-within n (d + 1) (s + 1) (update ram d (ram s)) a)

-- Going down, from the ends `d + n` and `s + n`, is right if the source starts below the target.
copy_down-within :
    (n d s : ℕ) (ram : ℕ → ℕ) (a : ℕ)
    → s < d
    → copy_down n (d + n) (s + n) ram a ≡ (if within d n a then ram (s + (a - d)) else ram a)
unfolding copy_down
copy_down-within zero d s ram a h = ground arith
copy_down-within (suc n) d s ram a h =
    let top_d : d + suc n - 1 ≡ d + n = omega arith in
    let top_s : s + suc n - 1 ≡ s + n = omega arith in
    rw (top_d, top_s) (ground (arith, copy_down-within n d s (update ram (d + n) (ram (s + n))) a))

-- memmove copies the bytes as they were before the call, whether or not the areas overlap, and
-- changes no byte outside the target.
pub memmove-within :
    (dst src n : ℕ) (ram : ℕ → ℕ) (a : ℕ)
    → memmove dst src n ram a ≡ (if within dst n a then ram (src + (a - dst)) else ram a)
unfolding memmove
memmove-within dst src n ram a =
    ground (arith, copy_down-within n dst src ram a, copy_up-within n dst src ram a)
