-- ===== src/User/Ulib.antt =====
-- memset and memmove of user/ulib.c, on the bytes at each address.
use wl_00_rv.Prelude.{
  ℕ, zero, suc, ◌+◌, ◌-◌, ◌≡◌, ◌≤◌, ◌<◌, ltb, if◌then◌else◌, arith, u8, sym, ◌∙◌,
}
use wl_00_rv.Machine.{update}
use wl_00_rv.Mem.{memset, memmove}
use wl_00_rv.Mem.Bytes.{within, memset-within, memmove-within}

-- while (len-- > 0) *ptr++ = val
unfoldable pub user_memset : (len dst val : ℕ) → (ℕ → ℕ) → ℕ → ℕ
user_memset zero dst val ram = ram
user_memset (suc len) dst val ram = user_memset len (dst + 1) val (update ram dst (u8 val))

-- while (len--) *d++ = *s++
forwards : (len d s : ℕ) → (ℕ → ℕ) → ℕ → ℕ
forwards zero d s ram = ram
forwards (suc len) d s ram = forwards len (d + 1) (s + 1) (update ram d (ram s))

-- while (len--) *--d = *--s
backwards : (len d s : ℕ) → (ℕ → ℕ) → ℕ → ℕ
backwards zero d s ram = ram
backwards (suc len) d s ram = backwards len (d - 1) (s - 1) (update ram (d - 1) (ram (s - 1)))

unfoldable pub user_memmove : (dst src len : ℕ) → (ℕ → ℕ) → ℕ → ℕ
unfolding forwards backwards
user_memmove dst src len ram =
    if ltb dst src then forwards len dst src ram else backwards len (dst + len) (src + len) ram

forwards-within :
    (n d s : ℕ) (ram : ℕ → ℕ) (a : ℕ)
    → d < s
    → forwards n d s ram a ≡ (if within d n a then ram (s + (a - d)) else ram a)
unfolding forwards
forwards-within zero d s ram a h = ground arith
forwards-within (suc n) d s ram a h =
    ground (arith, forwards-within n (d + 1) (s + 1) (update ram d (ram s)) a)

backwards-within :
    (n d s : ℕ) (ram : ℕ → ℕ) (a : ℕ)
    → s ≤ d
    → backwards n (d + n) (s + n) ram a ≡ (if within d n a then ram (s + (a - d)) else ram a)
unfolding backwards
backwards-within zero d s ram a h = ground arith
backwards-within (suc n) d s ram a h =
    let from_d : d + suc n - 1 ≡ d + n = omega arith in
    let from_s : s + suc n - 1 ≡ s + n = omega arith in
    rw (from_d, from_s)
      (ground (arith, backwards-within n d s (update ram (d + n) (ram (s + n))) a))

user_memset-within :
    (len dst val : ℕ) (ram : ℕ → ℕ) (a : ℕ)
    → user_memset len dst val ram a ≡ (if within dst len a then u8 val else ram a)
unfolding user_memset
user_memset-within zero dst val ram a = ground arith
user_memset-within (suc len) dst val ram a =
    ground (arith, user_memset-within len (dst + 1) val (update ram dst (u8 val)) a)

-- memmove and memset of the user library do what those of the kernel do, although the two memmoves
-- choose the direction of the copy by different tests.
pub user_memmove-memmove :
    (dst src len val : ℕ) (ram : ℕ → ℕ) (a : ℕ)
    → (user_memmove dst src len ram a ≡ memmove dst src len ram a)
      × (user_memset len dst val ram a ≡ memset dst val len ram a)
unfolding user_memmove
user_memmove-memmove dst src len val ram a = (
  ground (
    arith,
    forwards-within len dst src ram a,
    backwards-within len dst src ram a,
    memmove-within dst src len ram a,
  ),
  user_memset-within len dst val ram a ∙ sym (memset-within dst val len ram a),
)
