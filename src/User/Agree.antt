-- ===== src/User/Agree.antt =====
-- The numbers of the user's printf and of the kernel's are the same text.
use wl_00_rv.Prelude.{
  ℕ, zero, suc, ◌+◌, ◌/◌, ◌%◌, ◌^◌, ◌≡◌, ◌≢◌, ◌≤◌, ◌<◌, inl, inr, refl, ap, ◌∙◌, sym, arith, true,
  false, none, some, List, [], ◌∷◌, ltb, leb, ◌==◌, length, sub32, Bool-cases, lt→ltb,
}
use mathlib.Core.Option.{some-ne-none}
use native.Mathlib.Nat.{div-lt_iff_lt-mul, pow-suc, pow-zero}
use wl_00_rv.Text.{digit, uint_loop, print_uint, signed_digits, ◌>>=◌}
use wl_00_rv.User.Printf.{digits_loop, user_printint}

room_left : (n x base : ℕ) → x < base ^ n → x ≢ 0 → 1 ≤ n
room_left zero x base fits ne = absurd (ne (omega (arith, pow-zero base)))
room_left (suc n) x base fits ne = omega arith

-- In a buffer that holds the digits both loops write the same.
digits_loop-uint_loop :
    (n m u base : ℕ) (buf : List ℕ)
    → 0 < base
    → u < base ^ n
    → 1 ≤ n
    → n ≤ m
    → digits_loop n u base buf ≡ uint_loop m u base buf
unfolding digits_loop uint_loop
digits_loop-uint_loop zero m u base buf hb fits pos le = absurd (omega arith)
digits_loop-uint_loop (suc n) zero u base buf hb fits pos le = absurd (omega arith)
digits_loop-uint_loop (suc n) (suc m) u base buf hb fits pos le =
    elim (Bool-cases (u / base == 0)) [
      | inl e ↦ rw e refl
      | inr e ↦
          let small : u / base < base ^ n =
            (div-lt_iff_lt-mul hb).1 (rw (pow-suc base n) at fits) in
          rw e (
            digits_loop-uint_loop n m (u / base) base (digit (u % base) ∷ buf) hb small
              (room_left n (u / base) base small (ground arith)) (omega arith))
    ]

digits_loop-length :
    (n u base : ℕ) (buf : List ℕ)
    → 0 < base
    → u < base ^ n
    → 1 ≤ n
    → (text : List ℕ) × (digits_loop n u base buf ≡ some text) × (length text ≤ n + length buf)
unfolding digits_loop
digits_loop-length zero u base buf hb fits pos = absurd (omega arith)
digits_loop-length (suc n) u base buf hb fits pos = elim (Bool-cases (u / base == 0)) [
  | inl e ↦ (digit (u % base) ∷ buf, rw e refl, omega arith)
  | inr e ↦
      let small : u / base < base ^ n = (div-lt_iff_lt-mul hb).1 (rw (pow-suc base n) at fits) in
      let (text, done, short) =
        digits_loop-length n (u / base) base (digit (u % base) ∷ buf) hb small
          (room_left n (u / base) base small (ground arith)) in
      (text, rw e done, omega arith)
]

-- The digits of a 32-bit number, in the buffers of both functions.
both_loops :
    (u base : ℕ)
    → 0 < base
    → u < base ^ 10
    → u < base ^ 12
    → (text : List ℕ) × (digits_loop 12 u base [] ≡ some text)
      × (uint_loop 32 u base [] ≡ some text)
      × (uint_loop 34 u base [] ≡ some text)
      × (length text ≤ 10)
both_loops u base pos fits wide =
    let (text, done, short) = digits_loop-length 10 u base [] pos fits (omega arith) in
    let agree = digits_loop-uint_loop 12 34 u base [] pos wide (omega arith) (omega arith) in
    let here = digits_loop-uint_loop 10 34 u base [] pos fits (omega arith) (omega arith) in
    let there = digits_loop-uint_loop 10 32 u base [] pos fits (omega arith) (omega arith) in
    (text, agree ∙ (sym here ∙ done), sym there ∙ done, sym here ∙ done, short)

user_printint-hex : (x : ℕ) → x < 2 ^ 32 → user_printint x 16 false ≡ print_uint x 16
unfolding user_printint print_uint
user_printint-hex x h =
    let (text, a, b, c, short) = both_loops x 16 (omega arith) (omega arith) (omega arith) in
    ap (λ m. m >>= some) a ∙ sym b

hex_written : (x : ℕ) → x < 2 ^ 32 → user_printint x 16 false ≢ none
unfolding user_printint
hex_written x h lost =
    let (text, a, b, c, short) = both_loops x 16 (omega arith) (omega arith) (omega arith) in
    some-ne-none text (sym (ap (λ m. m >>= some) a) ∙ lost)

signed_user :
    (x : ℕ) (text : List ℕ)
    → leb (2 ^ 31) x ≡ true
    → digits_loop 12 (sub32 0 x) 10 [] ≡ some text
    → length text ≤ 10
    → user_printint x 10 true ≡ some (b'-' ∷ text)
unfolding user_printint
signed_user x text e done short =
    let fits : ltb (length text) 12 ≡ true = lt→ltb (length text) 12 (omega arith) in
    rw (e, done, fits) refl

signed_kernel :
    (x : ℕ) (text : List ℕ)
    → leb (2 ^ 31) x ≡ true
    → uint_loop 34 (sub32 0 x) 10 [] ≡ some text
    → length text ≤ 10
    → signed_digits x 10 ≡ some (b'-' ∷ text)
unfolding signed_digits
signed_kernel x text e done short =
    let fits : ltb (length text) 34 ≡ true = lt→ltb (length text) 34 (omega arith) in
    rw (e, done, fits) refl

unsigned_user :
    (x : ℕ) (text : List ℕ)
    → leb (2 ^ 31) x ≡ false
    → digits_loop 12 x 10 [] ≡ some text
    → user_printint x 10 true ≡ some text
unfolding user_printint
unsigned_user x text e done = rw (e, done) refl

unsigned_kernel :
    (x : ℕ) (text : List ℕ)
    → leb (2 ^ 31) x ≡ false
    → uint_loop 34 x 10 [] ≡ some text
    → signed_digits x 10 ≡ some text
unfolding signed_digits
unsigned_kernel x text e done = rw (e, done) refl

user_printint-decimal : (x : ℕ) → x < 2 ^ 32 → user_printint x 10 true ≡ signed_digits x 10
user_printint-decimal x h = elim (Bool-cases (leb (2 ^ 31) x)) [
  | inl e ↦
      let (text, a, b, c, short) =
        both_loops (sub32 0 x) 10 (omega arith) (omega arith) (omega arith) in
      signed_user x text e a (omega arith) ∙ sym (signed_kernel x text e c (omega arith))
  | inr e ↦
      let (text, a, b, c, short) = both_loops x 10 (omega arith) (omega arith) (omega arith) in
      unsigned_user x text e a ∙ sym (unsigned_kernel x text e c)
]

-- For a 32-bit word, printint of the user library stays inside its buffer of 12 bytes and writes what
-- the kernel's printf sends: for a signed number in base 10, and for an unsigned one in base 16.
pub user_printint-signed_digits :
    (x : ℕ)
    → x < 2 ^ 32
    → (user_printint x 10 true ≡ signed_digits x 10)
      × (user_printint x 16 false ≡ print_uint x 16)
      × (user_printint x 16 false ≢ none)
user_printint-signed_digits x h =
    (user_printint-decimal x h, user_printint-hex x h, hex_written x h)
