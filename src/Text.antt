-- ===== src/Text.antt =====
-- kernel/kprint.c, the part that computes bytes: string length and order, numbers in a base, and
-- the format language of printf. A C string is the list of bytes from its pointer on; a printing
-- function is the list of bytes that it sends, or `none` where the C is undefined (an access
-- outside a buffer, an argument that is missing or of the wrong type).
pub mod Order
pub mod Numbers
use wl_00_rv.Prelude.{
  ℕ, zero, suc, ◌+◌, ◌*◌, ◌/◌, ◌%◌, ◌^◌, Bool, true, false, ◌&&◌, ◌||◌, Option, none, some, List,
  [], ◌∷◌, ◌++◌, ltb, leb, ◌==◌, ◌!=◌, if◌then◌else◌, codes, length, get_or, u8, sub32,
}

module _ {A B : Type 0} where
  infixl 5 ◌>>=◌
  abbrev pub ◌>>=◌ : Option A → (A → Option B) → Option B
  none >>= f = none
  some a >>= f = f a

strlen_loop : List ℕ → ℕ → Option ℕ
strlen_loop [] count = none
strlen_loop (c ∷ str) count = if c == 0 then some count else strlen_loop str (count + 1)

unfoldable pub strlen : List ℕ → Option ℕ
unfolding strlen_loop
strlen str = strlen_loop str 0

-- An `int` result is its 32-bit pattern.
unfoldable pub strcmp : List ℕ → List ℕ → Option ℕ
strcmp [] b = none
strcmp (x ∷ a) [] = none
strcmp (x ∷ a) (y ∷ b) = if (x != 0) && (x == y) then strcmp a b else some (sub32 x y)

-- `digits[d]`
abbrev pub digit : ℕ → ℕ
digit d = get_or (codes "0123456789abcdef") d 0

-- The do-while loop of print_uint and printint. `nums` is the written part of the buffer, its last
-- byte first, which is the order of printing; `room` is what is left of the buffer.
unfoldable pub uint_loop : (room num base : ℕ) → List ℕ → Option (List ℕ)
uint_loop zero num base nums = none
uint_loop (suc room) num base nums =
    let rest = uint_loop room (num / base) base (digit (num % base) ∷ nums) in
    if num / base == 0 then some (digit (num % base) ∷ nums) else rest

unfoldable pub print_uint : (num base : ℕ) → Option (List ℕ)
unfolding uint_loop
print_uint num base = uint_loop 32 num base []

-- printint behind its test of the base; `num` is the pattern of an int32_t.
unfoldable pub signed_digits : (num base : ℕ) → Option (List ℕ)
unfolding uint_loop
signed_digits num base = do
  let negative = leb (2 ^ 31) num
  let n = if negative then sub32 0 num else num
  nums ← uint_loop 34 n base []
  if negative then (if ltb (length nums) 34 then some (b'-' ∷ nums) else none) else some nums

-- The rounds of print_addr from bit `4 * (k - 1)` down to bit 0.
addr_loop : ℕ → ℕ → List ℕ
addr_loop zero addr = []
addr_loop (suc k) addr = digit (addr / 2 ^ (4 * k) % 16) ∷ addr_loop k addr

unfoldable pub print_addr : ℕ → List ℕ
unfolding addr_loop
print_addr addr = codes "0x" ++ addr_loop 8 addr

-- What va_arg finds: a 32-bit word, or a pointer to a string, as the bytes before its NUL.
pub data Arg : Type 0 where
  word : ℕ → Arg
  str : List ℕ → Arg

-- What a conversion does: send bytes and go on, or send bytes and end the loop.
pub data Conversion : Type 0 where
  emit : List ℕ → List Arg → Conversion
  terminate : List ℕ → Conversion

unfoldable pub send_word : (ℕ → Option (List ℕ)) → List Arg → Option Conversion
send_word print (word num ∷ args) = do text ← print num; some (emit text args)
send_word print args = none

unfoldable pub send_str : List Arg → Option Conversion
send_str (str text ∷ args) = some (emit text args)
send_str args = none

-- The switch of printf.
unfoldable pub convert : ℕ → List Arg → Option Conversion
unfolding send_word send_str
convert c args =
    if c == b'd'
    then send_word (λ num. signed_digits num 10) args
    else if c == b'u'
    then send_word (λ num. print_uint num 10) args
    else if c == b'x'
    then send_word (λ num. print_uint num 16) args
    else if c == b'p'
    then send_word (λ ptr. some (print_addr ptr)) args
    else if c == b's'
    then send_str args
    else if c == b'c'
    then send_word (λ c. some (u8 c ∷ [])) args
    else some (terminate (codes "unknown specifier"))

-- The rest of the loop, behind a conversion.
unfoldable pub proceed : Option Conversion → (List Arg → Option (List ℕ)) → Option (List ℕ)
proceed none rest = none
proceed (some (emit text args)) rest = do more ← rest args; some (text ++ more)
proceed (some (terminate text)) rest = some text

-- The loop of printf: the bytes that it sends for a format string and its arguments.
unfoldable pub format : List ℕ → List Arg → Option (List ℕ)
unfolding convert proceed
format [] args = some []
format (c ∷ []) args =
    some (if c == b'%' then codes "printf: format specifier followed by null\n" else c ∷ [])
format (c ∷ d ∷ fmt) args = elim (c == b'%') [
  | true ↦ proceed (convert d args) (format fmt)
  | false ↦ do more ← format (d ∷ fmt) args; some (c ∷ more)
]

-- The C string that starts the bytes, without its NUL.
unfoldable pub text_of : List ℕ → List ℕ
text_of [] = []
text_of (c ∷ more) = let rest = text_of more in if c == 0 then [] else c ∷ rest
