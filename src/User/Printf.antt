-- ===== src/User/Printf.antt =====
-- printint and printf of user/printf.c, as the bytes that they write.
use wl_00_rv.Prelude.{
  ℕ, zero, suc, ◌/◌, ◌%◌, ◌^◌, Bool, true, false, ◌&&◌, Option, none, some, List, [], ◌∷◌, ◌++◌,
  ltb, leb, ◌==◌, if◌then◌else◌, codes, length, u8, sub32,
}
use wl_00_rv.Text.{digit, Arg, word, str, Conversion, emit, proceed, ◌>>=◌}

-- The do-while loop of printint, with `room` bytes left of buf; `buf` is the written part, its last
-- byte first.
unfoldable pub digits_loop : (room u base : ℕ) → List ℕ → Option (List ℕ)
digits_loop zero u base buf = none
digits_loop (suc room) u base buf =
    let rest = digits_loop room (u / base) base (digit (u % base) ∷ buf) in
    if u / base == 0 then some (digit (u % base) ∷ buf) else rest

-- `x` is the pattern of an int.
unfoldable pub user_printint : (x base : ℕ) (sign : Bool) → Option (List ℕ)
unfolding digits_loop
user_printint x base sign = do
  let minus = sign && leb (2 ^ 31) x
  let u = if minus then sub32 0 x else x
  buf ← digits_loop 12 u base []
  if minus then (if ltb (length buf) 12 then some (b'-' ∷ buf) else none) else some buf

-- An argument that is printed as a number or as a byte.
unfoldable pub put_word : (ℕ → Option (List ℕ)) → List Arg → Option Conversion
put_word print (word x ∷ args) = do text ← print x; some (emit text args)
put_word print args = none

-- %s, with (null) for a null pointer.
unfoldable pub put_str : List Arg → Option Conversion
put_str (str text ∷ args) = some (emit text args)
put_str (word x ∷ args) = if x == 0 then some (emit (codes "(null)") args) else none
put_str args = none

-- The switch of printf.
unfoldable pub user_convert : ℕ → List Arg → Option Conversion
unfolding put_word put_str
user_convert c args =
    if c == b'd'
    then put_word (λ x. user_printint x 10 true) args
    else if c == b'x'
    then put_word (λ x. user_printint x 16 false) args
    else if c == b'p'
    then put_word (λ x. do text ← user_printint x 16 false; some (codes "0x" ++ text)) args
    else if c == b's'
    then put_str args
    else if c == b'c'
    then put_word (λ x. some (u8 x ∷ [])) args
    else if c == b'%'
    then some (emit (codes "%") args)
    else some (emit (b'%' ∷ c ∷ []) args)

-- The loop of printf.
unfoldable pub user_format : List ℕ → List Arg → Option (List ℕ)
unfolding user_convert proceed
user_format [] args = some []
user_format (c ∷ []) args = some (if c == b'%' then [] else c ∷ [])
user_format (c ∷ d ∷ fmt) args = elim (c == b'%') [
  | true ↦ proceed (user_convert d args) (user_format fmt)
  | false ↦ do more ← user_format (d ∷ fmt) args; some (c ∷ more)
]
