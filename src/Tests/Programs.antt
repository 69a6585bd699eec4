-- ===== src/Tests/Programs.antt =====
-- The library of user programs at concrete inputs.
use wl_00_rv.Prelude.{◌≡◌, ◌≢◌, refl, arith, true, false, some, none, codes, [], ◌∷◌}
use wl_00_rv.Text.{word, str, signed_digits, print_uint}
use wl_00_rv.Mem.{memset, memmove}
use wl_00_rv.User.Ulib.{user_memset, user_memmove, user_memmove-memmove}
use wl_00_rv.User.Printf.{user_printint, user_format}
use wl_00_rv.User.Agree.{user_printint-signed_digits}

greets :
    user_format
      (codes "%s: %d of 100%%, at %p\n")
      (str (codes "echo") ∷ word 0xffff_fffe ∷ word 255 ∷ [])
    ≡ some (codes "echo: -2 of 100%, at 0xff\n")
unfolding user_format user_printint
greets = refl

user_memmove-memmove_example :
    (user_memmove 10 8 4 (λ a. a) 11 ≡ memmove 10 8 4 (λ a. a) 11)
    × (user_memset 4 10 300 (λ a. a) 11 ≡ memset 10 300 4 (λ a. a) 11)
user_memmove-memmove_example = user_memmove-memmove 10 8 4 300 (λ a. a) 11

user_printint-signed_digits_example :
    (user_printint 0xffff_fffe 10 true ≡ signed_digits 0xffff_fffe 10)
    × (user_printint 0xffff_fffe 16 false ≡ print_uint 0xffff_fffe 16)
    × (user_printint 0xffff_fffe 16 false ≢ none)
user_printint-signed_digits_example = user_printint-signed_digits 0xffff_fffe (omega arith)
