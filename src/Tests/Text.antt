-- ===== src/Tests/Text.antt =====
-- kernel/kprint.c at concrete inputs.
use wl_00_rv.Prelude.{ℕ, ◌≡◌, ◌^◌, ◌≤◌, ◌<◌, ◌↔◌, refl, arith, some, [], ◌∷◌, ◌++◌, codes}
use wl_00_rv.Text.{word, str, format, strcmp, print_uint, signed_digits, print_addr}
use wl_00_rv.Text.Order.{Before, strcmp-Before}
use wl_00_rv.Machine.{ok}
use wl_00_rv.Kprint.{error}
use wl_00_rv.Kprint.Output.{sent, error-sent}
use wl_00_rv.Spinlock.Critical.{settled}
use wl_00_rv.Tests.State.{machine, machine-IsSteady}

least_int : signed_digits 0x8000_0000 10 ≡ some (codes "-2147483648")
unfolding signed_digits
least_int = refl

hello :
    format (codes "pid %d (%s): %x at %p\n") (word 3 ∷ str (codes "sh") ∷ word 255 ∷ word 4096 ∷ [])
    ≡ some (codes "pid 3 (sh): ff at 0x00001000\n")
unfolding format signed_digits print_uint print_addr
hello = refl

no_percent : format (codes "100%% sure") [] ≡ some (codes "100unknown specifier")
unfolding format
no_percent = refl

strcmp-Before_example :
    (d : ℕ) × (strcmp (codes "ab" ++ 0 ∷ []) (codes "abc" ++ 0 ∷ []) ≡ some d)
    × ((d ≡ 0) ↔ (codes "ab" ≡ codes "abc"))
    × ((2 ^ 31 ≤ d) ↔ Before (codes "ab") (codes "abc"))
    × (d < 2 ^ 32)
strcmp-Before_example = strcmp-Before (codes "ab") (codes "abc") [] [] (omega arith) (omega arith)

error-sent_example :
    error (codes "argraw") machine
    ≡ ok tt (sent (codes "error: " ++ (codes "argraw" ++ codes "\n")) (settled machine))
error-sent_example = error-sent (codes "argraw") machine refl machine-IsSteady (refl, refl)
