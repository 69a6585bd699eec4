-- ===== src/Kprint.antt =====
-- kernel/kprint.c, the part that acts: printf and error under print_lock. A byte that uart_putc
-- sends is appended to the console; the wait for the transmitter is left out.
pub mod Output
use wl_00_rv.Prelude.{ℕ, Option, none, some, List, [], ◌∷◌, ◌++◌, codes, ◌==◌, ◌||◌, if◌then◌else◌}
use wl_00_rv.Text.{Arg, str, format, signed_digits}
use wl_00_rv.Machine.{Kernel, Run, ok, undefined, Cmd, ◌>>=◌, ◌>>◌, modify}
use wl_00_rv.Spinlock.{print_lock, lock, unlock}

unfoldable pub print_string : List ℕ → Cmd (Unit {0})
print_string text = modify (λ s. record s { console = s.console ++ text })

unfoldable pub putchar : ℕ → Cmd (Unit {0})
unfolding print_string
putchar c = print_string (c ∷ [])

send : Option (List ℕ) → Cmd (Unit {0})
send none s = undefined
send (some text) s = print_string text s

-- A panicking hart may hold print_lock: once `hang` is set nobody takes it.
take_console : Cmd (Unit {0})
take_console s = if s.hang then ok tt s else lock print_lock s

give_console : Cmd (Unit {0})
give_console s = if s.hang then ok tt s else unlock print_lock s

unfoldable pub printf : List ℕ → List Arg → Cmd (Unit {0})
unfolding take_console send print_string give_console
printf fmt args = take_console >> (send (format fmt args) >> give_console)

unfoldable pub error : List ℕ → Cmd (Unit {0})
unfolding printf
error text = printf (codes "error: %s\n") (str text ∷ [])

unfoldable pub printint : (num base : ℕ) → Cmd (Unit {0})
unfolding error send print_string
printint num base =
    if base == 2 || (base == 8 || (base == 10 || base == 16))
    then send (signed_digits num base)
    else error (codes "printint: invalid base")
