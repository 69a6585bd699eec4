-- ===== src/Kprint/Output.antt =====
-- What printf and error send, and that they leave the locks as they were.
use wl_00_rv.Prelude.{
  ℕ, ◌≡◌, refl, ap, ◌∙◌, true, false, some, List, [], ◌∷◌, ◌++◌, codes, if◌then◌else◌,
}
use wl_00_rv.Text.{Arg, str, format}
use wl_00_rv.Machine.{Kernel, ok, and_then, ◌>>◌}
use wl_00_rv.Spinlock.{print_lock, lock, unlock}
use wl_00_rv.Spinlock.Critical.{
  IsSteady, IsFree, entered, settled, with_hart, lock-entered, unlock-entered,
}
use wl_00_rv.Kprint.{printf, error, send, give_console}

-- `s` with `text` sent to the UART
abbrev pub sent : List ℕ → Kernel → Kernel
sent text s = record s { console = s.console ++ text }

-- Once a hart has panicked a printf needs no lock.
pub printf-hanging :
    (fmt : List ℕ) (args : List Arg) (text : List ℕ) (s : Kernel)
    → format fmt args ≡ some text
    → s.hang ≡ true
    → printf fmt args s ≡ ok tt (sent text s)
unfolding printf
printf-hanging fmt args text s e panicking =
    ap
      (λ b.
        and_then (if b then ok tt s else lock print_lock s)
          (λ _. send (format fmt args) >> give_console))
      panicking
    ∙ rw e (ap (λ b. if b then ok tt (sent text s) else unlock print_lock (sent text s)) panicking)

pub printf-sent :
    (fmt : List ℕ) (args : List Arg) (text : List ℕ) (s : Kernel)
    → format fmt args ≡ some text
    → IsSteady s
    → IsFree print_lock s
    → (s.hang ≡ false → printf fmt args s ≡ ok tt (sent text (settled s)))
      × (s.hang ≡ true → printf fmt args s ≡ ok tt (sent text s))
unfolding printf entered settled
printf-sent fmt args text s e steady free = (
  λ calm.
      ap
        (λ b.
          and_then (if b then ok tt s else lock print_lock s)
            (λ _. send (format fmt args) >> give_console))
        calm
      ∙ rw (lock-entered print_lock s steady.wide free, e)
          (let t = with_hart (entered print_lock s) (sent text s) in
            ap (λ b. if b then ok tt t else unlock print_lock t) calm
            ∙ unlock-entered print_lock s (sent text s) steady free),
  λ panicking. printf-hanging fmt args text s e panicking,
)

error_text :
    (text : List ℕ)
    → format (codes "error: %s\n") (str text ∷ []) ≡ some (codes "error: " ++ (text ++ codes "\n"))
unfolding format
error_text text = refl

-- error(text) sends the line "error: <text>".
pub error-sent :
    (text : List ℕ) (s : Kernel)
    → s.hang ≡ false
    → IsSteady s
    → IsFree print_lock s
    → error text s ≡ ok tt (sent (codes "error: " ++ (text ++ codes "\n")) (settled s))
unfolding error
error-sent text s calm steady free =
    (printf-sent (codes "error: %s\n") (str text ∷ []) _ s (error_text text) steady free).0 calm
