-- ===== src/User/Programs.antt =====
-- user/init.c, user/echo.c and start of user/ulib.c, over the results of their system calls: the
-- kernel's answers to fork, exec and wait are given in order.
use wl_00_rv.Prelude.{
  ℕ, zero, suc, ◌+◌, ◌-◌, ◌^◌, Bool, ltb, leb, ◌==◌, if◌then◌else◌, Option, none, some, List, [],
  ◌∷◌, ◌++◌, codes, get_or,
}
use wl_00_rv.Text.{Arg, word, str}
use wl_00_rv.User.Printf.{user_format}

-- An answer to wait: its result, and the status that it writes.
pub record Reaped : Type 0 where
  pub pid : ℕ
  pub status : ℕ

-- What the kernel answers from here on, and what was printed so far. An answer `none` to exec is
-- that the program is replaced.
pub record World : Type 0 where
  pub forks : List ℕ
  pub execs : List (Option ℕ)
  pub waits : List Reaped
  pub output : List ℕ

-- How far a program gets: to a value, to its exit, to an exec that replaces it, to a call that the
-- kernel has not answered, or to undefined behaviour.
pub data Run (A : Type 0) : Type 0 where
  value : A → World → Run A
  exits : (status : ℕ) → World → Run A
  replaced : World → Run A
  blocked : World → Run A
  undefined : Run A

abbrev pub Prog : Type 0 → Type 0
Prog A = World → Run A

module _ {A B : Type 0} where
  abbrev pub and_then : Run A → (A → Prog B) → Run B
  and_then (value a w) k = k a w
  and_then (exits status w) k = exits status w
  and_then (replaced w) k = replaced w
  and_then (blocked w) k = blocked w
  and_then undefined k = undefined

  infixl 5 ◌>>=◌ ◌>>◌
  abbrev pub ◌>>=◌ : Prog A → (A → Prog B) → Prog B
  m >>= k = λ w. and_then (m w) k

  abbrev pub ◌>>◌ : Prog A → Prog B → Prog B
  m >> n = m >>= λ _. n

abbrev pub negative : ℕ → Bool
negative n = leb (2 ^ 31) n

-- The system calls.
unfoldable pub user_fork : Prog ℕ
user_fork w = elim w.forks [ [] ↦ blocked w | pid ∷ forks ↦ value pid (record w { forks = forks }) ]

unfoldable pub user_exec : Prog ℕ
user_exec w = elim w.execs [
  | [] ↦ blocked w
  | answer ∷ execs ↦ elim answer [
    | none ↦ replaced (record w { execs = execs })
    | some result ↦ value result (record w { execs = execs })
  ]
]

-- printf
unfoldable pub say : List ℕ → List Arg → Prog (Unit {0})
say fmt args w = elim (user_format fmt args) [
  | none ↦ undefined
  | some text ↦ value tt (record w { output = w.output ++ text })
]

-- The while loop of run, by the answers to wait: the status of the child `pid`, `none` for the
-- return of -1.
unfoldable pub await_child : (pid : ℕ) (waits : List Reaped) → Prog (Option ℕ)
await_child pid [] w = blocked (record w { waits = [] })
await_child pid (r ∷ waits) w =
    let rest = await_child pid waits w in
    let taken = record w { waits = waits } in
    if r.pid == pid
    then value (some r.status) taken
    else if negative r.pid
    then value none taken
    else rest

-- The last lines of run.
report : (name : List ℕ) (pid : ℕ) → Option ℕ → Prog ℕ
report name pid none = value 0xffff_ffff
report name pid (some status) =
    say (codes "init: %s (pid %d) exited with status %d\n") (str name ∷ word pid ∷ word status ∷ [])
    >> value status

-- The child: it execs, or it exits. Behind an exec that returned no error its status is not set.
child : (name : List ℕ) → Prog ℕ
child name = user_exec >>= λ result.
    if negative result
    then say (codes "init: exec %s failed\n") (str name ∷ []) >> exits 1
    else λ w. undefined

-- `name` is argv[0].
unfoldable pub run : (name : List ℕ) → Prog ℕ
unfolding report child
run name = user_fork >>= λ pid.
    if negative pid
    then say (codes "init: fork failed\n") [] >> value 0xffff_ffff
    else if pid == 0
    then child name
    else (λ w. await_child pid w.waits w) >>= report name pid

-- The endless loop of init, by the answers to wait; sleep(100) changes nothing that init sees.
reap_loop : List Reaped → Prog ℕ
reap_loop [] w = blocked (record w { waits = [] })
reap_loop (r ∷ waits) w = reap_loop waits w

-- main of init; `me` is the answer to getpid.
unfoldable pub init_main : (me : ℕ) → Prog ℕ
unfolding run reap_loop
init_main me =
    say (codes "init: starting (pid %d)\n") (word me ∷ [])
    >> run (codes "echo")
    >> run (codes "hello")
    >> run (codes "nope")
    >> λ w. reap_loop w.waits w

-- The for loop of echo, by the rounds left.
echo_loop : (rounds i argc : ℕ) (argv : List (List ℕ)) → Prog (Unit {0})
echo_loop zero i argc argv = value tt
echo_loop (suc n) i argc argv =
    say (if ltb i (argc - 1) then codes "%s " else codes "%s") (str (get_or argv i []) ∷ [])
    >> echo_loop n (i + 1) argc argv

-- main of echo: the loop has argc - 1 rounds.
unfoldable pub echo_main : (argc : ℕ) (argv : List (List ℕ)) → Prog ℕ
unfolding echo_loop
echo_main argc argv = echo_loop (argc - 1) 1 argc argv >> say (codes "\n") [] >> value 0

-- start of user/ulib.c
unfoldable pub start :
    (main : ℕ → List (List ℕ) → Prog ℕ) (argc : ℕ) (argv : List (List ℕ)) → Prog (Unit {0})
start main argc argv = main argc argv >>= exits
