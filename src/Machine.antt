-- ===== src/Machine.antt =====
-- The machine as one hart sees it: its registers, the RAM, and the globals of the kernel, with
-- the structs of kernel/proc.h and kernel/spinlock.h. A kernel function is a command: it ends with
-- a result, halts the hart in panic(), or spins forever on a lock that nobody releases meanwhile.
-- Pointers to locks, harts and processes are numbers (Spinlock has the locks by name).
use wl_00_rv.Prelude.{
  ℕ, ◌==◌, if◌then◌else◌, Bool, true, Option, none, some, List, ◌∷◌, [], ◌++◌, String, codes,
  bit_and, bit_or, ◌!=◌,
}
use wl_00_rv.Registers.{Csr}
use wl_00_rv.Text.{word, str, format}

-- struct context; `saved` holds s0 to s11.
pub record Context : Type 0 where
  pub ra : ℕ
  pub sp : ℕ
  pub saved : List ℕ

-- struct cpu. `proc` is an index into the process table, `none` for NULL.
pub record Cpu : Type 0 where
  pub id : ℕ
  pub depth : ℕ
  pub intena : ℕ
  pub proc : Option ℕ
  pub context : Context

-- struct spinlock. `cpu` is an index into cpus, `none` for NULL.
pub record Spinlock : Type 0 where
  pub lock : ℕ
  pub cpu : Option ℕ
  pub name : String

-- enum procstate
pub data ProcState : Type 0 where
  unused new ready running waiting zombie : ProcState

-- struct proc, less its lock, which stands in `locks`. `pt`, `kstack` and `tf` are addresses, 0
-- for NULL; `chan` is an address, 0 for NULL; `parent` is an index into the process table.
pub record Proc : Type 0 where
  pub pid : ℕ
  pub state : ProcState
  pub name : List ℕ
  pub pt : ℕ
  pub kstack : ℕ
  pub sz : ℕ
  pub tf : ℕ
  pub xstate : ℕ
  pub chan : ℕ
  pub context : Context
  pub parent : Option ℕ

pub record Kernel : Type 0 where
  pub tp : ℕ  -- the hart that runs
  pub sstatus : ℕ
  pub cpus : ℕ → Cpu
  pub locks : ℕ → Spinlock
  pub ram : ℕ → ℕ  -- a byte at each address
  pub mem_bitmap : ℕ → ℕ
  pub start_page : ℕ
  pub kptable : ℕ
  pub satp : ℕ
  pub csrs : Csr → ℕ  -- the other registers of kernel/csr.c
  pub proctable : ℕ → Proc
  pub curr_pid : ℕ
  pub ticks : ℕ
  pub hang : Bool
  pub console : List ℕ  -- the bytes sent to the UART

pub data Run (A : Type 0) : Type 0 where
  ok : A → Kernel → Run A
  halted : String → Kernel → Run A
  spinning : (lk : ℕ) → Kernel → Run A
  undefined : Run A  -- C leaves the behaviour open

abbrev pub Cmd : Type 0 → Type 0
Cmd A = Kernel → Run A

abbrev pub pure : {A : Type 0} → A → Cmd A
pure = ok

module _ {A B : Type 0} where
  abbrev pub and_then : Run A → (A → Cmd B) → Run B
  and_then (ok a s) k = k a s
  and_then (halted msg s) k = halted msg s
  and_then (spinning lk s) k = spinning lk s
  and_then undefined k = undefined

  infixl 5 ◌>>=◌ ◌>>◌
  abbrev pub ◌>>=◌ : Cmd A → (A → Cmd B) → Cmd B
  m >>= k = λ s. and_then (m s) k

  abbrev pub ◌>>◌ : Cmd A → Cmd B → Cmd B
  m >> n = m >>= λ _. n

-- A command that only changes the state.
abbrev pub modify : (Kernel → Kernel) → Cmd (Unit {0})
modify f s = ok tt (f s)

module _ {A : Type 0} where
  abbrev pub update : (ℕ → A) → ℕ → A → ℕ → A
  update f i a j = if i == j then a else f j

-- SSTATUS_SIE, and its complement as a uint32_t
abbrev pub sstatus_sie : ℕ
sstatus_sie = 0x2

abbrev not_sie : ℕ
not_sie = 0xffff_fffd

-- kernel/rv.c
unfoldable pub is_interrupt : Kernel → Bool
is_interrupt s = bit_and s.sstatus sstatus_sie != 0

unfoldable pub interrupt_on : Kernel → Kernel
interrupt_on s = record s { sstatus = bit_or s.sstatus sstatus_sie }

unfoldable pub interrupt_off : Kernel → Kernel
interrupt_off s = record s { sstatus = bit_and s.sstatus not_sie }

-- The state in which panic(msg) leaves its hart: interrupts off, `hang` set, and the message sent.
unfoldable pub panicked : String → Kernel → Kernel
unfolding interrupt_off
panicked msg s =
    let text = format (codes "KERNEL PANIC (cpu %d): %s\n") (word s.tp ∷ str (codes msg) ∷ []) in
    record (interrupt_off s) {
      hang = true;
      console = elim text [ none ↦ s.console | some t ↦ s.console ++ t ];
    }

-- panic() never returns.
abbrev pub panic : {A : Type 0} → String → Cmd A
panic msg s = halted msg (panicked msg s)
