-- ===== src/Proc/Slots.antt =====
-- The slots of the process table: procalloc, releaseproc and what they call. The addresses of the
-- symbols _trampoline and forkret are arguments.
use wl_00_rv.Prelude.{
  ℕ, zero, suc, ◌+◌, ◌-◌, ◌^◌, Bool, true, false, leb, ◌==◌, ◌!=◌, if◌then◌else◌, bit_or, add32,
  sub32, Option, none, some, List, [], ◌∷◌,
}
use wl_00_rv.Machine.{
  Kernel, Context, Proc, ProcState, unused, new, ready, running, waiting, zombie, ok, undefined,
  Cmd, pure, ◌>>=◌, ◌>>◌, modify, panic, update,
}
use wl_00_rv.Spinlock.{
  this_cpu, push_off, pop_off, holding, lock, unlock, init_lock, proc_lock, pid_lock, wait_lock,
}
use wl_00_rv.Mem.{page_size, mem_end, memset, kalloc, kfree}
use wl_00_rv.Vm.Defs.{pte_v, pte_r, pte_w, pte_x, mappages, ptcreate}
use wl_00_rv.Vm.Unmap.{uvmfree, freewalk}
use wl_00_rv.Vm.KernelTable.{kernbase, uart_0}

-- NPROC
abbrev pub nproc : ℕ
nproc = 32

-- The values of enum procstate.
abbrev pub state_code : ProcState → ℕ
state_code unused = 0
state_code new = 1
state_code ready = 2
state_code running = 3
state_code waiting = 4
state_code zombie = 5

abbrev pub is_state : ProcState → ProcState → Bool
is_state a b = state_code a == state_code b

-- An int that is below 0.
abbrev pub negative : ℕ → Bool
negative n = leb (2 ^ 31) n

-- `f` on the slot `i`
abbrev pub set_proc : (i : ℕ) → (Proc → Proc) → Kernel → Kernel
set_proc i f s = record s { proctable = update s.proctable i (f (s.proctable i)) }

module _ {A : Type 0} where
  -- Through a process pointer, which is not NULL where the behaviour is defined.
  abbrev pub deref : Option ℕ → (ℕ → Cmd A) → Cmd A
  deref none f s = undefined
  deref (some i) f s = f i s

unfoldable pub myproc : Cmd (Option ℕ)
myproc s = let t = push_off s in (pop_off >> pure (this_cpu t).proc) t

slots_loop : (rounds i : ℕ) → Kernel → Kernel
slots_loop zero i s = s
slots_loop (suc n) i s =
    slots_loop n (i + 1)
      (set_proc i (λ p. record p { kstack = 0; state = unused }) (init_lock (proc_lock i) "proc" s))

unfoldable pub init_proctable : Kernel → Kernel
unfolding slots_loop
init_proctable s = slots_loop nproc 0 (init_lock wait_lock "wait" (init_lock pid_lock "pid" s))

-- curr_pid++ overflows, and is undefined, only behind 2^31 - 1.
unfoldable pub allocpid : Cmd ℕ
allocpid = lock pid_lock >> λ s.
    (let pid = s.curr_pid in
      if pid == 2 ^ 31 - 1
      then undefined
      else (unlock pid_lock >> pure pid) (record s { curr_pid = pid + 1 }))

-- A call of mappages with equal addresses.
record Mapping : Type 0 where
  addr : ℕ
  size : ℕ
  flags : ℕ

-- The calls in turn, up to the first that fails.
map_all : (pt : ℕ) → List Mapping → Cmd Bool
map_all pt [] = pure true
map_all pt (m ∷ ms) =
    let rest = map_all pt ms in
    mappages pt m.addr m.addr m.size m.flags >>= λ result.
    if negative result then pure false else rest

-- The mappings of init_userpt.
kernel_mappings : (trampoline : ℕ) → List Mapping
kernel_mappings trampoline =
    let data_start = add32 trampoline page_size in
    record {
      addr = kernbase;
      size = sub32 trampoline kernbase;
      flags = bit_or (bit_or pte_r pte_x) pte_v;
    }
    ∷ record { addr = trampoline; size = page_size; flags = bit_or (bit_or pte_r pte_x) pte_v }
    ∷ record {
      addr = data_start;
      size = sub32 mem_end data_start;
      flags = bit_or (bit_or pte_r pte_w) pte_v;
    }
    ∷ record { addr = uart_0; size = page_size; flags = bit_or (bit_or pte_r pte_w) pte_v }
    ∷ []

unfoldable pub init_userpt : (trampoline : ℕ) → Cmd ℕ
unfolding map_all kernel_mappings
init_userpt trampoline = ptcreate >>= λ pt.
    if pt == 0
    then pure 0
    else (map_all pt (kernel_mappings trampoline) >>= λ mapped.
        if mapped then pure pt else freewalk pt >> pure 0)

-- name[0] = 0
abbrev clear_name : List ℕ → List ℕ
clear_name [] = []
clear_name (c ∷ name) = 0 ∷ name

-- memset(&p->context, 0, sizeof(p->context))
abbrev pub zero_context : Context
zero_context = record { ra = 0; sp = 0; saved = 0 ∷ 0 ∷ 0 ∷ 0 ∷ 0 ∷ 0 ∷ 0 ∷ 0 ∷ 0 ∷ 0 ∷ 0 ∷ 0 ∷ [] }

-- The slot behind releaseproc.
abbrev pub released : Proc → Proc
released p = record p {
  pid = 0;
  name = clear_name p.name;
  pt = 0;
  kstack = 0;
  sz = 0;
  tf = 0;
  parent = none;
  xstate = 0;
  chan = 0;
  context = zero_context;
  state = unused;
}

unfoldable pub releaseproc : ℕ → Cmd (Unit {0})
releaseproc i s =
    let p = s.proctable i in
    if holding (proc_lock i) s
    then ((if p.tf != 0 then kfree p.tf else pure tt)
          >> (if p.pt != 0 then uvmfree p.pt p.sz else pure tt)
          >> (if p.kstack != 0 then kfree p.kstack else pure tt)
          >> modify (set_proc i released))
        s
    else panic "releaseproc: lock not held" s

-- The for loop of procalloc: the first slot that is unused, taken.
claim_slot : (rounds i : ℕ) → Cmd (Option ℕ)
claim_slot zero i s = ok none s
claim_slot (suc n) i s =
    let rest = claim_slot n (i + 1) in
    (lock (proc_lock i) >> λ t.
    (if is_state (t.proctable i).state unused
        then modify (set_proc i λ p. record p { state = new })
          >> (unlock (proc_lock i) >> pure (some i))
        else unlock (proc_lock i) >> rest)
      t)
      s

-- The label fail of procalloc.
fail_slot : ℕ → Cmd (Option ℕ)
fail_slot i = lock (proc_lock i) >> releaseproc i >> (unlock (proc_lock i) >> pure none)

-- The page table and the context of a new process.
fill_context : (trampoline forkret i : ℕ) → Cmd (Option ℕ)
unfolding fail_slot
fill_context trampoline forkret i = init_userpt trampoline >>= λ pt.
    modify (set_proc i λ p. record p { pt = pt })
    >> (if pt == 0
        then fail_slot i
        else modify (
            set_proc i λ p. record p {
              context = record zero_context { ra = forkret; sp = add32 p.kstack page_size };
            })
          >> pure (some i))

-- The trapframe page.
fill_trapframe : (trampoline forkret i : ℕ) → Cmd (Option ℕ)
unfolding fill_context fail_slot
fill_trapframe trampoline forkret i = kalloc >>= λ tf.
    modify (set_proc i λ p. record p { tf = tf })
    >> (if tf == 0
        then fail_slot i
        else modify (λ s. record s { ram = memset tf 0 page_size s.ram })
          >> fill_context trampoline forkret i)

-- The pid and the kernel stack.
fill_slot : (trampoline forkret i : ℕ) → Cmd (Option ℕ)
unfolding fill_trapframe fail_slot
fill_slot trampoline forkret i = allocpid >>= λ pid.
    modify (set_proc i λ p. record p { pid = pid })
    >> (kalloc >>= λ kstack.
        if kstack == 0
        then fail_slot i
        else modify (set_proc i λ p. record p { kstack = kstack })
          >> fill_trapframe trampoline forkret i)

unfoldable pub procalloc : (trampoline forkret : ℕ) → Cmd (Option ℕ)
unfolding claim_slot fill_slot
procalloc trampoline forkret = claim_slot nproc 0 >>= λ found. elim found [
  | none ↦ pure none
  | some i ↦ fill_slot trampoline forkret i
]
