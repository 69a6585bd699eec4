-- ===== src/Exec/Kexec.antt =====
-- kexec of kernel/exec.c. `argv` lists the addresses of the argument strings, less the NULL that ends
-- the array; the strings lie in one page of the kernel. `ustack` is the address of the local array.
use wl_00_rv.Prelude.{
  ℕ, zero, suc, ◌+◌, ◌*◌, ◌-◌, ltb, leb, ◌==◌, if◌then◌else◌, bit_and, bit_or, sub32, Option, none,
  some, List, [], ◌∷◌,
}
use wl_00_rv.Text.{strlen}
use wl_00_rv.Machine.{ok, undefined, Cmd, pure, ◌>>=◌, ◌>>◌, modify}
use wl_00_rv.Ram.{bytes}
use wl_00_rv.Mem.{page_size, memset, kalloc, kfree}
use wl_00_rv.Vm.Defs.{pte_r, pte_w, pte_u, user_stack_top, minus_one, mappage, store}
use wl_00_rv.Vm.Copy.{copyout}
use wl_00_rv.Vm.Unmap.{uvmfree}
use wl_00_rv.Proc.Slots.{set_proc, deref, myproc, negative, init_userpt}
use wl_00_rv.Proc.Fork.{tf_reg}
use wl_00_rv.Exec.Load.{Program, find_program, Loaded, load_elf}

-- MAXARG
abbrev pub maxarg : ℕ
maxarg = 16

abbrev pub stackbase : ℕ
stackbase = user_stack_top - page_size

-- The stack pointer behind a push of `n` bytes: sp -= n; sp &= ~0xF
unfoldable pub push_sp : (sp n : ℕ) → ℕ
push_sp sp n = bit_and (sub32 sp n) 0xffff_fff0

-- What the pushes leave: argc and sp.
pub record Pushed : Type 0 where
  pub argc : ℕ
  pub sp : ℕ

-- The for loop of kexec over the argument strings; `none` where it goes to bad.
unfoldable pub push_strings : (pt ustack : ℕ) (argv : List ℕ) (argc sp : ℕ) → Cmd (Option Pushed)
unfolding push_sp
push_strings pt ustack [] argc sp s = ok (some (record { argc = argc; sp = sp })) s
push_strings pt ustack (str ∷ argv) argc sp s =
    let push = λ (len : ℕ).
      (let top = push_sp sp (len + 1) in
        if ltb top stackbase
        then pure none
        else (copyout pt top str (len + 1) >>= λ result.
            if negative result
            then pure none
            else modify (store (ustack + 4 * argc) top)
              >> push_strings pt ustack argv (argc + 1) top)) in
    if leb maxarg argc
    then ok none s
    else elim (strlen (bytes page_size str s.ram)) [ none ↦ undefined | some len ↦ push len s ]

-- The argv array, pushed behind its strings.
unfoldable pub push_array : (pt ustack : ℕ) → Pushed → Cmd (Option Pushed)
unfolding push_sp
push_array pt ustack p =
    let top = push_sp p.sp ((p.argc + 1) * 4) in
    modify (store (ustack + 4 * p.argc) 0)
    >> (if ltb top stackbase
        then pure none
        else (copyout pt top ustack ((p.argc + 1) * 4) >>= λ result.
            pure (if negative result then none else some (record { argc = p.argc; sp = top }))))

-- p->name, of 16 bytes: at most `room` bytes of the path, and a NUL.
unfoldable pub copy_name : (room : ℕ) (path name : List ℕ) → List ℕ
copy_name room path [] = []
copy_name zero path (d ∷ name) = 0 ∷ name
copy_name (suc room) [] (d ∷ name) = 0 ∷ name
copy_name (suc room) (c ∷ path) (d ∷ name) =
    let rest = copy_name room path name in if c == 0 then 0 ∷ name else c ∷ rest

-- The label bad.
bad : (pt sz : ℕ) → Cmd ℕ
bad pt sz = uvmfree pt sz >> pure minus_one

-- The commit: the process `p` gets the new image, and the old one is freed.
unfoldable pub commit : (path : List ℕ) (pt : ℕ) → Loaded → Pushed → (p : ℕ) → Cmd ℕ
commit path pt loaded pushed p = deref loaded.entry λ entry s.
    (let q = s.proctable p in
      (modify (set_proc p λ r. record r { pt = pt; sz = loaded.sz })
          >> modify (store (q.tf + 16) entry)
          >> modify (store (q.tf + tf_reg 2) pushed.sp)
          >> modify (store (q.tf + tf_reg 11) pushed.sp)
          >> modify (set_proc p λ r. record r { name = copy_name 15 path r.name })
          >> uvmfree q.pt q.sz
          >> pure pushed.argc)
        s)

-- The pushes, and what follows them.
exec_args : (ustack : ℕ) (path : List ℕ) (argv : List ℕ) (me : Option ℕ) (pt : ℕ) → Loaded → Cmd ℕ
unfolding bad commit
exec_args ustack path argv me pt loaded =
    push_strings pt ustack argv 0 user_stack_top >>= λ strings. elim strings [
      | none ↦ bad pt loaded.sz
      | some p ↦ push_array pt ustack p >>= λ array. elim array [
        | none ↦ bad pt loaded.sz
        | some q ↦ deref me (commit path pt loaded q)
      ]
    ]

-- The stack page, behind load_elf.
exec_stack : (ustack : ℕ) (path : List ℕ) (argv : List ℕ) (me : Option ℕ) (pt : ℕ) → Loaded → Cmd ℕ
unfolding bad exec_args
exec_stack ustack path argv me pt loaded = kalloc >>= λ stack.
    if stack == 0
    then bad pt loaded.sz
    else modify (λ s. record s { ram = memset stack 0 page_size s.ram })
      >> (mappage pt stackbase stack (bit_or (bit_or pte_r pte_w) pte_u) >>= λ pte.
          if pte == 0
          then kfree stack >> bad pt loaded.sz
          else exec_args ustack path argv me pt loaded)

-- Behind find_program.
exec_image :
    (ustack trampoline : ℕ) (path : List ℕ) (argv : List ℕ) (me : Option ℕ) → Program → Cmd ℕ
unfolding bad exec_stack
exec_image ustack trampoline path argv me program = init_userpt trampoline >>= λ pt.
    if pt == 0
    then pure minus_one
    else (load_elf pt program.img program.len >>= λ loaded.
        if loaded.result == minus_one
        then bad pt loaded.sz
        else exec_stack ustack path argv me pt loaded)

unfoldable pub kexec :
    (ustack trampoline : ℕ) (programs : List Program) (path : List ℕ) (argv : List ℕ) → Cmd ℕ
unfolding exec_image
kexec ustack trampoline programs path argv = myproc >>= λ me. elim (find_program path programs) [
  | none ↦ λ s. undefined
  | some found ↦ elim found [
    | none ↦ pure minus_one
    | some program ↦ exec_image ustack trampoline path argv me program
  ]
]
