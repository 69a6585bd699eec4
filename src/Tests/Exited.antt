-- ===== src/Tests/Exited.antt =====
-- A process that owns the page table of Tests/Copies and has exited, and its parent.
use wl_00_rv.Prelude.{ℕ, ◌≡◌, ◌<◌, refl, arith, some, inr, ap, ◌∙◌, ◌⊎◌, if◌then◌else◌, ◌==◌}
use wl_00_rv.Vm.Untouched.{with_ram, entry-untouched, IsPagetable-untouched}
use wl_00_rv.Vm.Tables.{IsOutside, second, HasTable, InUse, IsPagetable, IsReady}
use wl_00_rv.Spinlock.Critical.{entered, settled}
use wl_00_rv.Tests.State.{free_lock, cpu, no_proc}
use wl_00_rv.Tests.Copies.{mapped, mapped-IsPagetable, mapped-IsReady, mapped-entry, mapped-rest}
use wl_00_rv.Vm.Defs.{pa2pte, pte2pa}
use wl_00_rv.Proc.Wait.{IsCaller, reaping}
use wl_00_rv.Machine.{Kernel, Proc, zombie}
use wl_00_rv.Mem.{set_page}
use wl_00_rv.Vm.Owned.{IsMapped, target, Owns}
use wl_00_rv.Vm.Space.{stack_base, root_page, table_page, memory_page, stack_page, IsUserSpace}
use wl_00_rv.Vm.Freewalk.{IsAllocated}
use wl_00_rv.Proc.Release.{SpacePage, IsProcess}
use wl_00_rv.Mem.Pages.{page_addr}
use wl_00_rv.Tests.Paging.{root}

-- A process that has exited: one page of memory, no stack, a trapframe and a kernel stack.
abbrev pub exited : Proc
exited = record no_proc {
  pid = 5;
  state = zombie;
  pt = root;
  sz = 0x2000;
  tf = 0x8000_6000;
  kstack = 0x8000_7000;
  xstate = 3;
  parent = some 1;
}

-- Its pages are taken, and the hart runs its parent.
abbrev pub before : Kernel
before = record (set_page 7 0 (set_page 6 0 (set_page 5 0 mapped))) {
  sstatus = 2;
  cpus = λ _. record cpu { proc = some 1 };
  locks = λ _. free_lock;
  proctable = λ i. if i == 0 then exited else no_proc;
}

before-IsReady : IsReady before
before-IsReady = record {
  steady = record { wide = omega arith; quiet = λ h. absurd (h refl) };
  memory = (refl, refl);
  console = (refl, refl);
  calm = mapped-IsReady.calm;
}

pub before-IsCaller : IsCaller 1 before
unfolding settled
before-IsCaller = record {
  ready = before-IsReady;
  here = refl;
  waits = (refl, refl);
  slots = λ j hj. (refl, refl);
}

-- The parent reaps it, with RAM as it was but for bytes outside the page table.
module _ (r : ℕ → ℕ) (same : (c : ℕ) → (r c ≡ mapped.ram c) ⊎ IsOutside mapped root c) where
  abbrev pub held : Kernel
  held = with_ram r (reaping 0 before)

  InUse-held : (a : ℕ) → InUse (with_ram r mapped) a → InUse held a
  unfolding entered settled
  InUse-held a used = record {
    aligned = used.aligned;
    low = used.low;
    high = used.high;
    taken = ground (arith, used.taken);
  }

  old : IsPagetable (with_ram r mapped) root
  old = IsPagetable-untouched mapped r root same mapped-IsPagetable

  held-IsPagetable : IsPagetable held root
  held-IsPagetable = record {
    root = InUse-held root old.root;
    tables = λ i hi has. InUse-held _ (old.tables i hi has);
    apart = old.apart;
    distinct = old.distinct;
  }

  mapped-target : (a : ℕ) → IsMapped held root 0x1000 1 a → target held root a ≡ 0x8000_5000
  unfolding pa2pte pte2pa
  mapped-target a m =
      ap pte2pa (entry-untouched mapped r root same a ∙ mapped-entry a (ground (arith, m))) ∙ refl

  -- No second-level table is one of the pages from number 5 on, which are free in `mapped`.
  table-below : (i : ℕ) → i < 1024 → HasTable r root i → second r root i < 0x8000_5000
  table-below i hi has =
      let used = old.tables i hi has in
      ground (arith, used.taken, used.aligned, used.low, used.high)

  held-Owns : Owns held root 0x1000 1
  unfolding entered settled
  held-Owns = record {
    page = λ a m. (5, omega arith, mapped-target a m, omega arith, refl);
    root = λ a m e. omega (arith, mapped-target a m, e);
    tables = λ a i m hi has e. omega (arith, table-below i hi has, e ∙ mapped-target a m);
    distinct = λ a b ma mb e. ground (arith, ma, mb);
  }

  no_stack : (a : ℕ) → IsMapped held root stack_base 1 a → ⊥
  no_stack a (ha, i, m) =
      let empty_stack = mapped-rest a ha (ground arith) in
      omega (arith, entry-untouched mapped r root same a)

  held-IsAllocated : IsAllocated held root
  unfolding entered settled
  held-IsAllocated = record {
    table = held-IsPagetable;
    root = omega arith;
    tables = λ i hi has. (old.tables i hi has).low;
  }

  -- One page of memory, and no stack.
  pub held-IsUserSpace : IsUserSpace held root 1
  held-IsUserSpace = record {
    tables = held-IsAllocated;
    below = omega arith;
    memory = held-Owns;
    stack = record {
      page = λ a m. absurd (no_stack a m);
      root = λ a m. absurd (no_stack a m);
      tables = λ a i m. absurd (no_stack a m);
      distinct = λ a b m. absurd (no_stack a m);
    };
    apart = λ a b m m'. absurd (no_stack b m');
  }

  -- The trapframe and the kernel stack are pages behind those of the address space.
  space_below : (k : ℕ) → SpacePage held exited k → page_addr k < 0x8000_6000
  space_below k (real, page) = elim page [
    | root_page e ↦ omega arith
    | table_page (j, (lo, hi, has), e) ↦ omega (arith, table-below j hi has, e)
    | memory_page a m e ↦ omega (arith, mapped-target a m, e)
    | stack_page a m e ↦ absurd (no_stack a m)
  ]

  pub exited-IsProcess : IsProcess held exited
  unfolding entered settled
  exited-IsProcess = record {
    whole = refl;
    trapframe = inr (6, omega arith, refl, omega arith, refl);
    kernel_stack = inr (7, omega arith, refl, omega arith, refl);
    space = λ real. held-IsUserSpace;
    tf_kstack = λ k p q. omega (arith, p.1, q.1);
    tf_space = λ k p q. omega (arith, p.1, space_below k q);
    kstack_space = λ k p q. omega (arith, p.1, space_below k q);
  }
