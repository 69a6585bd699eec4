-- ===== src/Vm/Extends.antt =====
-- What a kernel function may do to a page table and to the memory around it while it adds entries.
use wl_00_rv.Prelude.{ℕ, ◌≡◌, refl, ◌∙◌, codes, ◌++◌, List}
use wl_00_rv.Machine.{Kernel}
use wl_00_rv.Spinlock.Critical.{settled, settled-IsSteady}
use wl_00_rv.Kprint.Output.{sent}
use wl_00_rv.Vm.Tables.{entry, InUse, IsPagetable, IsOutside, IsReady}

-- From `s` to `t` the table may have got pages and entries; no other memory in use has changed.
pub record Extends (s t : Kernel) (pt : ℕ) : Type 0 where
  pub ready : IsReady t
  pub table : IsPagetable t pt
  pub in_use : (a : ℕ) → InUse s a → InUse t a
  pub outside : (c : ℕ) → IsOutside t pt c → IsOutside s pt c
  pub same : (c : ℕ) → IsOutside t pt c → t.ram c ≡ s.ram c

abbrev pub SameEntries : (s t : Kernel) (pt : ℕ) → Type 0
SameEntries s t pt = (a : ℕ) → entry t.ram pt a ≡ entry s.ram pt a

pub Extends-refl : (s : Kernel) (pt : ℕ) → IsReady s → IsPagetable s pt → Extends s s pt
Extends-refl s pt ready table = record {
  ready = ready;
  table = table;
  in_use = λ a used. used;
  outside = λ c out. out;
  same = λ c out. refl;
}

pub Extends-trans : (s t u : Kernel) (pt : ℕ) → Extends s t pt → Extends t u pt → Extends s u pt
Extends-trans s t u pt f g = record {
  ready = g.ready;
  table = g.table;
  in_use = λ a used. g.in_use a (f.in_use a used);
  outside = λ c out. f.outside c (g.outside c out);
  same = λ c out. g.same c out ∙ f.same c (g.outside c out);
}

-- The state behind the error line of find_pte.
abbrev pub reported : List ℕ → Kernel → Kernel
reported text s = sent (codes "error: " ++ (text ++ codes "\n")) (settled s)

pub IsReady-settled : (s : Kernel) → IsReady s → IsReady (settled s)
unfolding settled
IsReady-settled s ready = record {
  steady = settled-IsSteady s ready.steady;
  memory = ready.memory;
  console = ready.console;
  calm = ready.calm;
}

-- `u` with the memory of `t`
abbrev pub with_memory : (t u : Kernel) → Kernel
with_memory t u = record u { ram = t.ram; mem_bitmap = t.mem_bitmap }

InUse-with_memory : (t u : Kernel) (a : ℕ) → InUse t a → InUse (with_memory t u) a
InUse-with_memory t u a used = record {
  aligned = used.aligned;
  low = used.low;
  high = used.high;
  taken = used.taken;
}

-- Nothing but the memory matters.
pub Extends-with_memory :
    (s t u : Kernel) (pt : ℕ)
    → Extends s t pt
    → IsReady (with_memory t u)
    → Extends s (with_memory t u) pt
Extends-with_memory s t u pt ext ready = record {
  ready = ready;
  table = record {
    root = InUse-with_memory t u pt ext.table.root;
    tables = λ i hi has. InUse-with_memory t u _ (ext.table.tables i hi has);
    apart = ext.table.apart;
    distinct = ext.table.distinct;
  };
  in_use = λ a used. InUse-with_memory t u a (ext.in_use a used);
  outside = λ c out. ext.outside c (record { root = out.root; tables = out.tables });
  same = λ c out. ext.same c (record { root = out.root; tables = out.tables });
}

pub IsReady-reported : (text : List ℕ) (s : Kernel) → IsReady s → IsReady (reported text s)
unfolding settled
IsReady-reported text s ready =
    let r = IsReady-settled s ready in
    record {
      steady = record { wide = r.steady.wide; quiet = r.steady.quiet };
      memory = r.memory;
      console = r.console;
      calm = r.calm;
    }

-- The error line of a function that fails leaves the table as it was.
pub Extends-reported :
    (text : List ℕ) (s t : Kernel) (pt : ℕ) → Extends s t pt → Extends s (reported text t) pt
unfolding settled
Extends-reported text s t pt ext =
    Extends-with_memory s t (reported text t) pt ext (IsReady-reported text t ext.ready)

pub Extends-settled :
    (s : Kernel) (pt : ℕ) → IsReady s → IsPagetable s pt → Extends s (settled s) pt
unfolding settled
Extends-settled s pt ready table =
    Extends-with_memory s s (settled s) pt (Extends-refl s pt ready table) (IsReady-settled s ready)
