-- ===== src/Proc/Release.antt =====
-- releaseproc of kernel/proc.c: everything that a slot owns is given back.
use wl_00_rv.Prelude.{
  ℕ, ◌-◌, ◌/◌, ◌%◌, none, ◌≡◌, ◌≢◌, ◌≤◌, ◌<◌, ◌⊎◌, inl, inr, refl, ap, subst, ◌∙◌, sym, arith, true,
  false, ◌!=◌, if◌then◌else◌, Bool-cases,
}
use wl_00_rv.Machine.{unused, Kernel, Proc, ok, panic, and_then, pure, modify}
use wl_00_rv.Spinlock.{proc_lock, holding}
use wl_00_rv.Mem.{page_size, num_pages, kfree}
use wl_00_rv.Mem.Pages.{page_addr}
use wl_00_rv.Vm.Defs.{user_base}
use wl_00_rv.Vm.Unmap.{uvmfree}
use wl_00_rv.Vm.Tables.{IsReady}
use wl_00_rv.Vm.Freed.{Freed, kfree-Freed, Freed-none, Freed-same, Freed-then}
use wl_00_rv.Vm.Space.{UserPage, IsUserSpace}
use wl_00_rv.Vm.Uvmfree.{uvmfree-Freed}
use wl_00_rv.Vm.Apart.{IsUserSpace-apart, UserPage-before, UserPage-after}
use wl_00_rv.Proc.Slots.{released, releaseproc, set_proc}

-- Page `k` is the one that the pointer `a` points to, which is not NULL.
abbrev pub PageAt : (a k : ℕ) → Type 0
PageAt a k = (a ≢ 0) × (page_addr k ≡ a)

-- The pointer is NULL, or points to a page in use that kfree accepts.
abbrev pub IsPageOrNull : (s : Kernel) (a : ℕ) → Type 0
IsPageOrNull s a =
    (a ≡ 0)
    ⊎ ((k : ℕ) × (k < num_pages)
        × (a ≡ page_addr k)
        × (s.start_page ≤ page_addr k)
        × (s.mem_bitmap k ≡ 0))

-- The pages of memory of a process below its stack.
abbrev pub user_pages : Proc → ℕ
user_pages p = (p.sz - user_base) / page_size

abbrev pub SpacePage : (s : Kernel) (p : Proc) (k : ℕ) → Type 0
SpacePage s p k = (p.pt ≢ 0) × UserPage s p.pt (user_pages p) k

-- The pages that a process owns.
pub data ProcPage (s : Kernel) (p : Proc) (k : ℕ) : Type 0 where
  trapframe : PageAt p.tf k → ProcPage s p k
  space : SpacePage s p k → ProcPage s p k
  kernel_stack : PageAt p.kstack k → ProcPage s p k

-- A process owns each of its pages once.
pub record IsProcess (s : Kernel) (p : Proc) : Type 0 where
  pub whole : p.sz % page_size ≡ 0
  pub trapframe : IsPageOrNull s p.tf
  pub kernel_stack : IsPageOrNull s p.kstack
  pub space : p.pt ≢ 0 → IsUserSpace s p.pt (user_pages p)
  pub tf_kstack : (k : ℕ) → PageAt p.tf k → PageAt p.kstack k → ⊥
  pub tf_space : (k : ℕ) → PageAt p.tf k → SpacePage s p k → ⊥
  pub kstack_space : (k : ℕ) → PageAt p.kstack k → SpacePage s p k → ⊥

release_page-Freed :
    (a : ℕ) (s : Kernel)
    → IsReady s
    → IsPageOrNull s a
    → (t : Kernel) × ((if a != 0 then kfree a else pure tt) s ≡ ok tt t) × Freed s t (PageAt a)
release_page-Freed a s ready page = elim page [
  | inl e ↦
      let null : (a != 0) ≡ false = ground arith in
      (s, rw null refl, Freed-none s (PageAt a) ready λ k p. p.0 e)
  | inr (k, real, e, low, taken) ↦
      let there : (a != 0) ≡ true = ground arith in
      let (t, run, f) = kfree-Freed a k s ready real e low taken in
      (
        t,
        rw there run,
        Freed-same s t (λ j. j ≡ k) (PageAt a) (λ j same. (omega arith, ap page_addr same ∙ sym e))
            (λ j p. omega (arith, p.1)) f,
      )
]

IsPageOrNull-kept :
    (s t : Kernel) (P : ℕ → Type 0) (a : ℕ)
    → Freed s t P
    → ((k : ℕ) → P k → PageAt a k → ⊥)
    → IsPageOrNull s a
    → IsPageOrNull t a
IsPageOrNull-kept s t P a f apart page = elim page [
  | inl e ↦ inl e
  | inr (k, real, e, low, taken) ↦ inr (
    k,
    real,
    e,
    subst (λ x. x ≤ page_addr k) (sym f.start) low,
    f.kept k (λ p. apart k p (omega arith, sym e)) ∙ taken,
  )
]

-- The address space, behind the trapframe.
release_space-Freed :
    (p : Proc) (s t : Kernel)
    → IsProcess s p
    → Freed s t (PageAt p.tf)
    → (u : Kernel) × ((if p.pt != 0 then uvmfree p.pt p.sz else pure tt) t ≡ ok tt u)
      × Freed t u (SpacePage s p)
release_space-Freed p s t owner f = elim (Bool-cases (p.pt != 0)) [
  | inl e ↦
      let real : p.pt ≢ 0 = ground arith in
      let n = user_pages p in
      let own = owner.space real in
      let apart =
        λ (k : ℕ) (q : PageAt p.tf k) (u : UserPage s p.pt n k). owner.tf_space k q (real, u) in
      let (u, run, g) =
        uvmfree-Freed p.sz p.pt t f.ready owner.whole
          (IsUserSpace-apart s t p.pt n (PageAt p.tf) f own apart) in
      (
        u,
        rw e run,
        Freed-same t u (UserPage t p.pt n) (SpacePage s p)
            (λ k q. (real, UserPage-before s t p.pt n (PageAt p.tf) f own apart k q))
            (λ k q. UserPage-after s t p.pt n (PageAt p.tf) f own apart k q.1) g,
      )
  | inr e ↦
      let null : p.pt ≡ 0 = ground arith in
      (t, rw e refl, Freed-none t (SpacePage s p) f.ready λ k q. q.0 null)
]

kstack-apart :
    (s : Kernel) (p : Proc)
    → IsProcess s p
    → (k : ℕ) → PageAt p.tf k ⊎ SpacePage s p k
    → PageAt p.kstack k
    → ⊥
kstack-apart s p owner k r q = elim r [
  | inl x ↦ owner.tf_kstack k x q
  | inr x ↦ owner.kstack_space k q x
]

releaseproc-steps :
    (i : ℕ) (s t u v : Kernel)
    → holding (proc_lock i) s ≡ true
    → (if (s.proctable i).tf != 0 then kfree (s.proctable i).tf else pure tt) s ≡ ok tt t
    → (if (s.proctable i).pt != 0 then uvmfree (s.proctable i).pt (s.proctable i).sz else pure tt) t
      ≡ ok tt u
    → (if (s.proctable i).kstack != 0 then kfree (s.proctable i).kstack else pure tt) u ≡ ok tt v
    → releaseproc i s ≡ ok tt (set_proc i released v)
unfolding releaseproc
releaseproc-steps i s t u v held first next last =
    let p = s.proctable i in
    rw held (
      ap
        (λ m.
          and_then
            (and_then (and_then m λ _. if p.pt != 0 then uvmfree p.pt p.sz else pure tt)
              λ _. if p.kstack != 0 then kfree p.kstack else pure tt)
            λ _. modify (set_proc i released))
        first
      ∙ ap
          (λ m.
            and_then (and_then m λ _. if p.kstack != 0 then kfree p.kstack else pure tt)
              λ _. modify (set_proc i released))
          next
      ∙ ap (λ m. and_then m λ _. modify (set_proc i released)) last)

-- A slot that belongs to no process, and owns nothing.
pub record IsUnused (p : Proc) : Type 0 where
  pub state : p.state ≡ unused
  pub pid : p.pid ≡ 0
  pub pt : p.pt ≡ 0
  pub kstack : p.kstack ≡ 0
  pub sz : p.sz ≡ 0
  pub tf : p.tf ≡ 0
  pub xstate : p.xstate ≡ 0
  pub chan : p.chan ≡ 0
  pub parent : p.parent ≡ none

pub released-IsUnused : (p : Proc) → IsUnused (released p)
released-IsUnused p = record {
  state = refl;
  pid = refl;
  pt = refl;
  kstack = refl;
  sz = refl;
  tf = refl;
  xstate = refl;
  chan = refl;
  parent = refl;
}

-- releaseproc panics unless the hart holds the lock of the slot. Otherwise it returns with the slot
-- unused, and with exactly the pages of the process free: its trapframe, its kernel stack and its
-- address space. No byte outside those pages and nothing else of the state has changed, but for
-- the interrupt bits that harts save. (The process owns each page once, and its size is a whole
-- number of pages.)
pub releaseproc-Freed :
    (i : ℕ) (s : Kernel)
    → IsReady s
    → IsProcess s (s.proctable i)
    → (holding (proc_lock i) s ≡ false → releaseproc i s ≡ panic "releaseproc: lock not held" s)
      × (holding (proc_lock i) s ≡ true
          → (t : Kernel) × (releaseproc i s ≡ ok tt (set_proc i released t))
            × IsUnused (released (s.proctable i))
            × Freed s t (ProcPage s (s.proctable i)))
releaseproc-Freed i s ready owner =
    let p = s.proctable i in
    let (t, first, f) = release_page-Freed p.tf s ready owner.trapframe in
    let (u, next, g) = release_space-Freed p s t owner f in
    let fg = Freed-then s t u (PageAt p.tf) (SpacePage s p) owner.tf_space f g in
    let apart = kstack-apart s p owner in
    let (v, last, h) = release_page-Freed p.kstack u g.ready (
      IsPageOrNull-kept s u (λ k. PageAt p.tf k ⊎ SpacePage s p k) p.kstack fg apart
        owner.kernel_stack) in
    let all =
      Freed-then s u v (λ k. PageAt p.tf k ⊎ SpacePage s p k) (PageAt p.kstack) apart fg h in
    (
      λ missing. unfold releaseproc in rw missing refl,
      λ held. (
        v,
        releaseproc-steps i s t u v held first next last,
        released-IsUnused p,
        Freed-same s v (λ k. (PageAt p.tf k ⊎ SpacePage s p k) ⊎ PageAt p.kstack k) (ProcPage s p)
            (λ k r. elim r [
              | inl (inl x) ↦ trapframe x
              | inl (inr x) ↦ space x
              | inr x ↦ kernel_stack x
            ])
            (λ k r. elim r [
              | trapframe x ↦ inl (inl x)
              | space x ↦ inl (inr x)
              | kernel_stack x ↦ inr x
            ])
            all,
      ),
    )
