-- ===== src/Vm/Rest.antt =====
-- What the release of pages leaves alone.
use wl_00_rv.Prelude.{ℕ, ◌≡◌, refl, ap, fun_ext, sym, ◌≢◌, ◌∙◌, arith}
use wl_00_rv.Machine.{Kernel}
use wl_00_rv.Spinlock.Critical.{settled}

-- `s` with the RAM, the bitmap and the harts of `t`
abbrev pub after_release : Kernel → Kernel → Kernel
after_release s t = record s { ram = t.ram; mem_bitmap = t.mem_bitmap; cpus = t.cpus }

-- From `s` to `t` nothing changed but RAM, the bitmap, and the interrupt bits that harts save.
pub record IsRestKept (s t : Kernel) : Type 0 where
  pub rest : t ≡ after_release s t
  pub deep : (s.cpus s.tp).depth ≢ 0 → t.cpus ≡ s.cpus
  pub harts : (h : ℕ) → record (t.cpus h) { intena = 0 } ≡ record (s.cpus h) { intena = 0 }

pub IsRestKept-refl : (s : Kernel) → IsRestKept s s
IsRestKept-refl s = record { rest = refl; deep = λ d. refl; harts = λ h. refl }

pub IsRestKept-then : (s t u : Kernel) → IsRestKept s t → IsRestKept t u → IsRestKept s u
IsRestKept-then s t u f g = record {
  rest = g.rest ∙ ap (λ x. after_release x u) f.rest;
  deep = λ d.
      let same : (t.cpus t.tp).depth ≡ (s.cpus s.tp).depth =
        ap (λ cs. (cs t.tp).depth) (f.deep d) ∙ ap (λ x. (s.cpus x.tp).depth) f.rest in
      g.deep (λ e. d (sym same ∙ e)) ∙ f.deep d;
  harts = λ h. g.harts h ∙ f.harts h;
}

pub settled-IsRestKept :
    (s : Kernel) (r b : ℕ → ℕ)
    → IsRestKept s (record (settled (record s { ram = r })) { mem_bitmap = b })
unfolding settled
settled-IsRestKept s r b = record {
  rest = refl;
  deep = λ d. fun_ext λ h. ground arith;
  harts = λ h. ground arith;
}
