-- ===== src/Sha/Generic/Lines.antt =====
-- Each line of the unrolled code is one round of the standard, once the locals are read in their roles.
use cpuminer.Base.{ℕ, ◌≡◌, refl, ◌⊞◌}
use cpuminer.Sha.{Regs, AreWords}
use cpuminer.Sha.Spec.{round}
use cpuminer.Sha.Generic.{
  ch, maj, e0, e1, step_a, step_b, step_c, step_d, step_e, step_f, step_g, step_h,
}
use cpuminer.Sha.Generic.Functions.{e0-big_sigma0, e1-big_sigma1, ch-choose, maj-majority}

-- One round with the functions of the code, roles in the order of the standard.
pub code_round : ℕ → ℕ → Regs → Regs
code_round k w r =
    let t1 = r.h ⊞ e1 r.e ⊞ ch r.e r.f r.g ⊞ k ⊞ w in
    let t2 = e0 r.a ⊞ maj r.a r.b r.c in
    record { a = t1 ⊞ t2; b = r.a; c = r.b; d = r.c; e = r.d ⊞ t1; f = r.e; g = r.f; h = r.g }

pub code_round-round : (k w : ℕ) (r : Regs) → AreWords r → code_round k w r ≡ round k w r
unfolding code_round round
code_round-round k w r v =
    rw (e1-big_sigma1 v.e, ch-choose v.e v.f v.g, e0-big_sigma0 v.a, maj-majority v.a v.b v.c) refl

-- The locals as the roles of the standard, after `j` lines.
abbrev pub view1 : Regs → Regs
view1 v = record { a = v.h; b = v.a; c = v.b; d = v.c; e = v.d; f = v.e; g = v.f; h = v.g }

abbrev pub view2 : Regs → Regs
view2 v = record { a = v.g; b = v.h; c = v.a; d = v.b; e = v.c; f = v.d; g = v.e; h = v.f }

abbrev pub view3 : Regs → Regs
view3 v = record { a = v.f; b = v.g; c = v.h; d = v.a; e = v.b; f = v.c; g = v.d; h = v.e }

abbrev pub view4 : Regs → Regs
view4 v = record { a = v.e; b = v.f; c = v.g; d = v.h; e = v.a; f = v.b; g = v.c; h = v.d }

abbrev pub view5 : Regs → Regs
view5 v = record { a = v.d; b = v.e; c = v.f; d = v.g; e = v.h; f = v.a; g = v.b; h = v.c }

abbrev pub view6 : Regs → Regs
view6 v = record { a = v.c; b = v.d; c = v.e; d = v.f; e = v.g; f = v.h; g = v.a; h = v.b }

abbrev pub view7 : Regs → Regs
view7 v = record { a = v.b; b = v.c; c = v.d; d = v.e; e = v.f; f = v.g; g = v.h; h = v.a }

pub step_h-code_round : (k w : ℕ) (v : Regs) → view1 (step_h k w v) ≡ code_round k w v
unfolding step_h code_round
step_h-code_round k w v = refl

pub step_g-code_round : (k w : ℕ) (v : Regs) → view2 (step_g k w v) ≡ code_round k w (view1 v)
unfolding step_g code_round
step_g-code_round k w v = refl

pub step_f-code_round : (k w : ℕ) (v : Regs) → view3 (step_f k w v) ≡ code_round k w (view2 v)
unfolding step_f code_round
step_f-code_round k w v = refl

pub step_e-code_round : (k w : ℕ) (v : Regs) → view4 (step_e k w v) ≡ code_round k w (view3 v)
unfolding step_e code_round
step_e-code_round k w v = refl

pub step_d-code_round : (k w : ℕ) (v : Regs) → view5 (step_d k w v) ≡ code_round k w (view4 v)
unfolding step_d code_round
step_d-code_round k w v = refl

pub step_c-code_round : (k w : ℕ) (v : Regs) → view6 (step_c k w v) ≡ code_round k w (view5 v)
unfolding step_c code_round
step_c-code_round k w v = refl

pub step_b-code_round : (k w : ℕ) (v : Regs) → view7 (step_b k w v) ≡ code_round k w (view6 v)
unfolding step_b code_round
step_b-code_round k w v = refl

pub step_a-code_round : (k w : ℕ) (v : Regs) → step_a k w v ≡ code_round k w (view7 v)
unfolding step_a code_round
step_a-code_round k w v = refl
