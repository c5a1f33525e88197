-- ===== src/Sha/Cryptopp/Registers.antt =====
-- `R(i)` on the array `T`: with the roles rotated by `i`, it is one round of the standard.
use cpuminer.Base.{ℕ, zero, suc, ◌+◌, ◌%◌, ◌<◌, ◌≡◌, refl, ◌∙◌, ap, List, ◌⊞◌, get_or, arith}
use cpuminer.Sha.{Regs, AreWords, words}
use cpuminer.Sha.Spec.{round}
use cpuminer.Sha.Cryptopp.{ch, maj, big_s0, big_s1, update}
use cpuminer.Sha.Cryptopp.Functions.{big_s0-big_sigma0, big_s1-big_sigma1, ch-choose, maj-majority}

-- The array before `R(i)`: the word at `m` has the role `m + i`.
abbrev pub stored : ℕ → Regs → List ℕ
stored i r =
    let at = λ (m : ℕ). get_or (words r) ((m + i) % 8) 0 in
    words
      (record { a = at 0; b = at 1; c = at 2; d = at 3; e = at 4; f = at 5; g = at 6; h = at 7 })

-- One round in the order of additions of the code.
code_round : ℕ → ℕ → Regs → Regs
code_round k x r =
    let t1 = r.h ⊞ (big_s1 r.e ⊞ ch r.e r.f r.g ⊞ k ⊞ x) in
    record {
      a = t1 ⊞ (big_s0 r.a ⊞ maj r.a r.b r.c);
      b = r.a;
      c = r.b;
      d = r.c;
      e = r.d ⊞ t1;
      f = r.e;
      g = r.f;
      h = r.g;
    }

regroup : (h s c k x : ℕ) → h ⊞ (s ⊞ c ⊞ k ⊞ x) ≡ h ⊞ s ⊞ c ⊞ k ⊞ x
regroup h s c k x = omega arith

code_round-round : (k x : ℕ) (r : Regs) → AreWords r → code_round k x r ≡ round k x r
unfolding code_round round
code_round-round k x r v =
    rw
      (
        big_s1-big_sigma1 v.e,
        ch-choose v.e v.f v.g,
        big_s0-big_sigma0 v.a,
        maj-majority v.a v.b v.c,
        regroup,
      )
      refl

-- Each of the sixteen positions is checked by evaluation.
update-code_round :
    (i k x : ℕ) (r : Regs) → i < 16 → update i k x (stored i r) ≡ stored (suc i) (code_round k x r)
unfolding update code_round
update-code_round zero k x r h = refl
update-code_round (suc zero) k x r h = refl
update-code_round (suc (suc zero)) k x r h = refl
update-code_round (suc (suc (suc zero))) k x r h = refl
update-code_round (suc (suc (suc (suc zero)))) k x r h = refl
update-code_round (suc (suc (suc (suc (suc zero))))) k x r h = refl
update-code_round (suc (suc (suc (suc (suc (suc zero)))))) k x r h = refl
update-code_round (suc (suc (suc (suc (suc (suc (suc zero))))))) k x r h = refl
update-code_round (suc (suc (suc (suc (suc (suc (suc (suc zero)))))))) k x r h = refl
update-code_round (suc (suc (suc (suc (suc (suc (suc (suc (suc zero))))))))) k x r h = refl
update-code_round (suc (suc (suc (suc (suc (suc (suc (suc (suc (suc zero)))))))))) k x r h = refl
update-code_round (suc (suc (suc (suc (suc (suc (suc (suc (suc (suc (suc zero))))))))))) k x r h =
    refl
update-code_round (suc (suc (suc (suc (suc (suc (suc (suc (suc (suc (suc (suc zero)))))))))))) k x r
      h =
    refl
update-code_round (suc (suc (suc (suc (suc (suc (suc (suc (suc (suc (suc (suc (suc zero)))))))))))))
      k x r h =
    refl
update-code_round
      (suc (suc (suc (suc (suc (suc (suc (suc (suc (suc (suc (suc (suc (suc zero)))))))))))))) k x r
      h =
    refl
update-code_round
      (suc (suc (suc (suc (suc (suc (suc (suc (suc (suc (suc (suc (suc (suc (suc zero)))))))))))))))
      k x r h =
    refl
update-code_round
      (suc
        (suc (suc (suc (suc (suc (suc (suc (suc (suc (suc (suc (suc (suc (suc (suc i))))))))))))))))
      k x r h =
    absurd (omega arith)

pub update-round :
    (i k x : ℕ) (r : Regs)
    → i < 16
    → AreWords r
    → update i k x (stored i r) ≡ stored (suc i) (round k x r)
update-round i k x r small v =
    update-code_round i k x r small ∙ ap (stored (suc i)) (code_round-round k x r v)
