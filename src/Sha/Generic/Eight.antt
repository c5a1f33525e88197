-- ===== src/Sha/Generic/Eight.antt =====
-- Eight lines are eight rounds, first with the functions of the code and then with the standard's.
use cpuminer.Base.{ℕ, ◌+◌, ◌≡◌, ◌∙◌, ap, List, get_or}
use cpuminer.Sha.{Regs, AreWords}
use cpuminer.Sha.Spec.{round, round-AreWords}
use cpuminer.Sha.Generic.{step_a, step_b, step_c, step_d, step_e, step_f, step_g, step_h, eight}
use cpuminer.Sha.Generic.Lines.{
  code_round, code_round-round, view1, view2, view3, view4, view5, view6, view7, step_a-code_round,
  step_b-code_round, step_c-code_round, step_d-code_round, step_e-code_round, step_f-code_round,
  step_g-code_round, step_h-code_round,
}

-- Eight lines are eight rounds.
module _ (k0 k1 k2 k3 k4 k5 k6 k7 : ℕ) (w : List ℕ) (i : ℕ) (v : Regs) where
  abbrev line1 : Regs
  line1 = step_h k0 (get_or w i 0) v

  abbrev coded1 : Regs
  coded1 = code_round k0 (get_or w i 0) v

  abbrev line2 : Regs
  line2 = step_g k1 (get_or w (1 + i) 0) line1

  abbrev coded2 : Regs
  coded2 = code_round k1 (get_or w (1 + i) 0) coded1

  abbrev line3 : Regs
  line3 = step_f k2 (get_or w (2 + i) 0) line2

  abbrev coded3 : Regs
  coded3 = code_round k2 (get_or w (2 + i) 0) coded2

  abbrev line4 : Regs
  line4 = step_e k3 (get_or w (3 + i) 0) line3

  abbrev coded4 : Regs
  coded4 = code_round k3 (get_or w (3 + i) 0) coded3

  abbrev line5 : Regs
  line5 = step_d k4 (get_or w (4 + i) 0) line4

  abbrev coded5 : Regs
  coded5 = code_round k4 (get_or w (4 + i) 0) coded4

  abbrev line6 : Regs
  line6 = step_c k5 (get_or w (5 + i) 0) line5

  abbrev coded6 : Regs
  coded6 = code_round k5 (get_or w (5 + i) 0) coded5

  abbrev line7 : Regs
  line7 = step_b k6 (get_or w (6 + i) 0) line6

  abbrev coded7 : Regs
  coded7 = code_round k6 (get_or w (6 + i) 0) coded6

  abbrev line8 : Regs
  line8 = step_a k7 (get_or w (7 + i) 0) line7

  abbrev coded8 : Regs
  coded8 = code_round k7 (get_or w (7 + i) 0) coded7

  line1-coded : view1 line1 ≡ coded1
  line1-coded = step_h-code_round k0 (get_or w i 0) v

  line2-coded : view2 line2 ≡ coded2
  line2-coded =
      step_g-code_round k1 (get_or w (1 + i) 0) line1
      ∙ ap (code_round k1 (get_or w (1 + i) 0)) line1-coded

  line3-coded : view3 line3 ≡ coded3
  line3-coded =
      step_f-code_round k2 (get_or w (2 + i) 0) line2
      ∙ ap (code_round k2 (get_or w (2 + i) 0)) line2-coded

  line4-coded : view4 line4 ≡ coded4
  line4-coded =
      step_e-code_round k3 (get_or w (3 + i) 0) line3
      ∙ ap (code_round k3 (get_or w (3 + i) 0)) line3-coded

  line5-coded : view5 line5 ≡ coded5
  line5-coded =
      step_d-code_round k4 (get_or w (4 + i) 0) line4
      ∙ ap (code_round k4 (get_or w (4 + i) 0)) line4-coded

  line6-coded : view6 line6 ≡ coded6
  line6-coded =
      step_c-code_round k5 (get_or w (5 + i) 0) line5
      ∙ ap (code_round k5 (get_or w (5 + i) 0)) line5-coded

  line7-coded : view7 line7 ≡ coded7
  line7-coded =
      step_b-code_round k6 (get_or w (6 + i) 0) line6
      ∙ ap (code_round k6 (get_or w (6 + i) 0)) line6-coded

  line8-coded : line8 ≡ coded8
  line8-coded =
      step_a-code_round k7 (get_or w (7 + i) 0) line7
      ∙ ap (code_round k7 (get_or w (7 + i) 0)) line7-coded

  eight-code_round : eight k0 k1 k2 k3 k4 k5 k6 k7 w i v ≡ coded8
  unfolding eight
  eight-code_round = line8-coded

  abbrev pub round1 : Regs
  round1 = round k0 (get_or w i 0) v

  abbrev pub round2 : Regs
  round2 = round k1 (get_or w (1 + i) 0) round1

  abbrev pub round3 : Regs
  round3 = round k2 (get_or w (2 + i) 0) round2

  abbrev pub round4 : Regs
  round4 = round k3 (get_or w (3 + i) 0) round3

  abbrev pub round5 : Regs
  round5 = round k4 (get_or w (4 + i) 0) round4

  abbrev pub round6 : Regs
  round6 = round k5 (get_or w (5 + i) 0) round5

  abbrev pub round7 : Regs
  round7 = round k6 (get_or w (6 + i) 0) round6

  abbrev pub round8 : Regs
  round8 = round k7 (get_or w (7 + i) 0) round7

  module _ (ok : AreWords v) where
    round1-AreWords : AreWords round1
    round1-AreWords = round-AreWords k0 (get_or w i 0) v ok

    round2-AreWords : AreWords round2
    round2-AreWords = round-AreWords k1 (get_or w (1 + i) 0) round1 round1-AreWords

    round3-AreWords : AreWords round3
    round3-AreWords = round-AreWords k2 (get_or w (2 + i) 0) round2 round2-AreWords

    round4-AreWords : AreWords round4
    round4-AreWords = round-AreWords k3 (get_or w (3 + i) 0) round3 round3-AreWords

    round5-AreWords : AreWords round5
    round5-AreWords = round-AreWords k4 (get_or w (4 + i) 0) round4 round4-AreWords

    round6-AreWords : AreWords round6
    round6-AreWords = round-AreWords k5 (get_or w (5 + i) 0) round5 round5-AreWords

    round7-AreWords : AreWords round7
    round7-AreWords = round-AreWords k6 (get_or w (6 + i) 0) round6 round6-AreWords

    round8-AreWords : AreWords round8
    round8-AreWords = round-AreWords k7 (get_or w (7 + i) 0) round7 round7-AreWords

    coded1-round : coded1 ≡ round1
    coded1-round = code_round-round k0 (get_or w i 0) v ok

    coded2-round : coded2 ≡ round2
    coded2-round =
        ap (code_round k1 (get_or w (1 + i) 0)) coded1-round
        ∙ code_round-round k1 (get_or w (1 + i) 0) round1 round1-AreWords

    coded3-round : coded3 ≡ round3
    coded3-round =
        ap (code_round k2 (get_or w (2 + i) 0)) coded2-round
        ∙ code_round-round k2 (get_or w (2 + i) 0) round2 round2-AreWords

    coded4-round : coded4 ≡ round4
    coded4-round =
        ap (code_round k3 (get_or w (3 + i) 0)) coded3-round
        ∙ code_round-round k3 (get_or w (3 + i) 0) round3 round3-AreWords

    coded5-round : coded5 ≡ round5
    coded5-round =
        ap (code_round k4 (get_or w (4 + i) 0)) coded4-round
        ∙ code_round-round k4 (get_or w (4 + i) 0) round4 round4-AreWords

    coded6-round : coded6 ≡ round6
    coded6-round =
        ap (code_round k5 (get_or w (5 + i) 0)) coded5-round
        ∙ code_round-round k5 (get_or w (5 + i) 0) round5 round5-AreWords

    coded7-round : coded7 ≡ round7
    coded7-round =
        ap (code_round k6 (get_or w (6 + i) 0)) coded6-round
        ∙ code_round-round k6 (get_or w (6 + i) 0) round6 round6-AreWords

    coded8-round : coded8 ≡ round8
    coded8-round =
        ap (code_round k7 (get_or w (7 + i) 0)) coded7-round
        ∙ code_round-round k7 (get_or w (7 + i) 0) round7 round7-AreWords

    pub eight-round : eight k0 k1 k2 k3 k4 k5 k6 k7 w i v ≡ round8
    eight-round = eight-code_round ∙ coded8-round
