-- ===== src/Sha/Cryptopp/Functions.antt =====
-- The bit functions of sha256_cryptopp.c are those of the standard.
use cpuminer.Base.{ℕ, ◌≡◌, IsWord, refl, ◌∙◌}
use cpuminer.Bits.{choose, choose_by_mask, majority, majority_by_xor}
use cpuminer.Sha.Spec.{big_sigma0, big_sigma1, sigma0, sigma1}
use cpuminer.Sha.Generic
use cpuminer.Sha.Generic.Functions.{e0-big_sigma0, e1-big_sigma1, s0-sigma0, s1-sigma1}
use cpuminer.Sha.Cryptopp.{ch, maj, big_s0, big_s1, small_s0, small_s1}

-- The two files spell one function in two ways.
big_s0-e0 : (x : ℕ) → big_s0 x ≡ Generic.e0 x
unfolding big_s0 Generic.e0
big_s0-e0 x = refl

big_s1-e1 : (x : ℕ) → big_s1 x ≡ Generic.e1 x
unfolding big_s1 Generic.e1
big_s1-e1 x = refl

small_s0-s0 : (x : ℕ) → small_s0 x ≡ Generic.s0 x
unfolding small_s0 Generic.s0
small_s0-s0 x = refl

small_s1-s1 : (x : ℕ) → small_s1 x ≡ Generic.s1 x
unfolding small_s1 Generic.s1
small_s1-s1 x = refl

module _ {x : ℕ} (w : IsWord x) where
  pub big_s0-big_sigma0 : big_s0 x ≡ big_sigma0 x
  big_s0-big_sigma0 = big_s0-e0 x ∙ e0-big_sigma0 w

  pub big_s1-big_sigma1 : big_s1 x ≡ big_sigma1 x
  big_s1-big_sigma1 = big_s1-e1 x ∙ e1-big_sigma1 w

  pub small_s0-sigma0 : small_s0 x ≡ sigma0 x
  small_s0-sigma0 = small_s0-s0 x ∙ s0-sigma0 w

  pub small_s1-sigma1 : small_s1 x ≡ sigma1 x
  small_s1-sigma1 = small_s1-s1 x ∙ s1-sigma1 w

module _ {x y z : ℕ} (p : IsWord x) (q : IsWord y) (s : IsWord z) where
  pub ch-choose : ch x y z ≡ choose 32 x y z
  unfolding ch
  ch-choose = choose_by_mask 32 x y z p q s

  pub maj-majority : maj x y z ≡ majority x y z
  unfolding maj
  maj-majority = majority_by_xor 32 x y z p q s
