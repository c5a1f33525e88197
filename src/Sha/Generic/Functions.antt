-- ===== src/Sha/Generic/Functions.antt =====
-- The bit functions of sha256_generic.c are those of the standard.
use cpuminer.Base.{ℕ, ◌-◌, ◌*◌, ◌/◌, ◌%◌, ◌^◌, ◌<◌, ◌≡◌, IsWord, refl, arith}
use cpuminer.Bits.{bit_or_low, choose, choose_by_mask, majority, majority_by_or}
use cpuminer.Sha.Spec.{rotr, big_sigma0, big_sigma1, sigma0, sigma1}
use cpuminer.Sha.Generic.{ror32, ch, maj, e0, e1, s0, s1}

-- The rotation, where the shift to the left loses the high bits.
ror32-rotr :
    (n x : ℕ)
    → x / 2 ^ n < 2 ^ (32 - n)
    → x * 2 ^ (32 - n) % 2 ^ 32 ≡ x % 2 ^ n * 2 ^ (32 - n)
    → ror32 x n ≡ rotr n x
unfolding ror32
ror32-rotr n x small high = rw high (bit_or_low (32 - n) (x / 2 ^ n) (x % 2 ^ n) small)

module _ {x : ℕ} (w : IsWord x) where
  pub e0-big_sigma0 : e0 x ≡ big_sigma0 x
  unfolding e0 big_sigma0
  e0-big_sigma0 =
      rw
        (
          ror32-rotr 2 x (omega arith) (omega arith),
          ror32-rotr 13 x (omega arith) (omega arith),
          ror32-rotr 22 x (omega arith) (omega arith),
        )
        refl

  pub e1-big_sigma1 : e1 x ≡ big_sigma1 x
  unfolding e1 big_sigma1
  e1-big_sigma1 =
      rw
        (
          ror32-rotr 6 x (omega arith) (omega arith),
          ror32-rotr 11 x (omega arith) (omega arith),
          ror32-rotr 25 x (omega arith) (omega arith),
        )
        refl

  pub s0-sigma0 : s0 x ≡ sigma0 x
  unfolding s0 sigma0
  s0-sigma0 =
      rw (ror32-rotr 7 x (omega arith) (omega arith), ror32-rotr 18 x (omega arith) (omega arith))
        refl

  pub s1-sigma1 : s1 x ≡ sigma1 x
  unfolding s1 sigma1
  s1-sigma1 =
      rw (ror32-rotr 17 x (omega arith) (omega arith), ror32-rotr 19 x (omega arith) (omega arith))
        refl

module _ {x y z : ℕ} (p : IsWord x) (q : IsWord y) (r : IsWord z) where
  pub ch-choose : ch x y z ≡ choose 32 x y z
  unfolding ch
  ch-choose = choose_by_mask 32 x y z p q r

  pub maj-majority : maj x y z ≡ majority x y z
  unfolding maj
  maj-majority = majority_by_or 32 x y z p q r
