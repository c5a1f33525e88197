-- ===== src/FourWay/Words.antt =====
-- The vector functions of sha256_4way.c on one word are those of the standard.
use cpuminer.Base.{ℕ, ◌+◌, ◌%◌, ◌≡◌, refl, IsWord, ◌⊞◌, List, get_or, arith}
use cpuminer.Bits.{choose, majority, majority_by_and}
use cpuminer.Sha.Spec.{k_at, big_sigma0, big_sigma1, sigma0, sigma1}
use cpuminer.Sha.Generic.{ror32, e0, e1, s0, s1}
use cpuminer.Sha.Generic.Functions.{e0-big_sigma0, e1-big_sigma1, s0-sigma0, s1-sigma1}
use cpuminer.Simd.{M128i, Lane, lane}
use cpuminer.Simd.Laws.{lane_laws, lane-add, lane-set1}
use cpuminer.FourWay.{
  ch, maj, rotr, shr, bigsigma0_256, bigsigma1_256, sigma0_256, sigma1_256, add4, add5, sha256round,
  expanded, zeros,
}

module _ (l : Lane) where
  lane-rotr : (x : M128i) (n : ℕ) → lane l (rotr x n) ≡ ror32 (lane l x) n
  unfolding rotr ror32
  lane-rotr x n = simp lane_laws refl

  lane-bigsigma0 : (x : M128i) → lane l (bigsigma0_256 x) ≡ e0 (lane l x)
  unfolding bigsigma0_256 e0
  lane-bigsigma0 x = simp (lane_laws, lane-rotr) refl

  lane-bigsigma1 : (x : M128i) → lane l (bigsigma1_256 x) ≡ e1 (lane l x)
  unfolding bigsigma1_256 e1
  lane-bigsigma1 x = simp (lane_laws, lane-rotr) refl

  lane-sigma0 : (x : M128i) → lane l (sigma0_256 x) ≡ s0 (lane l x)
  unfolding sigma0_256 s0 shr
  lane-sigma0 x = simp (lane_laws, lane-rotr) refl

  lane-sigma1 : (x : M128i) → lane l (sigma1_256 x) ≡ s1 (lane l x)
  unfolding sigma1_256 s1 shr
  lane-sigma1 x = simp (lane_laws, lane-rotr) refl

  lane-ch : (x y z : M128i) → lane l (ch x y z) ≡ choose 32 (lane l x) (lane l y) (lane l z)
  unfolding ch
  lane-ch x y z = simp lane_laws refl

  lane-maj :
      (x y z : M128i)
      → IsWord (lane l x)
      → IsWord (lane l y)
      → IsWord (lane l z)
      → lane l (maj x y z) ≡ majority (lane l x) (lane l y) (lane l z)
  unfolding maj
  lane-maj x y z p q r = simp lane_laws (majority_by_and 32 (lane l x) (lane l y) (lane l z) p q r)

  lane-add4 :
      (x y z w : M128i) → lane l (add4 x y z w) ≡ lane l x ⊞ lane l y ⊞ (lane l z ⊞ lane l w)
  unfolding add4
  lane-add4 x y z w = simp lane_laws refl

  lane-add5 :
      (x y z w u : M128i)
      → lane l (add5 x y z w u) ≡ lane l x ⊞ lane l y ⊞ (lane l z ⊞ lane l w) ⊞ lane l u
  unfolding add5
  lane-add5 x y z w u = simp (lane_laws, lane-add4) refl

regroup : (h s c k x : ℕ) → h ⊞ s ⊞ (c ⊞ k) ⊞ x ≡ h ⊞ s ⊞ c ⊞ k ⊞ x
regroup h s c k x = omega arith

regroup_words : (a b c d : ℕ) → a ⊞ b ⊞ (c ⊞ d) ≡ a ⊞ b ⊞ c ⊞ d
regroup_words a b c d = omega arith

-- The two temporaries of one round of the standard.
abbrev pub round_t1 : ℕ → ℕ → (e f g h : ℕ) → ℕ
round_t1 k x e f g h = h ⊞ big_sigma1 e ⊞ choose 32 e f g ⊞ k ⊞ x

abbrev pub round_t2 : (a b c : ℕ) → ℕ
round_t2 a b c = big_sigma0 a ⊞ majority a b c

module _ (l : Lane) (a b c d e f g h : M128i) (i : ℕ) (x : M128i) where
  pub sha256round_d :
      IsWord (lane l e)
      → lane l (sha256round a b c d e f g h i x).0
        ≡ lane l d ⊞ round_t1 (k_at i) (lane l x) (lane l e) (lane l f) (lane l g) (lane l h)
  unfolding sha256round
  sha256round_d we =
      simp (lane-add, lane-add5, lane-set1, lane-ch, lane-bigsigma1, e1-big_sigma1 we, regroup) refl

  pub sha256round_h :
      IsWord (lane l a)
      → IsWord (lane l b)
      → IsWord (lane l c)
      → IsWord (lane l e)
      → lane l (sha256round a b c d e f g h i x).1
        ≡ round_t1 (k_at i) (lane l x) (lane l e) (lane l f) (lane l g) (lane l h)
          ⊞ round_t2 (lane l a) (lane l b) (lane l c)
  unfolding sha256round
  sha256round_h wa wb wc we =
      simp
        (
          lane-add,
          lane-add5,
          lane-set1,
          lane-ch,
          lane-bigsigma1,
          e1-big_sigma1 we,
          regroup,
          lane-bigsigma0,
          e0-big_sigma0 wa,
          lane-maj l a b c wa wb wc,
        )
        refl

-- The next word of the schedule, where the words it is made of are known.
pub lane-expanded :
    (l : Lane) (n : ℕ) (w : List M128i) (w14 w9 w1 w0 : ℕ)
    → IsWord w14
    → IsWord w1
    → lane l (get_or w ((n + 14) % 16) zeros) ≡ w14
    → lane l (get_or w ((n + 9) % 16) zeros) ≡ w9
    → lane l (get_or w ((n + 1) % 16) zeros) ≡ w1
    → lane l (get_or w n zeros) ≡ w0
    → lane l (expanded n w) ≡ sigma1 w14 ⊞ w9 ⊞ sigma0 w1 ⊞ w0
unfolding expanded
lane-expanded l n w w14 w9 w1 w0 p q e14 e9 e1 e0 =
    simp (lane-add4, lane-sigma0, lane-sigma1, e14, e9, e1, e0, s1-sigma1 p, s0-sigma0 q)
      (regroup_words (sigma1 w14) w9 (sigma0 w1) w0)
