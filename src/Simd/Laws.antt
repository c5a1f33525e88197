-- ===== src/Simd/Laws.antt =====
-- Each vector operation acts on one word at a time.
use cpuminer.Base.{ℕ, ◌-◌, ◌^◌, ◌%◌, ◌≡◌, refl, ◌⊞◌, ◌<<<◌, ◌>>>◌, bit_and, bit_or, bit_xor, arith}
use cpuminer.Simd.{
  M128i, set1_epi32, add_epi32, xor_si128, and_si128, or_si128, andnot_si128, srli_epi32,
  slli_epi32, Lane, l0, l1, l2, l3, lane, lane_at, lane_index,
}

-- What holds of each of the four words holds of the word at every index.
pub at_lane :
    (P : (M128i → ℕ) → Type 0)
    → P (λ x. x.r0)
    → P (λ x. x.r1)
    → P (λ x. x.r2)
    → P (λ x. x.r3)
    → (l : Lane) → P (lane l)
at_lane P p q r s l0 = p
at_lane P p q r s l1 = q
at_lane P p q r s l2 = r
at_lane P p q r s l3 = s

pub lane-set1 : (l : Lane) (x : ℕ) → lane l (set1_epi32 x) ≡ x
lane-set1 l x = at_lane (λ f. f (set1_epi32 x) ≡ x) refl refl refl refl l

pub lane-add : (l : Lane) (x y : M128i) → lane l (add_epi32 x y) ≡ lane l x ⊞ lane l y
unfolding add_epi32
lane-add l x y = at_lane (λ f. f (add_epi32 x y) ≡ f x ⊞ f y) refl refl refl refl l

pub lane-xor : (l : Lane) (x y : M128i) → lane l (xor_si128 x y) ≡ bit_xor (lane l x) (lane l y)
unfolding xor_si128
lane-xor l x y = at_lane (λ f. f (xor_si128 x y) ≡ bit_xor (f x) (f y)) refl refl refl refl l

pub lane-and : (l : Lane) (x y : M128i) → lane l (and_si128 x y) ≡ bit_and (lane l x) (lane l y)
unfolding and_si128
lane-and l x y = at_lane (λ f. f (and_si128 x y) ≡ bit_and (f x) (f y)) refl refl refl refl l

pub lane-or : (l : Lane) (x y : M128i) → lane l (or_si128 x y) ≡ bit_or (lane l x) (lane l y)
unfolding or_si128
lane-or l x y = at_lane (λ f. f (or_si128 x y) ≡ bit_or (f x) (f y)) refl refl refl refl l

pub lane-andnot :
    (l : Lane) (x y : M128i)
    → lane l (andnot_si128 x y) ≡ bit_and (2 ^ 32 - 1 - lane l x) (lane l y)
unfolding andnot_si128
lane-andnot l x y =
    at_lane (λ f. f (andnot_si128 x y) ≡ bit_and (2 ^ 32 - 1 - f x) (f y)) refl refl refl refl l

pub lane-srli : (l : Lane) (x : M128i) (n : ℕ) → lane l (srli_epi32 x n) ≡ lane l x >>> n
unfolding srli_epi32
lane-srli l x n = at_lane (λ f. f (srli_epi32 x n) ≡ f x >>> n) refl refl refl refl l

pub lane-slli : (l : Lane) (x : M128i) (n : ℕ) → lane l (slli_epi32 x n) ≡ lane l x <<< n
unfolding slli_epi32
lane-slli l x n = at_lane (λ f. f (slli_epi32 x n) ≡ f x <<< n) refl refl refl refl l

pub ruleset lane_laws =
    (lane-set1, lane-add, lane-xor, lane-and, lane-or, lane-andnot, lane-srli, lane-slli)

pub lane_index-lane_at : (j : ℕ) → lane_index (lane_at j) ≡ j % 4
lane_index-lane_at j = ground arith
