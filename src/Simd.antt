-- ===== src/Simd.antt =====
-- The SSE2 vectors that sha256_4way.c and sha256_sse2_amd64.c compute with: four words of 32 bits, and
-- the `_mm_*_epi32` and `_mm_*_si128` operations that the two files use, word by word.
pub mod Laws
use cpuminer.Base.{
  ℕ, zero, suc, ◌-◌, ◌*◌, ◌/◌, ◌%◌, ◌^◌, ◌⊞◌, ◌<<<◌, ◌>>>◌, bit_and, bit_or, bit_xor,
}

-- `__m128i`; `r0` is at the lowest address.
pub record M128i : Type 0 where
  pub r0 : ℕ
  pub r1 : ℕ
  pub r2 : ℕ
  pub r3 : ℕ

abbrev pub lanewise : (ℕ → ℕ) → M128i → M128i
lanewise f x = record { r0 = f x.r0; r1 = f x.r1; r2 = f x.r2; r3 = f x.r3 }

abbrev pub lanewise2 : (ℕ → ℕ → ℕ) → M128i → M128i → M128i
lanewise2 f x y = record { r0 = f x.r0 y.r0; r1 = f x.r1 y.r1; r2 = f x.r2 y.r2; r3 = f x.r3 y.r3 }

abbrev pub set1_epi32 : ℕ → M128i
set1_epi32 x = record { r0 = x; r1 = x; r2 = x; r3 = x }

unfoldable pub add_epi32 : M128i → M128i → M128i
add_epi32 = lanewise2 ◌⊞◌

unfoldable pub xor_si128 : M128i → M128i → M128i
xor_si128 = lanewise2 bit_xor

unfoldable pub and_si128 : M128i → M128i → M128i
and_si128 = lanewise2 bit_and

unfoldable pub or_si128 : M128i → M128i → M128i
or_si128 = lanewise2 bit_or

-- `~x & y`
unfoldable pub andnot_si128 : M128i → M128i → M128i
andnot_si128 = lanewise2 (λ x y. bit_and (2 ^ 32 - 1 - x) y)

unfoldable pub srli_epi32 : M128i → ℕ → M128i
srli_epi32 x n = lanewise (λ word. word >>> n) x

unfoldable pub slli_epi32 : M128i → ℕ → M128i
slli_epi32 x n = lanewise (λ word. word <<< n) x

-- The index of a word in a vector.
pub data Lane : Type 0 where
  l0 l1 l2 l3 : Lane

-- The word of a vector at an index, as the unions of the code read it.
abbrev pub lane : Lane → M128i → ℕ
lane l0 x = x.r0
lane l1 x = x.r1
lane l2 x = x.r2
lane l3 x = x.r3

abbrev pub lane_index : Lane → ℕ
lane_index l0 = 0
lane_index l1 = 1
lane_index l2 = 2
lane_index l3 = 3

abbrev pub lane_at : ℕ → Lane
lane_at j = elim (j % 4) [ zero ↦ l0 | suc zero ↦ l1 | suc (suc zero) ↦ l2 | other ↦ l3 ]
