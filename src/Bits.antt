-- ===== src/Bits.antt =====
-- Laws of the bit operations at every width, by recursion on the width.
pub mod Step
use Step.{bit_and_step, bit_or_step, halves, low_digits, and_half, xor_half}
use Prim.Native.Nat.{bit_and-bitwise, bit_or-bitwise}
use native.Mathlib.Nat.{pow-suc, one-le-pow}
use cpuminer.Base.{
  ℕ, zero, suc, ◌+◌, ◌-◌, ◌*◌, ◌/◌, ◌%◌, ◌^◌, ◌≤◌, ◌<◌, bit_and, bit_or, bit_xor, ◌≡◌, refl, ap,
  ◌∙◌, arith,
}

-- Two numbers with one half and one lowest digit are equal.
eq_of_digits : (a b : ℕ) → a / 2 ≡ b / 2 → a % 2 ≡ b % 2 → a ≡ b
eq_of_digits a b h l = omega arith

below_half : (k a : ℕ) → a < 2 ^ suc k → a / 2 < 2 ^ k
below_half k a h = omega (arith, pow-suc 2 k)

unfold_zero : (b : ℕ) → bit_and 0 b < 1
unfold_zero b = simp bit_and-bitwise (omega arith)

pub bit_and-lt : (k a b : ℕ) → a < 2 ^ k → bit_and a b < 2 ^ k
bit_and-lt zero a b h = let e : a ≡ 0 = omega arith in rw e (unfold_zero b)
bit_and-lt (suc k) a b h =
    omega (arith, pow-suc 2 k, and_half a b, bit_and-lt k (a / 2) (b / 2) (below_half k a h))

pub bit_xor-lt : (k a b : ℕ) → a < 2 ^ k → b < 2 ^ k → bit_xor a b < 2 ^ k
bit_xor-lt zero a b h g =
    let e : a ≡ 0 = omega arith in let f : b ≡ 0 = omega arith in rw (e, f) (omega arith)
bit_xor-lt (suc k) a b h g = omega (
  arith,
  pow-suc 2 k,
  xor_half a b,
  bit_xor-lt k (a / 2) (b / 2) (below_half k a h) (below_half k b g),
)

-- An identity of three words holds if it holds of all-zero words, of the halves and of the digits.
module _ (f g : ℕ → ℕ → ℕ → ℕ → ℕ) where
  by_digits :
      ((x y z : ℕ) → x ≡ 0 → y ≡ 0 → z ≡ 0 → f 0 x y z ≡ g 0 x y z)
      → ((k x y z : ℕ)
          → x < 2 ^ suc k
          → f k (x / 2) (y / 2) (z / 2) ≡ g k (x / 2) (y / 2) (z / 2)
          → f (suc k) x y z ≡ g (suc k) x y z)
      → (k x y z : ℕ) → x < 2 ^ k
      → y < 2 ^ k
      → z < 2 ^ k
      → f k x y z ≡ g k x y z
  by_digits base step zero x y z p q r = base x y z (omega arith) (omega arith) (omega arith)
  by_digits base step (suc k) x y z p q r = step k x y z p (
      by_digits base step k (x / 2) (y / 2) (z / 2) (below_half k x p) (below_half k y q)
        (below_half k z r))

-- The standard's choice and majority functions, at width `k`.
abbrev pub choose : ℕ → ℕ → ℕ → ℕ → ℕ
choose k x y z = bit_xor (bit_and x y) (bit_and (2 ^ k - 1 - x) z)

abbrev pub majority : ℕ → ℕ → ℕ → ℕ
majority x y z = bit_xor (bit_xor (bit_and x y) (bit_and x z)) (bit_and y z)

pub choose_by_mask :
    (k x y z : ℕ)
    → x < 2 ^ k
    → y < 2 ^ k
    → z < 2 ^ k
    → bit_xor z (bit_and x (bit_xor y z)) ≡ choose k x y z
choose_by_mask =
    by_digits (λ k x y z. bit_xor z (bit_and x (bit_xor y z))) choose
      (λ x y z p q r. rw (p, q, r) refl)
      (λ k x y z p ih.
        eq_of_digits _ _
          (simp halves (
            let e : (2 ^ suc k - 1 - x) / 2 ≡ 2 ^ k - 1 - x / 2 = omega (arith, pow-suc 2 k) in
            rw e ih))
          (simp low_digits (
            let e : (2 ^ suc k - 1 - x) % 2 ≡ 1 - x % 2 = omega (arith, pow-suc 2 k) in
            rw e (omega arith))))

pub majority_by_or :
    (k x y z : ℕ)
    → x < 2 ^ k
    → y < 2 ^ k
    → z < 2 ^ k
    → bit_or (bit_and x y) (bit_and z (bit_or x y)) ≡ majority x y z
majority_by_or =
    by_digits (λ k x y z. bit_or (bit_and x y) (bit_and z (bit_or x y))) (λ k. majority)
      (λ x y z p q r. rw (p, q, r) refl)
      (λ k x y z p ih. eq_of_digits _ _ (simp halves ih) (simp low_digits (omega arith)))

pub majority_by_xor :
    (k x y z : ℕ)
    → x < 2 ^ k
    → y < 2 ^ k
    → z < 2 ^ k
    → bit_xor y (bit_and (bit_xor x y) (bit_xor y z)) ≡ majority x y z
majority_by_xor =
    by_digits (λ k x y z. bit_xor y (bit_and (bit_xor x y) (bit_xor y z))) (λ k. majority)
      (λ x y z p q r. rw (p, q, r) refl)
      (λ k x y z p ih. eq_of_digits _ _ (simp halves ih) (simp low_digits (omega arith)))

pub majority_by_and :
    (k x y z : ℕ)
    → x < 2 ^ k
    → y < 2 ^ k
    → z < 2 ^ k
    → bit_xor (bit_and x (bit_xor y z)) (bit_and y z) ≡ majority x y z
majority_by_and =
    by_digits (λ k x y z. bit_xor (bit_and x (bit_xor y z)) (bit_and y z)) (λ k. majority)
      (λ x y z p q r. rw (p, q, r) refl)
      (λ k x y z p ih. eq_of_digits _ _ (simp halves ih) (simp low_digits (omega arith)))

-- `|` of a field of `k` low bits with a shifted word is their sum.
or-zero : (k a : ℕ) → a < 2 ^ k → bit_or a 0 ≡ a
or-zero zero a h = let e : a ≡ 0 = omega arith in rw e refl
or-zero (suc k) a h = omega (arith, bit_or_step a 0, or-zero k (a / 2) (below_half k a h))

twice_half : (a : ℕ) → 2 * a / 2 ≡ a
twice_half a = omega arith

doubled : (k n : ℕ) → 2 * (n * 2 ^ k) ≡ n * 2 ^ suc k
doubled k n = let e = ap (λ (power : ℕ). n * power) (pow-suc 2 k) in omega arith

pub bit_or_low : (k r q : ℕ) → r < 2 ^ k → bit_or r (q * 2 ^ k) ≡ q * 2 ^ k + r
bit_or_low zero r q h = let e : r ≡ 0 = omega arith in rw e (simp bit_or-bitwise (omega arith))
bit_or_low (suc k) r q h =
    let below : bit_or (r / 2) (q * 2 ^ k) ≡ q * 2 ^ k + r / 2 =
      bit_or_low k (r / 2) q (below_half k r h) in
    let step : bit_or r (2 * (q * 2 ^ k)) ≡ 2 * (q * 2 ^ k) + r =
      rw (bit_or_step, twice_half, below) (omega arith) in
    rw (← doubled k q) step

-- Stated for numbers of at most `n`, on which the recursion runs.
bit_or_comm : (n a b : ℕ) → a + b ≤ n → bit_or a b ≡ bit_or b a
bit_or_comm zero a b h =
    let e : a ≡ 0 = omega arith in let f : b ≡ 0 = omega arith in rw (e, f) refl
bit_or_comm (suc n) zero zero h = refl
bit_or_comm (suc n) a b h =
    omega (arith, bit_or_step a b, bit_or_step b a, bit_or_comm n (a / 2) (b / 2) (omega arith))

pub bit_or_high : (k q r : ℕ) → r < 2 ^ k → bit_or (q * 2 ^ k) r ≡ q * 2 ^ k + r
bit_or_high k q r h = bit_or_comm (q * 2 ^ k + r) (q * 2 ^ k) r (omega arith) ∙ bit_or_low k r q h

-- A number below `n`, and no bits.
and-zero : (n a : ℕ) → a ≤ n → bit_and a 0 ≡ 0
and-zero n zero h = simp bit_and-bitwise refl
and-zero zero (suc a) h = absurd (omega arith)
and-zero (suc n) (suc a) h =
    omega (arith, bit_and_step (suc a) 0, and-zero n (suc a / 2) (omega arith))

and_mask_parts : (k low high : ℕ) → low < 2 ^ k → bit_and (low + high * 2 ^ k) (2 ^ k - 1) ≡ low
and_mask_parts zero low high h =
    let e : low ≡ 0 = omega arith in
    rw (e, and-zero (0 + high * 1) (0 + high * 1) (omega arith)) (omega arith)
and_mask_parts (suc k) low high h =
    let half = and_mask_parts k (low / 2) high (below_half k low h) in
    let lowest = bit_and_step (low + high * 2 ^ suc k) (2 ^ suc k - 1) in
    ground (arith, pow-suc 2 k, doubled k high, half, lowest)

-- A mask of `k` low bits is the remainder by `2 ^ k`.
pub bit_and_mask : (k a : ℕ) → bit_and a (2 ^ k - 1) ≡ a % 2 ^ k
bit_and_mask k a =
    let parts = and_mask_parts k (a % 2 ^ k) (a / 2 ^ k) in ground (arith, one-le-pow k 2, parts)
