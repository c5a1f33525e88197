-- ===== src/Bits/Step.antt =====
-- The native bit operations, one binary digit at a time: the lowest digit and what stands above it.
use Prim.Native.Nat.{
  min, max, digits, bitwise, bit_and-bitwise, bit_or-bitwise, bit_xor-bitwise, differ,
}
use cpuminer.Base.{
  ℕ, zero, suc, ◌+◌, ◌*◌, ◌/◌, ◌%◌, ◌≤◌, ◌<◌, bit_and, bit_or, bit_xor, ◌≡◌, refl, sym, ◌-◌, arith,
}
use mathlib.Core.Path.{subst}

module _ (z : ℕ → ℕ) (f : ℕ → ℕ → ℕ) where
  -- Fuel beyond the first number changes nothing.
  spare_fuel : (fuel x y more : ℕ) → x ≤ fuel → digits z f (fuel + more) x y ≡ digits z f fuel x y
  spare_fuel zero (suc x) y more h = absurd (omega arith)
  spare_fuel zero zero y zero h = refl
  spare_fuel zero zero y (suc more) h = let e : 0 + suc more ≡ suc more = omega arith in rw e refl
  spare_fuel (suc fuel) zero y more h =
      let e : suc fuel + more ≡ suc (fuel + more) = omega arith in rw e refl
  spare_fuel (suc fuel) (suc x) y more h =
      let half = spare_fuel fuel (suc x / 2) (y / 2) more (omega arith) in
      let e : suc fuel + more ≡ suc (fuel + more) = omega arith in rw e (omega (arith, half))

  split_fuel : (x y : ℕ) → digits z f x (suc x / 2) y ≡ bitwise z f (suc x / 2) y
  split_fuel x y =
      let sum : x ≡ suc x / 2 + (x - suc x / 2) = omega arith in
      subst (λ fuel. digits z f fuel (suc x / 2) y ≡ bitwise z f (suc x / 2) y) (sym sum)
        (spare_fuel (suc x / 2) (suc x / 2) y (x - suc x / 2) (omega arith))

  -- The lowest digit of any of the operations: `op` is given by `f` on two digits, and by `z` where
  -- the first number has run out.
  lowest :
      (op : ℕ → ℕ → ℕ)
      → ((x y : ℕ) → op x y ≡ bitwise z f x y)
      → ((y : ℕ) → z y ≡ z (y / 2) * 2 + f 0 (y % 2))
      → (x y : ℕ) → op x y ≡ op (x / 2) (y / 2) * 2 + f (x % 2) (y % 2)
  lowest op means run_out zero y = omega (arith, means 0 y, means 0 (y / 2), run_out y)
  lowest op means run_out (suc x) y =
      omega (arith, means (suc x) y, means (suc x / 2) (y / 2), split_fuel x (y / 2))

pub bit_and_step : (a b : ℕ) → bit_and a b ≡ bit_and (a / 2) (b / 2) * 2 + min (a % 2) (b % 2)
bit_and_step = lowest (λ y. 0) min bit_and (λ a b. bit_and-bitwise a b) (λ y. omega arith)

pub bit_or_step : (a b : ℕ) → bit_or a b ≡ bit_or (a / 2) (b / 2) * 2 + max (a % 2) (b % 2)
bit_or_step = lowest (λ y. y) max bit_or (λ a b. bit_or-bitwise a b) (λ y. omega arith)

-- On two digits `differ` is the sum without its carry.
differ_digits : (x y : ℕ) → x < 2 → y < 2 → differ x y ≡ (x + y) % 2
differ_digits zero zero p q = refl
differ_digits zero (suc y) p q = omega arith
differ_digits (suc zero) zero p q = refl
differ_digits (suc zero) (suc zero) p q = refl
differ_digits (suc zero) (suc (suc y)) p q = absurd (omega arith)
differ_digits (suc (suc x)) y p q = absurd (omega arith)

pub bit_xor_step : (a b : ℕ) → bit_xor a b ≡ bit_xor (a / 2) (b / 2) * 2 + (a % 2 + b % 2) % 2
bit_xor_step a b = omega (
  arith,
  lowest (λ y. y) differ bit_xor (λ x y. bit_xor-bitwise x y) (λ y. omega arith) a b,
  differ_digits (a % 2) (b % 2) (omega arith) (omega arith),
)

-- What is left of a result without its lowest digit, and that digit.
pub and_half : (a b : ℕ) → bit_and a b / 2 ≡ bit_and (a / 2) (b / 2)
and_half a b = omega (arith, bit_and_step a b)

pub and_digit : (a b : ℕ) → bit_and a b % 2 ≡ min (a % 2) (b % 2)
and_digit a b = omega (arith, bit_and_step a b)

pub or_half : (a b : ℕ) → bit_or a b / 2 ≡ bit_or (a / 2) (b / 2)
or_half a b = omega (arith, bit_or_step a b)

pub or_digit : (a b : ℕ) → bit_or a b % 2 ≡ max (a % 2) (b % 2)
or_digit a b = omega (arith, bit_or_step a b)

pub xor_half : (a b : ℕ) → bit_xor a b / 2 ≡ bit_xor (a / 2) (b / 2)
xor_half a b = omega (arith, bit_xor_step a b)

pub xor_digit : (a b : ℕ) → bit_xor a b % 2 ≡ (a % 2 + b % 2) % 2
xor_digit a b = omega (arith, bit_xor_step a b)

pub ruleset halves = (and_half, or_half, xor_half)

pub ruleset low_digits = (and_digit, or_digit, xor_digit)
