-- ===== src/Base/Words.antt =====
-- Boolean tests on numbers, and the unsigned machine words of the C code: a word is a number,
-- and each operation that can leave the width writes its remainder.
use Prim.Native.Nat.{ℕ, ◌+◌, ◌*◌, ◌/◌, ◌%◌, ◌^◌, ◌<◌, ◌≤◌, compare, Ordering}
use mathlib.Core.Path.{◌≡◌, refl}
use mathlib.Core.Logic.{◌⊎◌, inl, inr, ◌↔◌}
use mathlib.Core.Bool.{Bool, true, false}
use native.Mathlib.Omega.{arith}

abbrev pub ltb : ℕ → ℕ → Bool
ltb a b = elim (compare a b) [ Ordering.lt ↦ true | _ ↦ false ]

abbrev pub leb : ℕ → ℕ → Bool
leb a b = elim (compare a b) [ Ordering.gt ↦ false | _ ↦ true ]

infix 50 ◌==◌
abbrev pub ◌==◌ : ℕ → ℕ → Bool
a == b = elim (compare a b) [ Ordering.eq ↦ true | _ ↦ false ]

infix 1 if◌then◌else◌
abbrev pub if◌then◌else◌ {ℓ} : {A : Type ℓ} → Bool → A → A → A
if true then x else y = x
if false then x else y = y

pub Bool-cases : (b : Bool) → (b ≡ true) ⊎ (b ≡ false)
Bool-cases true = inl refl
Bool-cases false = inr refl

pub ==_iff : (a b : ℕ) → ((a == b) ≡ true) ↔ (a ≡ b)
==_iff a b = (λ h. ground arith, λ h. ground arith)

pub ltb_lt : (a b : ℕ) → ltb a b ≡ true → a < b
ltb_lt a b h = ground arith

pub ltb_le : (a b : ℕ) → ltb a b ≡ false → b ≤ a
ltb_le a b h = ground arith

pub ltb-lt : (a b : ℕ) → a < b → ltb a b ≡ true
ltb-lt a b h = ground arith

-- uint32_t arithmetic.
abbrev pub u32 : ℕ → ℕ
u32 n = n % 2 ^ 32

infixl 65 ◌⊞◌
abbrev pub ◌⊞◌ : ℕ → ℕ → ℕ
a ⊞ b = u32 (a + b)

infixl 75 ◌<<<◌ ◌>>>◌
abbrev pub ◌>>>◌ : ℕ → ℕ → ℕ
x >>> k = x / 2 ^ k

-- `uint32_t << k`: the bits above the width are lost.
abbrev pub ◌<<<◌ : ℕ → ℕ → ℕ
x <<< k = u32 (x * 2 ^ k)

abbrev pub IsWord : ℕ → Type 0
IsWord x = x < 2 ^ 32
