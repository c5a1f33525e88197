-- ===== src/Options/Holds.antt =====
-- Reasoning about a result of the option parser branch by branch.
use cpuminer.Base.{
  ℕ, ◌==◌, ◌≡◌, refl, if◌then◌else◌, Bool, true, false, ◌||◌, Option, none, some, All, List, [],
  ◌∷◌, arith, ltb_le,
}
use cpuminer.Base.Int.{ℤ, pos, ◌≤ℤ◌, ltb_ℤ}
use cpuminer.Options.{Text, Algo, find_algo, checked, switch}

-- A predicate of the settings, where the program goes on.
abbrev pub Holds : {A : Type 0} → (A → Type 0) → Option A → Type 0
Holds P none = Unit
Holds P (some a) = P a

pub if-Holds :
    {A : Type 0} (P : A → Type 0) (b : Bool) (x y : Option A)
    → (b ≡ true → Holds P x)
    → (b ≡ false → Holds P y)
    → Holds P (if b then x else y)
if-Holds P true x y p q = p refl
if-Holds P false x y p q = q refl

pub bind-Holds :
    {A B : Type 0} (P : A → Type 0) (Q : B → Type 0) (r : Option A) (f : A → Option B)
    → Holds P r
    → ((a : A) → P a → Holds Q (f a))
    → Holds Q (elim r [ none ↦ none | some a ↦ f a ])
bind-Holds P Q none f p q = tt
bind-Holds P Q (some a) f p q = q a p

pub map-Holds :
    {A : Type 0} {P Q : A → Type 0} (r : Option A) → Holds P r → ((a : A) → P a → Q a) → Holds Q r
map-Holds none p q = tt
map-Holds (some a) p q = q a p

pub switch-Holds :
    {A : Type 0} (P : A → Type 0) (key : ℕ) (cases : List (ℕ × Option A)) (otherwise : Option A)
    → All (λ c. Holds P c.1) cases
    → Holds P otherwise
    → Holds P (switch key cases otherwise)
unfolding switch
switch-Holds P key [] otherwise h d = d
switch-Holds P key (c ∷ cases) otherwise h d =
    if-Holds P (key == c.0) c.1 (switch key cases otherwise) (λ e. h.0)
      (λ e. switch-Holds P key cases otherwise h.1 d)

pub nonneg : (v : ℤ) → pos 1 ≤ℤ v → pos 0 ≤ℤ v
nonneg v h = omega arith

pub or_false : (a b : Bool) → (a || b) ≡ false → (a ≡ false) × (b ≡ false)
or_false false false h = (refl, refl)
or_false false true h = cc
or_false true b h = cc

abbrev pub Between : ℤ → ℤ → ℤ → Type 0
Between low high v = (low ≤ℤ v) × (v ≤ℤ high)

pub checked-Holds :
    {A : Type 0} (P : A → Type 0) (low high v : ℤ) (a : A)
    → (Between low high v → P a)
    → Holds P (checked low high v a)
unfolding checked
checked-Holds P low high v a p =
    if-Holds P (ltb_ℤ v low || ltb_ℤ high v) none (some a) (λ h. tt)
      (λ h.
        let parts = or_false (ltb_ℤ v low) (ltb_ℤ high v) h in
        let above = ltb_le _ _ parts.0 in
        let below = ltb_le _ _ parts.1 in p (omega arith, omega arith))

pub find_algo-built :
    (built : Algo → Bool) (names : List (Algo × Text)) (arg : Text)
    → Holds (λ a. built a ≡ true) (find_algo built names arg)
unfolding find_algo
find_algo-built built [] arg = tt
find_algo-built built (entry ∷ names) arg =
    if-Holds (λ a. built a ≡ true) _ (some entry.0) (find_algo built names arg)
      (λ h. ground (arith, h)) (λ h. find_algo-built built names arg)
