-- ===== src/Target/Order.antt =====
-- The comparison in `fulltest` is the order of two 256-bit numbers.
use cpuminer.Base.{
  ℕ, zero, suc, ◌+◌, ◌*◌, ◌/◌, ◌%◌, ◌^◌, ◌<◌, ◌≤◌, ◌≡◌, ◌↔◌, refl, bit_and, ltb, if◌then◌else◌,
  Bool, true, false, List, [], ◌∷◌, ◌++◌, get_or, set, IsWord, arith, All, length, get_or-set_ne,
  ◌∙◌, map, Bool-cases, inl, inr,
}
use cpuminer.Bits.{bit_and_mask, bit_or_high}
use cpuminer.Sha.{Regs, AreWords, words}
use cpuminer.Target.{bswap_16, swab32, swap256, Compared, compare_loop, compare, fulltest}

bswap_16_bytes : (v : ℕ) → v < 2 ^ 16 → bswap_16 v ≡ v % 256 * 2 ^ 8 + v / 2 ^ 8
unfolding bswap_16
bswap_16_bytes v h = rw (bit_and_mask 8 v, bit_or_high 8 (v % 256) (v / 2 ^ 8) (omega arith)) refl

-- `swab32` reverses the four bytes.
pub swab32_bytes :
    (v : ℕ)
    → IsWord v
    → swab32 v ≡ v % 256 * 2 ^ 24 + v / 2 ^ 8 % 256 * 2 ^ 16 + v / 2 ^ 16 % 256 * 2 ^ 8 + v / 2 ^ 24
unfolding swab32
swab32_bytes v h =
    let low : bswap_16 (bit_and v 0xffff % 2 ^ 16) ≡ v % 256 * 2 ^ 8 + v / 2 ^ 8 % 256 =
      rw (bit_and_mask 16 v, bswap_16_bytes (v % 2 ^ 16 % 2 ^ 16) (omega arith)) (omega arith) in
    let high : bswap_16 ((v / 2 ^ 16) % 2 ^ 16) ≡ v / 2 ^ 16 % 256 * 2 ^ 8 + v / 2 ^ 24 =
      rw (bswap_16_bytes (v / 2 ^ 16 % 2 ^ 16) (omega arith)) (omega arith) in
    let shift : (v % 256 * 2 ^ 8 + v / 2 ^ 8 % 256) * 2 ^ 16 % 2 ^ 32
        ≡ (v % 256 * 2 ^ 8 + v / 2 ^ 8 % 256) * 2 ^ 16 =
      omega arith in
    rw
      (
        low,
        high,
        shift,
        bit_or_high 16 (v % 256 * 2 ^ 8 + v / 2 ^ 8 % 256) (v / 2 ^ 16 % 256 * 2 ^ 8 + v / 2 ^ 24)
            (omega arith),
      )
      (omega arith)

-- The number that 32 bytes stand for, least significant byte first.
abbrev pub number : List ℕ → ℕ
number [] = 0
number (x ∷ xs) = x + 256 * number xs

-- A word of the digest has its most significant byte first; a word that was decoded from the
-- little-endian target has its least significant byte first.
abbrev pub big_endian : ℕ → List ℕ
big_endian w = w / 2 ^ 24 ∷ w / 2 ^ 16 % 256 ∷ w / 2 ^ 8 % 256 ∷ w % 256 ∷ []

abbrev pub little_endian : ℕ → List ℕ
little_endian w = w % 256 ∷ w / 2 ^ 8 % 256 ∷ w / 2 ^ 16 % 256 ∷ w / 2 ^ 24 ∷ []

abbrev pub concat_map : (ℕ → List ℕ) → List ℕ → List ℕ
concat_map f [] = []
concat_map f (x ∷ xs) = f x ++ concat_map f xs

abbrev pub hash_number : Regs → ℕ
hash_number hash = number (concat_map big_endian (words hash))

abbrev pub target_number : Regs → ℕ
target_number target = number (concat_map little_endian (words target))

-- A number by its 32-bit limbs, most significant first, below those of `acc`.
limbs : ℕ → List ℕ → ℕ
limbs acc [] = acc
limbs acc (x ∷ xs) = limbs (acc * 2 ^ 32 + x) xs

limbs-lt :
    (a b : ℕ) (xs ys : List ℕ)
    → length xs ≡ length ys
    → All IsWord xs
    → All IsWord ys
    → a < b
    → limbs a xs < limbs b ys
unfolding limbs
limbs-lt a b [] [] e p q h = h
limbs-lt a b [] (y ∷ ys) e p q h = absurd (omega arith)
limbs-lt a b (x ∷ xs) [] e p q h = absurd (omega arith)
limbs-lt a b (x ∷ xs) (y ∷ ys) e p q h =
    limbs-lt (a * 2 ^ 32 + x) (b * 2 ^ 32 + y) xs ys (omega arith) p.1 q.1 (omega arith)

-- What the loop computes on the limbs that are left.
verdict : List ℕ → List ℕ → Bool → Bool
verdict [] ys rc = rc
verdict (x ∷ xs) [] rc = rc
verdict (x ∷ xs) (y ∷ ys) rc = if ltb y x then false else if ltb x y then true else verdict xs ys rc

verdict_iff :
    (a : ℕ) (xs ys : List ℕ)
    → length xs ≡ length ys
    → All IsWord xs
    → All IsWord ys
    → (verdict xs ys true ≡ true) ↔ (limbs a xs ≤ limbs a ys)
unfolding limbs verdict
verdict_iff a [] [] e p q = (λ h. omega arith, λ h. refl)
verdict_iff a [] (y ∷ ys) e p q = absurd (omega arith)
verdict_iff a (x ∷ xs) [] e p q = absurd (omega arith)
verdict_iff a (x ∷ xs) (y ∷ ys) e p q = ground (
  arith,
  verdict_iff (a * 2 ^ 32 + x) xs ys,
  limbs-lt (a * 2 ^ 32 + x) (a * 2 ^ 32 + y) xs ys,
  limbs-lt (a * 2 ^ 32 + y) (a * 2 ^ 32 + x) ys xs,
)

-- The loop over the words from index `i` on, as a verdict; the words it overwrites are behind it.
verdict_at : ℕ → ℕ → List ℕ → List ℕ → Bool → Bool
verdict_at zero i hs ts rc = rc
verdict_at (suc left) i hs ts rc =
    let rest = verdict_at left (suc i) hs ts rc in
    if ltb (get_or ts i 0) (swab32 (get_or hs i 0))
    then false
    else if ltb (swab32 (get_or hs i 0)) (get_or ts i 0)
    then true
    else rest

compare_loop-verdict_at :
    (left i : ℕ) (hs ts : List ℕ) (s : Compared)
    → ((j : ℕ) → i ≤ j → get_or s.target32 j 0 ≡ get_or ts j 0)
    → (compare_loop left i hs s).rc ≡ verdict_at left i hs ts s.rc
unfolding compare_loop verdict_at
compare_loop-verdict_at zero i hs ts s same = refl
compare_loop-verdict_at (suc left) i hs ts s same =
    rw (same i (omega arith))
      (ground (arith, compare_loop-verdict_at left (suc i) hs ts after kept))
  where
    after : Compared
    after = record s { target32 = set s.target32 i (swab32 (get_or ts i 0)) }

    kept : (j : ℕ) → suc i ≤ j → get_or after.target32 j 0 ≡ get_or ts j 0
    kept j h =
        get_or-set_ne s.target32 i j (swab32 (get_or ts i 0)) 0 (omega arith) ∙ same j (omega arith)

abbrev reversed : Regs → List ℕ
reversed r = words (swap256 r)

compare-verdict :
    (hash target : Regs)
    → (compare hash target).rc ≡ verdict (map swab32 (reversed hash)) (reversed target) true
unfolding compare verdict verdict_at swap256
compare-verdict hash target =
    compare_loop-verdict_at 8 0 (reversed hash) (reversed target)
      (record { rc = true; target32 = reversed target }) (λ j h. refl)

-- The limbs of both sides are the numbers of the bytes.
limbs-hash : (hash : Regs) → AreWords hash → limbs 0 (map swab32 (reversed hash)) ≡ hash_number hash
unfolding limbs swap256
limbs-hash hash v =
    rw
      (
        swab32_bytes hash.a v.a,
        swab32_bytes hash.b v.b,
        swab32_bytes hash.c v.c,
        swab32_bytes hash.d v.d,
        swab32_bytes hash.e v.e,
        swab32_bytes hash.f v.f,
        swab32_bytes hash.g v.g,
        swab32_bytes hash.h v.h,
      )
      (omega arith)

limbs-target : (target : Regs) → AreWords target → limbs 0 (reversed target) ≡ target_number target
unfolding limbs swap256
limbs-target target v = omega arith

pub fulltest-true : (hash target : Regs) → (fulltest hash target).returned ≡ true
unfolding fulltest
fulltest-true hash target = refl

swab32-IsWord : (v : ℕ) → IsWord v → IsWord (swab32 v)
swab32-IsWord v h = rw (swab32_bytes v h) (omega arith)

reversed-IsWord : (r : Regs) → AreWords r → All IsWord (reversed r)
unfolding swap256
reversed-IsWord r v = omega arith

swapped-IsWord : (r : Regs) → AreWords r → All IsWord (map swab32 (reversed r))
unfolding swap256
swapped-IsWord r v = (
  swab32-IsWord r.h v.h,
  (
    swab32-IsWord r.g v.g,
    (
      swab32-IsWord r.f v.f,
      (
        swab32-IsWord r.e v.e,
        (
          swab32-IsWord r.d v.d,
          (swab32-IsWord r.c v.c, (swab32-IsWord r.b v.b, (swab32-IsWord r.a v.a, tt))),
        ),
      ),
    ),
  ),
)

module _ (hash target : Regs) (hs : AreWords hash) (ts : AreWords target) where
  -- The comparison in `fulltest` is the one that proof of work asks for: `rc` is true exactly when
  -- the digest, its bytes read as a little-endian number, is at most the number of the
  -- little-endian target. Both buffers hold eight 32-bit words.
  pub fulltest-rc_iff :
      ((fulltest hash target).rc ≡ true) ↔ (hash_number hash ≤ target_number target)
  unfolding fulltest
  fulltest-rc_iff =
      let both =
        verdict_iff 0 (map swab32 (reversed hash)) (reversed target) (unfold swap256 in refl)
          (swapped-IsWord hash hs) (reversed-IsWord target ts) in
      rw (compare-verdict hash target, ← limbs-hash hash hs, ← limbs-target target ts) both

  -- What `fulltest` returns does not depend on that comparison: a digest above the target is
  -- accepted, although the comparison has failed.
  pub fulltest_accepts_above :
      target_number target < hash_number hash
      → ((fulltest hash target).returned ≡ true) × ((fulltest hash target).rc ≡ false)
  unfolding fulltest
  fulltest_accepts_above above = (
    refl,
    elim (Bool-cases (compare hash target).rc) [
      | inl yes_rc ↦ absurd (omega (arith, fulltest-rc_iff.0 yes_rc))
      | inr no_rc ↦ no_rc
    ],
  )
