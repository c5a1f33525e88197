-- ===== src/FourWay/Digest.antt =====
-- The two hashes of sha256_4way.c on one word of the vectors, against the standard.
use cpuminer.Base.{
  ℕ, zero, suc, ◌+◌, ◌-◌, ◌≤◌, ◌<◌, ◌≡◌, refl, ◌∙◌, ap, List, [], ◌∷◌, ◌++◌, map, length,
  length-set, length-map, get_or, get_or-set_self, get_or-set_ne, set, take, drop, arith,
}
use native.Mathlib.Decide.{ℕ_discrete}
use cpuminer.Sha.{Regs, AreWords, words, add_regs}
use cpuminer.Sha.Spec.{rounds, compress, IsSchedule}
use cpuminer.Sha.Generic.Schedule.{WordsIn}
use cpuminer.Simd.{M128i, Lane, lane, set1_epi32}
use cpuminer.Simd.Laws.{lane-add, lane-set1}
use cpuminer.FourWay.{
  Vars, vars_lane, vars_list, zeros, set1_vars, add_vars, first_words, first_hash, second_hash,
}
use cpuminer.FourWay.Rounds.{lines-rounds}

pub get_or-take : (n : ℕ) (xs : List ℕ) (t : ℕ) → t < n → get_or (take n xs) t 0 ≡ get_or xs t 0
get_or-take zero xs t lt = absurd (omega arith)
get_or-take (suc n) [] t lt = refl
get_or-take (suc n) (x ∷ xs) zero lt = refl
get_or-take (suc n) (x ∷ xs) (suc t) lt = get_or-take n xs t (omega arith)

pub length-take : (n : ℕ) (xs : List ℕ) → n ≤ length xs → length (take n xs) ≡ n
length-take zero xs h = refl
length-take (suc n) [] h = absurd (omega arith)
length-take (suc n) (x ∷ xs) h = ap suc (length-take n xs (omega arith))

pub length-drop : (n : ℕ) (xs : List ℕ) → length (drop n xs) + n ≡ length xs + (n - length xs)
length-drop zero xs = omega arith
length-drop (suc n) [] = omega arith
length-drop (suc n) (x ∷ xs) = omega (arith, length-drop n xs)

-- The variables after the second hash: the state of the standard after 61 of its rounds, in the
-- places that the 61st line leaves, plus the initial state.
abbrev pub unfinished : (ℕ → ℕ) → Regs → Regs
unfinished w init =
    let r = rounds w 61 0 init in
    add_regs init
      (record { a = r.f; b = r.g; c = r.h; d = r.a; e = r.b; f = r.c; g = r.d; h = r.e })

module _ (l : Lane) where
  get_or-set1 : (xs : List ℕ) (t : ℕ) → lane l (get_or (map set1_epi32 xs) t zeros) ≡ get_or xs t 0
  get_or-set1 [] t = lane-set1 l 0
  get_or-set1 (x ∷ xs) zero = lane-set1 l x
  get_or-set1 (x ∷ xs) (suc t) = get_or-set1 xs t

  pub set1_vars_lane : (r : Regs) → vars_lane l (set1_vars r) ≡ r
  unfolding set1_vars
  set1_vars_lane r = simp lane-set1 refl

  pub add_vars_lane :
      (r : Regs) (v : Vars) → vars_lane l (add_vars r v) ≡ add_regs r (vars_lane l v)
  unfolding add_vars add_regs
  add_vars_lane r v = simp (lane-add, lane-set1) refl

  pub first_words-block :
      (input : List ℕ) (nonce : M128i) (t : ℕ)
      → 16 ≤ length input
      → t < 16
      → lane l (get_or (first_words input nonce) t zeros) ≡ get_or (set input 3 (lane l nonce)) t 0
  unfolding first_words
  first_words-block input nonce t long lt = elim (ℕ_discrete t 3) [
    | yes e ↦
        rw
          (
            e,
            get_or-set_self (map set1_epi32 (take 16 input)) 3 nonce zeros
                (omega (arith, length-map set1_epi32 (take 16 input), length-take 16 input long)),
            get_or-set_self input 3 (lane l nonce) 0 (omega arith),
          )
          refl
    | no ne ↦
        rw
          (
            get_or-set_ne (map set1_epi32 (take 16 input)) 3 t nonce zeros (omega arith),
            get_or-set_ne input 3 t (lane l nonce) 0 (omega arith),
          )
          (get_or-set1 (take 16 input) t ∙ get_or-take 16 input t lt)
  ]

  pub length-first_words :
      (input : List ℕ) (nonce : M128i) → 16 ≤ length input → length (first_words input nonce) ≡ 16
  unfolding first_words
  length-first_words input nonce long =
      length-set (map set1_epi32 (take 16 input)) 3 nonce
      ∙ length-map set1_epi32 (take 16 input)
      ∙ length-take 16 input long

  -- The first hash of each nonce is the compression of the block with that nonce.
  pub first_hash-compress :
      (input : List ℕ) (pre : Regs) (nonce : M128i) (w : ℕ → ℕ)
      → AreWords pre
      → 16 ≤ length input
      → WordsIn (set input 3 (lane l nonce))
      → IsSchedule (set input 3 (lane l nonce)) w
      → vars_lane l (first_hash input pre nonce) ≡ compress w pre
  unfolding first_hash compress
  first_hash-compress input pre nonce w ok long ws s =
      add_vars_lane pre _
      ∙ ap (add_regs pre) (
          lines-rounds l w s ws 48 (first_words input nonce) (set1_vars pre) (omega arith)
            (length-first_words input nonce long) (λ t lt. first_words-block input nonce t long lt)
            (rw (set1_vars_lane pre) ok)
          ∙ ap (rounds w 64 0) (set1_vars_lane pre))

  pub second_words-block :
      (pad : List ℕ) (first : Vars) (t : ℕ)
      → t < 16
      → lane l (get_or (vars_list first ++ map set1_epi32 (take 8 (drop 8 pad))) t zeros)
        ≡ get_or (words (vars_lane l first) ++ drop 8 pad) t 0
  second_words-block pad first zero lt = refl
  second_words-block pad first (suc zero) lt = refl
  second_words-block pad first (suc (suc zero)) lt = refl
  second_words-block pad first (suc (suc (suc zero))) lt = refl
  second_words-block pad first (suc (suc (suc (suc zero)))) lt = refl
  second_words-block pad first (suc (suc (suc (suc (suc zero))))) lt = refl
  second_words-block pad first (suc (suc (suc (suc (suc (suc zero)))))) lt = refl
  second_words-block pad first (suc (suc (suc (suc (suc (suc (suc zero))))))) lt = refl
  second_words-block pad first (suc (suc (suc (suc (suc (suc (suc (suc t)))))))) lt =
      get_or-set1 (take 8 (drop 8 pad)) t ∙ get_or-take 8 (drop 8 pad) t (omega arith)

  pub second_hash-unfinished :
      (pad : List ℕ) (init : Regs) (first : Vars) (w : ℕ → ℕ)
      → AreWords init
      → 16 ≤ length pad
      → WordsIn (words (vars_lane l first) ++ drop 8 pad)
      → IsSchedule (words (vars_lane l first) ++ drop 8 pad) w
      → vars_lane l (second_hash pad init first) ≡ unfinished w init
  unfolding second_hash
  second_hash-unfinished pad init first w ok long ws s =
      add_vars_lane init _
      ∙ ap (λ r. add_regs init (back r))
          (lines-rounds l w s ws 45 (vars_list first ++ map set1_epi32 (take 8 (drop 8 pad)))
              (set1_vars init) (omega arith)
              (omega (
                arith,
                length-map set1_epi32 (take 8 (drop 8 pad)),
                length-take 8 (drop 8 pad) (omega (arith, length-drop 8 pad)),
              ))
              (λ t lt. second_words-block pad first t lt) (rw (set1_vars_lane init) ok)
            ∙ ap (rounds w 61 0) (set1_vars_lane init))
    where
      back : Regs → Regs
      back r = record { a = r.f; b = r.g; c = r.h; d = r.a; e = r.b; f = r.c; g = r.d; h = r.e }
