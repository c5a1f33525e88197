-- ===== src/Sha/Generic/Schedule.antt =====
-- The array `W` of `sha256_transform` after its two loops: a message schedule of the input block.
use cpuminer.Base.{
  ℕ, zero, suc, ◌+◌, ◌-◌, ◌≤◌, ◌<◌, ◌≡◌, ◌≢◌, refl, List, none, some, ◌⊞◌, IsWord, length,
  length-set, get_elem?-eq-get_or, get_elem?-out, get_or, get_or-set_self, get_or-set_ne, set,
  replicate, arith,
}
use native.Mathlib.Decide.{ℕ_discrete}
use cpuminer.Sha.Spec.{IsSchedule, sigma0, sigma1}
use cpuminer.Sha.Generic.{load_op, load_loop, blend_op, blend_loop}
use cpuminer.Sha.Generic.Functions.{s0-sigma0, s1-sigma1}

-- Every word of the block fits 32 bits, as the elements of a `u32` array do.
abbrev pub WordsIn : List ℕ → Type 0
WordsIn m = (t : ℕ) → IsWord (get_or m t 0)

module _ (input : List ℕ) where
  -- The first `i` words are loaded.
  pub record IsLoaded (i : ℕ) (w : List ℕ) : Type 0 where
    pub size : length w ≡ 64
    pub same : (t : ℕ) → t < i → get_or w t 0 ≡ get_or input t 0

  load_op-IsLoaded :
      (i : ℕ) (w : List ℕ)
      → i < 16
      → i < length input
      → IsLoaded i w
      → (load_op i w input ≡ some (set w i (get_or input i 0)))
        × IsLoaded (suc i) (set w i (get_or input i 0))
  unfolding load_op
  load_op-IsLoaded i w small fits v = (
    rw (get_elem?-eq-get_or input i 0 fits) refl,
    record {
      size = rw length-set v.size;
      same = λ t lt. elim (ℕ_discrete i t) [
        | yes e ↦ ground (arith, get_or-set_self w i (get_or input i 0) 0, v.size)
        | no ne ↦ ground (arith, get_or-set_ne w i t (get_or input i 0) 0 ne, v.same t)
      ];
    },
  )

  pub load_loop-IsLoaded :
      (left i : ℕ) (w : List ℕ)
      → i + left ≡ 16
      → 16 ≤ length input
      → IsLoaded i w
      → (w' : List ℕ) × (load_loop left i w input ≡ some w') × IsLoaded 16 w'
  unfolding load_loop
  load_loop-IsLoaded zero i w e fits v = (w, refl, let e' : i ≡ 16 = omega arith in rw e' at v)
  load_loop-IsLoaded (suc left) i w e fits v =
      let (runs, v') = load_op-IsLoaded i w (omega arith) (omega arith) v in
      let (w', run, done) =
        load_loop-IsLoaded left (suc i) (set w i (get_or input i 0)) (omega arith) fits v' in
      (w', rw runs run, done)

  -- A block of fewer than 16 words is read past its end.
  pub load_loop-short :
      (left i : ℕ) (w : List ℕ)
      → i ≤ length input
      → length input < i + left
      → load_loop left i w input ≡ none
  unfolding load_loop load_op
  load_loop-short zero i w at small = absurd (omega arith)
  load_loop-short (suc left) i w at small = elim (ℕ_discrete i (length input)) [
    | yes e ↦ rw (get_elem?-out input i (omega arith)) refl
    | no ne ↦
        rw (get_elem?-eq-get_or input i 0 (omega arith))
          (load_loop-short left (suc i) (set w i (get_or input i 0)) (omega arith) (omega arith))
  ]

  pub start-IsLoaded : IsLoaded 0 (replicate 64 0)
  start-IsLoaded = record { size = refl; same = λ t lt. absurd (omega arith) }

  -- The entries below `i` follow the standard's recurrence.
  pub record IsBlended (i : ℕ) (w : List ℕ) : Type 0 where
    pub size : length w ≡ 64
    pub fits : (t : ℕ) → t < i → IsWord (get_or w t 0)
    pub block : (t : ℕ) → t < 16 → get_or w t 0 ≡ get_or input t 0
    pub expand :
        (t : ℕ)
        → t + 16 < i
        → get_or w (t + 16) 0
          ≡ sigma1 (get_or w (t + 14) 0)
            ⊞ get_or w (t + 9) 0
            ⊞ sigma0 (get_or w (t + 1) 0)
            ⊞ get_or w t 0

  pub IsBlended-of_IsLoaded : WordsIn input → (w : List ℕ) → IsLoaded 16 w → IsBlended 16 w
  IsBlended-of_IsLoaded ok w v = record {
    size = v.size;
    fits = λ t lt. rw (v.same t lt) (ok t);
    block = v.same;
    expand = λ t lt. absurd (omega arith);
  }

  -- What `blend_op` stores at `t + 16`.
  abbrev blended : ℕ → List ℕ → ℕ
  blended t w =
      sigma1 (get_or w (t + 14) 0) ⊞ get_or w (t + 9) 0 ⊞ sigma0 (get_or w (t + 1) 0) ⊞ get_or w t 0

  blend_op-set :
      (t : ℕ) (w : List ℕ)
      → IsBlended (t + 16) w
      → blend_op (t + 16) w ≡ set w (t + 16) (blended t w)
  unfolding blend_op
  blend_op-set t w v =
      let e14 : t + 16 - 2 ≡ t + 14 = omega arith in
      let e9 : t + 16 - 7 ≡ t + 9 = omega arith in
      let e1 : t + 16 - 15 ≡ t + 1 = omega arith in
      let e0 : t + 16 - 16 ≡ t = omega arith in
      rw
        (
          e14,
          e9,
          e1,
          e0,
          s1-sigma1 (v.fits (t + 14) (omega arith)),
          s0-sigma0 (v.fits (t + 1) (omega arith)),
        )
        refl

  set-IsBlended :
      (t : ℕ) (w : List ℕ)
      → t + 16 < 64
      → IsBlended (t + 16) w
      → IsBlended (suc t + 16) (set w (t + 16) (blended t w))
  set-IsBlended t w small v = record {
    size = rw length-set v.size;
    fits = λ s lt. elim (ℕ_discrete (t + 16) s) [
      | yes e ↦
          rw (← e, get_or-set_self w (t + 16) (blended t w) 0 (omega (arith, v.size))) (omega arith)
      | no ne ↦ rw (keep s ne) (v.fits s (omega arith))
    ];
    block = λ s lt. rw (keep s (omega arith)) (v.block s lt);
    expand = λ s lt. elim (ℕ_discrete t s) [
      | yes e ↦
          rw
            (
              ← e,
              get_or-set_self w (t + 16) (blended t w) 0 (omega (arith, v.size)),
              keep (t + 14) (omega arith),
              keep (t + 9) (omega arith),
              keep (t + 1) (omega arith),
              keep t (omega arith),
            )
            refl
      | no ne ↦
          rw
            (
              keep (s + 16) (omega arith),
              keep (s + 14) (omega arith),
              keep (s + 9) (omega arith),
              keep (s + 1) (omega arith),
              keep s (omega arith),
            )
            (v.expand s (omega arith))
    ];
  }
    where
      keep : (s : ℕ) → t + 16 ≢ s → get_or (set w (t + 16) (blended t w)) s 0 ≡ get_or w s 0
      keep s ne = get_or-set_ne w (t + 16) s (blended t w) 0 ne

  pub blend_loop-IsBlended :
      (left t : ℕ) (w : List ℕ)
      → t + left ≡ 48
      → IsBlended (t + 16) w
      → IsBlended 64 (blend_loop left (t + 16) w)
  unfolding blend_loop
  blend_loop-IsBlended zero t w e v = let e' : t + 16 ≡ 64 = omega arith in rw e' at v
  blend_loop-IsBlended (suc left) t w e v =
      let e' : suc (t + 16) ≡ suc t + 16 = omega arith in
      rw (blend_op-set t w v, e')
        (blend_loop-IsBlended left (suc t) (set w (t + 16) (blended t w)) (omega arith)
          (set-IsBlended t w (omega arith) v))

  pub IsBlended-IsSchedule : (w : List ℕ) → IsBlended 64 w → IsSchedule input (λ t. get_or w t 0)
  IsBlended-IsSchedule w v = record { block = v.block; expand = λ t lt. v.expand t (omega arith) }
