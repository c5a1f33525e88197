-- ===== src/FourWay/Rounds.antt =====
-- The lines of sha256_4way.c on one word of the vectors are rounds of the standard.
use cpuminer.Base.{
  ℕ, zero, suc, ◌+◌, ◌-◌, ◌%◌, ◌≤◌, ◌<◌, ◌≡◌, refl, ◌∙◌, List, length, length-set, get_or,
  get_or-set_self, get_or-set_ne, set, IsWord, arith,
}
use native.Mathlib.Decide.{ℕ_discrete}
use cpuminer.Sha.{Regs, AreWords}
use cpuminer.Sha.Spec.{k_at, round, rounds, round-AreWords, IsSchedule, schedule-IsWord}
use cpuminer.Sha.Generic.Rounds.{rounds-AreWords}
use cpuminer.Simd.{M128i, Lane, lane}
use cpuminer.FourWay.{Vars, line, expanded, plain_lines, expanding_lines, lines, vars_lane, zeros}
use cpuminer.FourWay.Words.{lane-expanded}
use cpuminer.FourWay.Lines.{role, line-round}

-- The list of the variables before line `n`: at the index modulo 16 of each of the last sixteen words.
pub record IsLane (l : Lane) (w : ℕ → ℕ) (n : ℕ) (vs : List M128i) : Type 0 where
  pub size : length vs ≡ 16
  pub last : (t : ℕ) → t < n → n ≤ t + 16 → lane l (get_or vs (t % 16) zeros) ≡ w t

next_index : (t : ℕ) → suc t % 8 ≡ suc (t % 8) % 8
next_index t = omega arith

module _ (l : Lane) (w : ℕ → ℕ) where
  line_at-round :
      (t : ℕ) (x : M128i) (v : Vars)
      → lane l x ≡ w t
      → AreWords (role (t % 8) (vars_lane l v))
      → role (suc t % 8) (vars_lane l (line (t % 8) t x v))
        ≡ round (k_at t) (w t) (role (t % 8) (vars_lane l v))
  line_at-round t x v e ok = rw (next_index t, ← e) (line-round l (t % 8) t x v (omega arith) ok)

  plain_lines-rounds :
      (left t : ℕ) (vs : List M128i) (v : Vars)
      → t + left ≤ 16
      → ((s : ℕ) → s < 16 → lane l (get_or vs s zeros) ≡ w s)
      → AreWords (role (t % 8) (vars_lane l v))
      → role ((t + left) % 8) (vars_lane l (plain_lines left t vs v))
        ≡ rounds w left t (role (t % 8) (vars_lane l v))
  unfolding plain_lines rounds
  plain_lines-rounds zero t vs v h words ok = let e : t + 0 ≡ t = omega arith in rw e refl
  plain_lines-rounds (suc left) t vs v h words ok =
      let at : t % 16 ≡ t = omega arith in
      let word : lane l (get_or vs (t % 16) zeros) ≡ w t = rw at (words t (omega arith)) in
      let step = line_at-round t (get_or vs (t % 16) zeros) v word ok in
      let e : t + suc left ≡ suc t + left = omega arith in
      rw (e, ← step)
        (plain_lines-rounds left (suc t) vs (line (t % 8) t (get_or vs (t % 16) zeros) v)
          (omega arith) words (rw step (round-AreWords (k_at t) (w t) _ ok)))

  IsLane-set :
      (t : ℕ) (vs : List M128i) (x : M128i)
      → lane l x ≡ w t
      → IsLane l w t vs
      → IsLane l w (suc t) (set vs (t % 16) x)
  IsLane-set t vs x e v = record {
    size = length-set vs (t % 16) x ∙ v.size;
    last = λ s lt le. elim (ℕ_discrete s t) [
      | yes same ↦
          let at : s % 16 ≡ t % 16 = omega arith in
          rw (at, get_or-set_self vs (t % 16) x zeros (omega (arith, v.size)), e, same) refl
      | no ne ↦
          rw (get_or-set_ne vs (t % 16) (s % 16) x zeros (omega arith))
            (v.last s (omega arith) (omega arith))
    ];
  }

  module _ {m : List ℕ} (s : IsSchedule m w) (words : (t : ℕ) → IsWord (get_or m t 0)) where
    expanded-schedule :
        (t : ℕ) (vs : List M128i)
        → 16 ≤ t
        → t < 64
        → IsLane l w t vs
        → lane l (expanded (t % 16) vs) ≡ w t
    expanded-schedule t vs late below v =
        let e : t - 16 + 16 ≡ t = omega arith in
        lane-expanded l (t % 16) vs (w (t - 16 + 14)) (w (t - 16 + 9)) (w (t - 16 + 1)) (w (t - 16))
          (schedule-IsWord s words (t - 16 + 14) (omega arith))
          (schedule-IsWord s words (t - 16 + 1) (omega arith))
          (at (t - 16 + 14) (t % 16 + 14) (omega arith) (omega arith) (omega arith))
          (at (t - 16 + 9) (t % 16 + 9) (omega arith) (omega arith) (omega arith))
          (at (t - 16 + 1) (t % 16 + 1) (omega arith) (omega arith) (omega arith))
          (let same : (t - 16) % 16 ≡ t % 16 = omega arith in
            rw (← same) (v.last (t - 16) (omega arith) (omega arith)))
        ∙ rw (← s.expand (t - 16) (omega arith), e) refl
      where
        at :
            (u i : ℕ)
            → u % 16 ≡ i % 16
            → u < t
            → t ≤ u + 16
            → lane l (get_or vs (i % 16) zeros) ≡ w u
        at u i same lt le = rw (← same) (v.last u lt le)

    expanding_lines-rounds :
        (left t : ℕ) (vs : List M128i) (v : Vars)
        → 16 ≤ t
        → t + left ≤ 64
        → IsLane l w t vs
        → AreWords (role (t % 8) (vars_lane l v))
        → role ((t + left) % 8) (vars_lane l (expanding_lines left t vs v))
          ≡ rounds w left t (role (t % 8) (vars_lane l v))
    unfolding expanding_lines rounds
    expanding_lines-rounds zero t vs v late h at ok = let e : t + 0 ≡ t = omega arith in rw e refl
    expanding_lines-rounds (suc left) t vs v late h at ok =
        let x = expanded (t % 16) vs in
        let word = expanded-schedule t vs late (omega arith) at in
        let step = line_at-round t x v word ok in
        let e : t + suc left ≡ suc t + left = omega arith in
        rw (e, ← step)
          (expanding_lines-rounds left (suc t) (set vs (t % 16) x) (line (t % 8) t x v)
            (omega arith) (omega arith) (IsLane-set t vs x word at)
            (rw step (round-AreWords (k_at t) (w t) _ ok)))

pub rounds-add :
    (w : ℕ → ℕ) (n m t : ℕ) (r : Regs) → rounds w (n + m) t r ≡ rounds w m (t + n) (rounds w n t r)
unfolding rounds
rounds-add w zero m t r =
    let e : t + 0 ≡ t = omega arith in let e' : 0 + m ≡ m = omega arith in rw (e, e') refl
rounds-add w (suc n) m t r =
    let e : suc n + m ≡ suc (n + m) = omega arith in
    let e' : t + suc n ≡ suc t + n = omega arith in
    rw (e, e') (rounds-add w n m (suc t) (round (k_at t) (w t) r))

module _ (l : Lane) (w : ℕ → ℕ) {m : List ℕ} (s : IsSchedule m w)
    (words : (t : ℕ) → IsWord (get_or m t 0)) where
  -- From sixteen vectors that hold the block at that index, the lines are the rounds.
  pub lines-rounds :
      (more : ℕ) (vs : List M128i) (v : Vars)
      → more ≤ 48
      → length vs ≡ 16
      → ((t : ℕ) → t < 16 → lane l (get_or vs t zeros) ≡ get_or m t 0)
      → AreWords (vars_lane l v)
      → role ((16 + more) % 8) (vars_lane l (lines (16 + more) vs v))
        ≡ rounds w (16 + more) 0 (vars_lane l v)
  unfolding lines
  lines-rounds more vs v small size block ok =
      let e : 16 + more - 16 ≡ more = omega arith in
      let plain = plain_lines-rounds l w 16 0 vs v (omega arith) loaded ok in
      rw (rounds-add w 16 more 0 (vars_lane l v), e, ← plain)
        (expanding_lines-rounds l w s words more 16 vs (plain_lines 16 0 vs v) (omega arith)
          (omega arith) start (rw plain (rounds-AreWords w 16 0 (vars_lane l v) ok)))
    where
      loaded : (t : ℕ) → t < 16 → lane l (get_or vs t zeros) ≡ w t
      loaded t lt = block t lt ∙ rw (s.block t lt) refl

      start : IsLane l w 16 vs
      start = record {
        size = size;
        last = λ t lt le. let e : t % 16 ≡ t = omega arith in rw e (loaded t lt);
      }
