-- ===== src/Sha/Generic/Correct.antt =====
-- `sha256_transform` against the standard.
use cpuminer.Base.{ℕ, ◌≤◌, ◌<◌, ◌≡◌, refl, List, none, some, replicate, length, get_or, arith}
use cpuminer.Sha.{Regs, AreWords}
use cpuminer.Sha.Spec.{IsSchedule, compress, compress_unique}
use cpuminer.Sha.Generic.{blend_loop, sha256_transform}
use cpuminer.Sha.Generic.Schedule.{
  WordsIn, load_loop-IsLoaded, start-IsLoaded, load_loop-short, IsBlended-of_IsLoaded,
  blend_loop-IsBlended, IsBlended-IsSchedule,
}
use cpuminer.Sha.Generic.Rounds.{iterate-rounds}

module _ (state : Regs) (input : List ℕ) where
  -- A block of 16 words has a message schedule, and over it the code computes the compression
  -- function of the standard.
  pub schedule_and_transform :
      AreWords state
      → WordsIn input
      → 16 ≤ length input
      → (w : ℕ → ℕ) × IsSchedule input w × (sha256_transform state input ≡ some (compress w state))
  unfolding sha256_transform compress
  schedule_and_transform ok ws long =
      let (w, runs, loaded) =
        load_loop-IsLoaded input 16 0 (replicate 64 0) refl long (start-IsLoaded input) in
      let full = blend_loop-IsBlended input 48 0 w refl (IsBlended-of_IsLoaded input ws w loaded) in
      (
        λ t. get_or (blend_loop 48 16 w) t 0,
        IsBlended-IsSchedule input (blend_loop 48 16 w) full,
        rw (runs, iterate-rounds (blend_loop 48 16 w) state ok) refl,
      )

  -- `sha256_transform` is the SHA-256 compression function of FIPS 180-4: for a state of eight
  -- 32-bit words and a block of at least 16 of them it returns `compress w state`, for whatever
  -- message schedule `w` of the block.
  pub sha256_transform-compress :
      AreWords state
      → WordsIn input
      → 16 ≤ length input
      → (w : ℕ → ℕ) → IsSchedule input w
      → sha256_transform state input ≡ some (compress w state)
  sha256_transform-compress ok ws long w s =
      let (v, p, runs) = schedule_and_transform ok ws long in
      rw (runs, compress_unique p s state) refl

  -- A buffer of fewer than 16 words is read past its end, whatever it holds.
  pub sha256_transform-short : length input < 16 → sha256_transform state input ≡ none
  unfolding sha256_transform
  sha256_transform-short small =
      rw (load_loop-short input 16 0 (replicate 64 0) (omega arith) (omega arith)) refl
