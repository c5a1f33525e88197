-- ===== src/Sha/Cryptopp/Correct.antt =====
-- The rounds of `SHA256_Transform`, and the result against the standard and against sha256_generic.c.
use cpuminer.Base.{
  ℕ, zero, suc, ◌+◌, ◌%◌, ◌≤◌, ◌<◌, ◌≡◌, refl, ◌∙◌, sym, List, none, some, length, replicate,
  get_elem?-out, get_elem?-eq-get_or, set, arith,
}
use native.Mathlib.Decide.{ℕ_discrete, dec_lt}
use cpuminer.Sha.{Regs, AreWords, words}
use cpuminer.Sha.Spec.{IsSchedule, k_at, round, round-AreWords, rounds, compress}
use cpuminer.Sha.Generic
use cpuminer.Sha.Generic.Correct.{schedule_and_transform, sha256_transform-short}
use cpuminer.Sha.Generic.Schedule.{WordsIn}
use cpuminer.Sha.Cryptopp.{Work, schedule_word, r, r_loop, j_loop, registers, sha256_transform}
use cpuminer.Sha.Cryptopp.Registers.{stored, update-round}
use cpuminer.Sha.Cryptopp.Ring.{IsRing, schedule_word-IsRing}

-- The work area before round `i + j`, where the standard's registers are `v`.
pub record IsAt (w : ℕ → ℕ) (i j : ℕ) (v : Regs) (s : Work) : Type 0 where
  pub ring : IsRing w (i + j) s.w
  pub array : s.t ≡ stored i v
  pub fits : AreWords v

module _ {input : List ℕ} {w : ℕ → ℕ} (s : IsSchedule input w) (ok : WordsIn input)
    (long : 16 ≤ length input) where
  r-IsAt :
      (i j : ℕ) (v : Regs) (z : Work)
      → i < 16
      → j % 16 ≡ 0
      → i + j < 64
      → IsAt w i j v z
      → (z' : Work) × (r i j input z ≡ some z')
        × IsAt w (suc i) j (round (k_at (i + j)) (w (i + j)) v) z'
  unfolding r
  r-IsAt i j v z small block below at =
      let (word, ring) = schedule_word-IsRing s ok i j z.w small block below long at.ring in
      (
        record {
          w = set z.w (i % 16) (w (i + j));
          t = stored (suc i) (round (k_at (i + j)) (w (i + j)) v);
        },
        rw (word, at.array, update-round i (k_at (i + j)) (w (i + j)) v small at.fits) refl,
        record {
          ring = ring;
          array = refl;
          fits = round-AreWords (k_at (i + j)) (w (i + j)) v at.fits;
        },
      )

  r_loop-IsAt :
      (left i j : ℕ) (v : Regs) (z : Work)
      → i + left ≡ 16
      → j % 16 ≡ 0
      → j < 64
      → IsAt w i j v z
      → (z' : Work) × (r_loop left i j input z ≡ some z') × IsAt w 16 j (rounds w left (i + j) v) z'
  unfolding r_loop rounds
  r_loop-IsAt zero i j v z e block below at =
      (z, refl, let e' : i ≡ 16 = omega arith in rw e' at at)
  r_loop-IsAt (suc left) i j v z e block below at =
      let (z1, run, at1) = r-IsAt i j v z (omega arith) block (omega arith) at in
      let (z2, runs, at2) =
        r_loop-IsAt left (suc i) j (round (k_at (i + j)) (w (i + j)) v) z1 (omega arith) block below
          at1 in
      let e' : suc (i + j) ≡ suc i + j = omega arith in (z2, rw run runs, rw e' at2)

  -- One pass of the outer loop, which ends where the next one starts.
  block-IsAt :
      (j : ℕ) (v : Regs) (z : Work)
      → j % 16 ≡ 0
      → j < 64
      → IsAt w 0 j v z
      → (z' : Work) × (r_loop 16 0 j input z ≡ some z') × IsAt w 0 (j + 16) (rounds w 16 j v) z'
  block-IsAt j v z block below at =
      let (z', run, at') = r_loop-IsAt 16 0 j v z refl block below at in
      let e : 0 + j ≡ j = omega arith in
      let e' : 16 + j ≡ 0 + (j + 16) = omega arith in
      (
        z',
        run,
        record { ring = rw e' at at'.ring; array = rw e at at'.array; fits = rw e at at'.fits },
      )

  j_loop-IsAt :
      (v : Regs) (z : Work)
      → IsAt w 0 0 v z
      → (z' : Work) × (j_loop 4 0 input z ≡ some z') × IsAt w 0 64 (rounds w 64 0 v) z'
  unfolding j_loop rounds
  j_loop-IsAt v z at =
      let (z1, run1, at1) = block-IsAt 0 v z refl (omega arith) at in
      let (z2, run2, at2) = block-IsAt 16 (rounds w 16 0 v) z1 refl (omega arith) at1 in
      let (z3, run3, at3) = block-IsAt 32 (rounds w 32 0 v) z2 refl (omega arith) at2 in
      let (z4, run4, at4) = block-IsAt 48 (rounds w 48 0 v) z3 refl (omega arith) at3 in
      (z4, rw (run1, run2, run3, run4) refl, at4)

start-IsAt :
    (w : ℕ → ℕ) (v : Regs) → AreWords v → IsAt w 0 0 v (record { w = replicate 16 0; t = words v })
start-IsAt w v ok = record {
  ring = record { size = refl; last = λ t lt le. absurd (omega arith) };
  array = refl;
  fits = ok;
}

module _ (state : Regs) (input : List ℕ) where
  -- `SHA256_Transform` of sha256_cryptopp.c is the SHA-256 compression function of FIPS 180-4, for
  -- a state of eight 32-bit words and a block of at least 16 of them.
  pub sha256_transform_cryptopp-compress :
      AreWords state
      → WordsIn input
      → 16 ≤ length input
      → (w : ℕ → ℕ) → IsSchedule input w
      → sha256_transform state input ≡ some (compress w state)
  unfolding sha256_transform compress registers
  sha256_transform_cryptopp-compress ok ws long w s =
      let (z, run, at) = j_loop-IsAt s ws long state _ (start-IsAt w state ok) in
      rw (run, at.array) refl

-- With a block of fewer than 16 words the first pass reads past its end.
r_loop-short :
    (input : List ℕ) (left i : ℕ) (z : Work)
    → i ≤ length input
    → length input < i + left
    → r_loop left i 0 input z ≡ none
unfolding r_loop r schedule_word
r_loop-short input zero i z at small = absurd (omega arith)
r_loop-short input (suc left) i z at small = elim (ℕ_discrete i (length input)) [
  | yes e ↦ rw (get_elem?-out input i (omega arith)) refl
  | no ne ↦
      rw (get_elem?-eq-get_or input i 0 (omega arith))
        (r_loop-short input left (suc i) _ (omega arith) (omega arith))
]

sha256_transform_cryptopp-short :
    (state : Regs) (input : List ℕ) → length input < 16 → sha256_transform state input ≡ none
unfolding sha256_transform j_loop
sha256_transform_cryptopp-short state input small =
    rw (r_loop-short input 16 0 _ (omega arith) (omega arith)) refl

-- The two C implementations agree on every state and block of 32-bit words, and read past the end
-- of the same buffers.
pub cryptopp-eq-generic :
    (state : Regs) (input : List ℕ)
    → AreWords state
    → WordsIn input
    → sha256_transform state input ≡ Generic.sha256_transform state input
cryptopp-eq-generic state input ok ws = elim (dec_lt (length input) 16) [
  | yes small ↦
      sha256_transform_cryptopp-short state input small
      ∙ sym (sha256_transform-short state input small)
  | no long ↦
      let (w, s, runs) = schedule_and_transform state input ok ws (omega arith) in
      sha256_transform_cryptopp-compress state input ok ws (omega arith) w s ∙ sym runs
]
