-- ===== src/Asm32/Search.antt =====
-- The assembly scan of sha256_cryptopp.c returns what the C scans return.
use cpuminer.Base.{
  ℕ, zero, suc, ◌+◌, ◌^◌, ◌≤◌, ◌<◌, ◌≡◌, refl, sym, Bool, none, some, List, length, length-set,
  get_or, get_elem?-eq-get_or, get_elem?-out, get_or-set_self, get_or-set_ne, set, replicate, arith,
}
use native.Mathlib.Decide.{ℕ_discrete, dec_lt}
use cpuminer.Sha.{Regs, AreWords}
use cpuminer.Sha.Spec.{IsSchedule, compress}
use cpuminer.Sha.Generic
use cpuminer.Sha.Generic.Schedule.{WordsIn}
use cpuminer.Sha.Generic.Correct.{schedule_and_transform, sha256_transform-short}
use cpuminer.Target.{swab32}
use cpuminer.Scan.{scanhash_c}
use cpuminer.Scan.Digest.{AreBuffers, scan-eq-scanhash_c}
use cpuminer.Asm32.{swap_loop, sha256_transform32, scanhash_asm32}

-- What `X86_SHA256_HashBlocks` does with one block: the compression function on the block whose words
-- have their bytes swapped, since it takes the words of a text.
pub record IsHashBlocks (hash_blocks : Regs → List ℕ → Regs) : Type 0 where
  pub block :
      (state : Regs) (w m : List ℕ) (schedule : ℕ → ℕ)
      → AreWords state
      → WordsIn m
      → IsSchedule m schedule
      → length w ≡ 16
      → ((t : ℕ) → t < 16 → get_or w t 0 ≡ swab32 (get_or m t 0))
      → hash_blocks state w ≡ compress schedule state

record IsSwapped (input : List ℕ) (i : ℕ) (w : List ℕ) : Type 0 where
  size : length w ≡ 16
  same : (t : ℕ) → t < i → get_or w t 0 ≡ swab32 (get_or input t 0)

swap_loop-IsSwapped :
    (input : List ℕ) (left i : ℕ) (w : List ℕ)
    → i + left ≡ 16
    → 16 ≤ length input
    → IsSwapped input i w
    → (w' : List ℕ) × (swap_loop left i input w ≡ some w') × IsSwapped input 16 w'
unfolding swap_loop
swap_loop-IsSwapped input zero i w e long v = (w, refl, let e' : i ≡ 16 = omega arith in rw e' at v)
swap_loop-IsSwapped input (suc left) i w e long v =
    let x = swab32 (get_or input i 0) in
    let (w', run, done) =
      swap_loop-IsSwapped input left (suc i) (set w i x) (omega arith) long (record {
        size = rw length-set v.size;
        same = λ t lt. elim (ℕ_discrete i t) [
          | yes here ↦ ground (arith, get_or-set_self w i x 0, v.size)
          | no other ↦ ground (arith, get_or-set_ne w i t x 0 other, v.same t)
        ];
      }) in
    (w', rw (get_elem?-eq-get_or input i 0 (omega arith)) run, done)

swap_loop-short :
    (input : List ℕ) (left i : ℕ) (w : List ℕ)
    → i ≤ length input
    → length input < i + left
    → swap_loop left i input w ≡ none
unfolding swap_loop
swap_loop-short input zero i w at small = absurd (omega arith)
swap_loop-short input (suc left) i w at small = elim (ℕ_discrete i (length input)) [
  | yes e ↦ rw (get_elem?-out input i (omega arith)) refl
  | no ne ↦
      rw (get_elem?-eq-get_or input i 0 (omega arith))
        (swap_loop-short input left (suc i) _ (omega arith) (omega arith))
]

module _ (hash_blocks : Regs → List ℕ → Regs) (ok : IsHashBlocks hash_blocks) where
  -- `SHA256_Transform32` returns what `sha256_transform` of sha256_generic.c returns.
  sha256_transform32-eq-generic :
      (state : Regs) (input : List ℕ)
      → AreWords state
      → WordsIn input
      → sha256_transform32 hash_blocks state input ≡ Generic.sha256_transform state input
  unfolding sha256_transform32
  sha256_transform32-eq-generic state input v ws = elim (dec_lt (length input) 16) [
    | yes small ↦
        rw (swap_loop-short input 16 0 (replicate 16 0) (omega arith) (omega arith))
          (sym (sha256_transform-short state input small))
    | no long ↦
        let (schedule, s, runs) = schedule_and_transform state input v ws (omega arith) in
        let (w, run, swapped) =
          swap_loop-IsSwapped input 16 0 (replicate 16 0) refl (omega arith)
            (record { size = refl; same = λ t lt. absurd (omega arith) }) in
        rw (run, ok.block state w input schedule v ws s swapped.size swapped.same) (sym runs)
  ]

  -- On the same buffers `scanhash_asm32` returns what `scanhash_c` returns: the result, the count, the
  -- block with its nonce and the hash. The assembly routine is the compression function on words
  -- with swapped bytes; the buffers hold words of 32 bits, and enough of them.
  pub scanhash_asm32-eq-scanhash_c :
      (midstate target : Regs) (max_nonce : ℕ) (beyond : ℕ → List ℕ) (restart : ℕ → Bool)
      (block : List ℕ)
      → AreBuffers midstate block beyond
      → max_nonce < 2 ^ 32
      → scanhash_asm32 hash_blocks midstate target max_nonce beyond restart block
        ≡ scanhash_c midstate target max_nonce beyond restart block
  unfolding scanhash_asm32
  scanhash_asm32-eq-scanhash_c midstate target max_nonce beyond restart block buffers fits =
      scan-eq-scanhash_c midstate target max_nonce beyond restart block buffers fits
        (sha256_transform32 hash_blocks) sha256_transform32-eq-generic
