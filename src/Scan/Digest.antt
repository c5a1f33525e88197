-- ===== src/Scan/Digest.antt =====
-- `scanhash_c` and `scanhash_cryptopp` against the double hash of FIPS 180-4.
use cpuminer.Base.{
  ℕ, zero, suc, ◌+◌, ◌%◌, ◌^◌, ◌≤◌, ◌<◌, ◌≡◌, refl, ◌∙◌, Bool, Option, some, none, List, [], ◌∷◌,
  ◌++◌, set, length, length-set, length-append, IsWord, u32, All, arith,
}
use Prim.Native.Nat.{max}
use mathlib.Core.Path.{subst}
use cpuminer.Sha.{Regs, AreWords, words}
use cpuminer.Sha.Spec.{IsSchedule, compress, compress-AreWords}
use cpuminer.Sha.Generic
use cpuminer.Sha.Generic.Schedule.{WordsIn}
use cpuminer.Sha.Generic.Correct.{schedule_and_transform, sha256_transform-short}
use cpuminer.Sha.Cryptopp
use cpuminer.Sha.Cryptopp.Correct.{cryptopp-eq-generic}
use cpuminer.Scan.{Transform, fault, scan, scan_loop, scanhash_c, cryptopp_loop, scanhash_cryptopp}
use cpuminer.Scan.Search.{IsSearch, scan-IsSearch, IsSearch-unique}

-- `digest` is the hash of the block with nonce `n`: the compression of the block from `midstate`,
-- and then of that result, followed by the words `pad`, from the initial state.
pub record IsDigest (midstate : Regs) (block pad : List ℕ) (n : ℕ) (digest : Regs) : Type 0 where
  pub first : ℕ → ℕ
  pub first_schedule : IsSchedule (set block 3 n) first
  pub second : ℕ → ℕ
  pub second_schedule : IsSchedule (words (compress first midstate) ++ pad) second
  pub result : digest ≡ compress second Generic.sha256_init_state

-- What the buffers hold: words of 32 bits, and enough of them.
pub record AreBuffers (midstate : Regs) (block : List ℕ) (beyond : ℕ → List ℕ) : Type 0 where
  pub midstate_words : AreWords midstate
  pub block_words : WordsIn block
  pub block_length : 16 ≤ length block
  pub beyond_words : (n : ℕ) → WordsIn (beyond n)
  pub beyond_length : (n : ℕ) → 8 ≤ length (beyond n)

pub WordsIn-set : (xs : List ℕ) (i v : ℕ) → WordsIn xs → IsWord v → WordsIn (set xs i v)
WordsIn-set [] i v ws h t = ws t
WordsIn-set (x ∷ xs) zero v ws h zero = h
WordsIn-set (x ∷ xs) zero v ws h (suc t) = ws (suc t)
WordsIn-set (x ∷ xs) (suc i) v ws h zero = ws 0
WordsIn-set (x ∷ xs) (suc i) v ws h (suc t) = WordsIn-set xs i v (λ s. ws (suc s)) h t

pub WordsIn-append : (xs ys : List ℕ) → All IsWord xs → WordsIn ys → WordsIn (xs ++ ys)
WordsIn-append [] ys ps ws t = ws t
WordsIn-append (x ∷ xs) ys ps ws zero = ps.0
WordsIn-append (x ∷ xs) ys ps ws (suc t) = WordsIn-append xs ys ps.1 ws t

pub init-AreWords : AreWords Generic.sha256_init_state
init-AreWords = omega arith

pub words-IsWord : (r : Regs) → AreWords r → All IsWord (words r)
words-IsWord r v = omega arith

module _ (midstate : Regs) (block : List ℕ) (beyond : ℕ → List ℕ)
    (ok : AreBuffers midstate block beyond) (n : ℕ) (small : IsWord n) where
  -- The two transforms of round `n` succeed.
  pub record Hashed : Type 0 where
    pub hash1 : Regs
    pub hash : Regs
    pub first_run : Generic.sha256_transform midstate (set block 3 n) ≡ some hash1
    pub second_run :
        Generic.sha256_transform Generic.sha256_init_state (words hash1 ++ beyond n) ≡ some hash
    pub digest : IsDigest midstate block (beyond n) n hash
    pub hash1_words : AreWords hash1

  pub hashed : Hashed
  hashed =
      let (w1, s1, run1) =
        schedule_and_transform midstate (set block 3 n) ok.midstate_words
          (WordsIn-set block 3 n ok.block_words small) (rw length-set ok.block_length) in
      let hash1 = compress w1 midstate in
      let hash1_ok : AreWords hash1 = compress-AreWords w1 midstate in
      let (w2, s2, run2) =
        schedule_and_transform Generic.sha256_init_state (words hash1 ++ beyond n) init-AreWords
          (WordsIn-append (words hash1) (beyond n) (words-IsWord hash1 hash1_ok)
            (ok.beyond_words n))
          (omega (arith, ok.beyond_length n)) in
      record {
        hash1 = hash1;
        hash = compress w2 Generic.sha256_init_state;
        first_run = run1;
        second_run = run2;
        digest = record {
          first = w1;
          first_schedule = s1;
          second = w2;
          second_schedule = s2;
          result = refl;
        };
        hash1_words = hash1_ok;
      }

module _ (midstate target : Regs) (max_nonce : ℕ) (beyond : ℕ → List ℕ) (restart : ℕ → Bool)
    (block : List ℕ) (ok : AreBuffers midstate block beyond) (fits : max_nonce < 2 ^ 32) where
  -- Nonces are taken modulo the word size, so that the hashes of all numbers are defined.
  round_of : (n : ℕ) → Hashed midstate block beyond ok (u32 n) (omega arith)
  round_of n = hashed midstate block beyond ok (u32 n) (omega arith)

  first_of : ℕ → Regs
  first_of n = (round_of n).hash1

  hash_of : ℕ → Regs
  hash_of n = (round_of n).hash

  in_word : (n : ℕ) → n ≤ max 1 max_nonce → u32 n ≡ n
  in_word n h = omega arith

  first_run :
      (n : ℕ)
      → 1 ≤ n
      → n ≤ max 1 max_nonce
      → Generic.sha256_transform midstate (set block 3 n) ≡ some (first_of n)
  unfolding first_of
  first_run n low high =
      subst (λ m. Generic.sha256_transform midstate (set block 3 m) ≡ some (first_of n))
        (in_word n high) (round_of n).first_run

  second_run :
      (n : ℕ)
      → 1 ≤ n
      → n ≤ max 1 max_nonce
      → Generic.sha256_transform Generic.sha256_init_state (words (first_of n) ++ beyond n)
        ≡ some (hash_of n)
  unfolding first_of hash_of
  second_run n low high =
      subst
        (λ m.
          Generic.sha256_transform Generic.sha256_init_state (words (first_of n) ++ beyond m)
          ≡ some (hash_of n))
        (in_word n high) (round_of n).second_run

  hash_of-IsDigest :
      (n : ℕ) → n ≤ max 1 max_nonce → IsDigest midstate block (beyond n) n (hash_of n)
  unfolding hash_of
  hash_of-IsDigest n high =
      subst (λ m. IsDigest midstate block (beyond m) m (hash_of n)) (in_word n high)
        (round_of n).digest

  scanhash_c-IsSearch :
      IsSearch max_nonce restart block hash_of
        (scanhash_c midstate target max_nonce beyond restart block)
  unfolding scanhash_c
  scanhash_c-IsSearch =
      scan-IsSearch Generic.sha256_transform midstate target max_nonce beyond restart block first_of
        hash_of fits first_run second_run

  first_of-AreWords : (n : ℕ) → AreWords (first_of n)
  unfolding first_of
  first_of-AreWords n = (round_of n).hash1_words

  -- A scan with another transform that agrees with the one of sha256_generic.c.
  module _ (transform : Transform)
      (agrees : (state : Regs) (input : List ℕ)
        → AreWords state
        → WordsIn input
        → transform state input ≡ Generic.sha256_transform state input) where
    agreeing-IsSearch :
        IsSearch max_nonce restart block hash_of
          (scan transform midstate target max_nonce beyond restart block)
    agreeing-IsSearch =
        scan-IsSearch transform midstate target max_nonce beyond restart block first_of hash_of fits
          (λ n low high.
            agrees midstate (set block 3 n) ok.midstate_words
              (WordsIn-set block 3 n ok.block_words (omega arith))
            ∙ first_run n low high)
          (λ n low high.
            agrees Generic.sha256_init_state (words (first_of n) ++ beyond n) init-AreWords (
              WordsIn-append (words (first_of n)) (beyond n)
                (words-IsWord (first_of n) (first_of-AreWords n)) (ok.beyond_words n))
            ∙ second_run n low high)

    pub scan-eq-scanhash_c :
        scan transform midstate target max_nonce beyond restart block
        ≡ scanhash_c midstate target max_nonce beyond restart block
    scan-eq-scanhash_c = IsSearch-unique agreeing-IsSearch scanhash_c-IsSearch

  -- `scanhash_c` searches the nonces from 1 to `max_nonce`, at least one, for a double hash whose
  -- last word is 0: it returns after finitely many rounds and reads nothing out of bounds, its
  -- count and the nonce in the block are those of the last round, no earlier round had such a hash
  -- or was asked to restart, and it has found something exactly when the last hash ends in a zero
  -- word. The hash of a nonce is the one of FIPS 180-4, of the block from `midstate` and then of that
  -- result with the words that stand behind `hash1`. The buffers hold at least 16 words and
  -- `hash1` is followed by at least 8.
  pub scanhash_c-first-IsDigest :
      (digest : ℕ → Regs) × ((n : ℕ)
        → n ≤ max 1 max_nonce
        → IsDigest midstate block (beyond n) n (digest n))
      × IsSearch max_nonce restart block digest
          (scanhash_c midstate target max_nonce beyond restart block)
  scanhash_c-first-IsDigest = (hash_of, hash_of-IsDigest, scanhash_c-IsSearch)

  -- The two loops do the same with the transform of sha256_cryptopp.c.
  cryptopp_loop-eq-scan_loop :
      (fuel n stat_ctr : ℕ) (b : List ℕ)
      → cryptopp_loop midstate target max_nonce beyond restart fuel n stat_ctr b
        ≡ scan_loop Cryptopp.sha256_transform midstate target max_nonce beyond restart fuel n
            stat_ctr b
  unfolding cryptopp_loop scan_loop
  cryptopp_loop-eq-scan_loop zero n stat_ctr b = refl
  cryptopp_loop-eq-scan_loop (suc fuel) n stat_ctr b =
      rw
        (cryptopp_loop-eq-scan_loop fuel (u32 (n + 1)) ((stat_ctr + 1) % 2 ^ 64)
          (set b 3 (u32 (n + 1))))
        refl

  -- On the same buffers `scanhash_cryptopp` returns what `scanhash_c` returns: the result, the
  -- count, the block with its nonce and the hash. The state, the block and what stands behind `hash1`
  -- are words of 32 bits, the block has at least 16 of them, in each round at least 8 stand behind
  -- `hash1`, and `max_nonce` fits 32 bits.
  pub scanhash_cryptopp-eq-scanhash_c :
      scanhash_cryptopp midstate target max_nonce beyond restart block
      ≡ scanhash_c midstate target max_nonce beyond restart block
  unfolding scanhash_cryptopp scan
  scanhash_cryptopp-eq-scanhash_c =
      cryptopp_loop-eq-scan_loop (suc max_nonce) 0 0 block
      ∙ scan-eq-scanhash_c Cryptopp.sha256_transform cryptopp-eq-generic

-- With fewer than eight words behind the 32 bytes of `hash1` the first round reads out of bounds,
-- whatever the block, the target and the limits are.
pub scanhash_c_overread :
    (midstate target : Regs) (max_nonce : ℕ) (beyond : ℕ → List ℕ) (restart : ℕ → Bool)
    (block : List ℕ)
    → length (beyond 1) < 8
    → scanhash_c midstate target max_nonce beyond restart block ≡ fault
unfolding scanhash_c scan scan_loop
scanhash_c_overread midstate target max_nonce beyond restart block short =
    elim_first (Generic.sha256_transform midstate (set block 3 1)) refl
  where
    elim_first :
        (first : Option Regs)
        → Generic.sha256_transform midstate (set block 3 1) ≡ first
        → scan Generic.sha256_transform midstate target max_nonce beyond restart block ≡ fault
    elim_first none e = rw e refl
    elim_first (some hash1) e =
        rw
          (
            e,
            sha256_transform-short Generic.sha256_init_state (words hash1 ++ beyond 1)
                (omega (arith, length-append (words hash1) (beyond 1))),
          )
          refl
