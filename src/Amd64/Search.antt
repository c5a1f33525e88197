-- ===== src/Amd64/Search.antt =====
-- The search of `scanhash_sse2_64` over the double hash of the standard.
use cpuminer.Base.{
  ℕ, zero, suc, ◌+◌, ◌-◌, ◌*◌, ◌/◌, ◌^◌, ◌≤◌, ◌<◌, ◌≡◌, ◌≢◌, refl, ◌∙◌, ◌⊎◌, inl, inr, leb, Bool,
  true, false, ◌||◌, List, length, set, drop, IsWord, arith, Bool-cases,
}
use Prim.Native.Nat.{max}
use native.Mathlib.Decide.{dec_lt}
use cpuminer.Sha.{Regs}
use cpuminer.Simd.{M128i}
use cpuminer.Scan.Search.{set-set}
use cpuminer.Scan.Digest.{IsDigest}
use cpuminer.FourWay.Batch.{AreInputs, digest_of, digest_of-IsDigest, first_zero}
use cpuminer.FourWay.Scan.{Run, done}
use cpuminer.Amd64.{Calc, round_loop, scanhash_sse2_64}
use cpuminer.Amd64.Rounds.{IsCompress, start, upper, nonces, round-hit, round-missed}

-- The outcome of a search over the hashes `digest`, of the rounds from 0 on; round `m` has the nonces
-- from `4 * m` to `4 * m + 3`.
module _ (max_nonce : ℕ) (restart : ℕ → Bool) (block : List ℕ) (digest : ℕ → Regs)
    (phash : Regs) where
  -- The search ended in round `m` with its first nonce that counts, and its hash.
  pub record IsFound (m : ℕ) (run : Run) : Type 0 where
    pub index : ℕ
    pub in_round : index < 4
    pub counts : (digest (4 * m + index)).h ≡ 0
    pub before : (k : ℕ) → k < index → (digest (4 * m + k)).h ≢ 0
    pub returns :
        run
        ≡ done (record {
          returned = 4 * m + index;
          hashes_done = 4 * m;
          block = set block 3 (4 * m + index);
          hash = digest (4 * m + index);
        })

  -- The search ended after round `m` with -1, and left the buffers alone.
  pub record IsStopped (m : ℕ) (run : Run) : Type 0 where
    pub quiet : (k : ℕ) → k < 4 → (digest (4 * m + k)).h ≢ 0
    pub stops : (max_nonce ≤ 4 * m + 4) ⊎ (restart m ≡ true)
    pub returns :
        run
        ≡ done
            (record { returned = 2 ^ 32 - 1; hashes_done = 4 * m + 4; block = block; hash = phash })

  pub record IsRoundSearch (run : Run) : Type 0 where
    pub last : ℕ
    pub bounded : 4 * last < max 1 max_nonce
    pub earlier :
        (m : ℕ) → m < last → ((k : ℕ) → k < 4 → (digest (4 * m + k)).h ≢ 0) × (restart m ≡ false)
    pub ends : IsFound last run ⊎ IsStopped last run

module _ (calc : Calc) (calc_ok : IsCompress calc) (midstate : Regs) (hash1 : List ℕ)
    (target : Regs) (max_nonce : ℕ) (restart : ℕ → Bool) (block : List ℕ)
    (ok : AreInputs midstate block hash1) (phash : Regs) (fits : max_nonce ≤ 2 ^ 32 - 4) where
  abbrev digest : ℕ → Regs
  digest = digest_of midstate block hash1 ok

  abbrev digests : (n : ℕ) → IsWord n → IsDigest midstate block (drop 8 hash1) n (digest n)
  digests = digest_of-IsDigest midstate block hash1 ok

  abbrev run_from : ℕ → ℕ → List M128i → Run
  run_from fuel m w =
      round_loop target max_nonce restart calc midstate fuel m (4 * m) w (upper hash1) block phash

  loop-IsRoundSearch :
      (fuel m : ℕ) (w : List M128i)
      → 4 * m < max 1 max_nonce
      → max_nonce < 4 * (m + fuel)
      → ((x : M128i) → set w 3 x ≡ set (start block) 3 x)
      → ((n : ℕ) → n < m → ((k : ℕ) → k < 4 → (digest (4 * n + k)).h ≢ 0) × (restart n ≡ false))
      → IsRoundSearch max_nonce restart block digest phash (run_from fuel m w)
  loop-IsRoundSearch zero m w below enough same quiet = absurd (omega arith)
  loop-IsRoundSearch (suc fuel) m w below enough same quiet =
      elim (first_zero (λ k. (digest (4 * m + k)).h) 4) [
        | inr (j, lt, z, before) ↦ record {
          last = m;
          bounded = below;
          earlier = quiet;
          ends = inl (record {
            index = j;
            in_round = lt;
            counts = z;
            before = before;
            returns =
                round-hit calc calc_ok midstate hash1 target max_nonce restart block ok digest
                  digests fuel m (4 * m) w phash small same j lt before z;
          });
        }
        | inl none ↦
            let step =
              round-missed calc calc_ok midstate hash1 target max_nonce restart block ok digest
                digests fuel m (4 * m) w phash small same none in
            elim (Bool-cases (leb max_nonce (4 * m + 4) || restart m)) [
              | inl stop ↦ record {
                last = m;
                bounded = below;
                earlier = quiet;
                ends =
                    inr
                      (record { quiet = none; stops = reason stop; returns = step ∙ rw stop refl });
              }
              | inr go ↦
                  let next : 4 * m + 4 ≡ 4 * suc m = omega arith in
                  let rest =
                    loop-IsRoundSearch fuel (suc m) (set (start block) 3 (nonces (4 * m)))
                      (going go).0 (omega arith) (λ x. set-set (start block) 3 (nonces (4 * m)) x)
                      (λ n lt. elim (dec_lt n m) [
                        | yes lt' ↦ quiet n lt'
                        | no ge ↦ let e : m ≡ n = omega arith in rw (← e) ((none, (going go).1))
                      ]) in
                  rw (step, go, next) rest
            ]
      ]
    where
      small : 4 * m + 4 < 2 ^ 32
      small = omega arith

      reason :
          (leb max_nonce (4 * m + 4) || restart m) ≡ true
          → (max_nonce ≤ 4 * m + 4) ⊎ (restart m ≡ true)
      reason h = ground arith

      going :
          (leb max_nonce (4 * m + 4) || restart m) ≡ false
          → (4 * suc m < max 1 max_nonce) × (restart m ≡ false)
      going h = (ground arith, ground arith)

  -- `scanhash_sse2_64` searches the nonces from 0 on, four in a round, for a double hash whose last word
  -- is 0. It returns after at most `max_nonce / 4 + 1` rounds: with the first nonce that counts, also
  -- in word 3 of the block, and with its whole hash; or with -1 and the buffers as they were, after
  -- the first round from which the next nonce reaches `max_nonce` or which is asked to restart. Earlier
  -- rounds had no such hash and no restart. The hash of a nonce is the one of FIPS 180-4, of the
  -- block from `midstate` and then of that result with the last eight words of `hash1`. The assembly
  -- routine is the compression function at each index, the block and `hash1` hold at least 16 words
  -- of 32 bits, and `max_nonce` is at most 2^32 - 4.
  pub scanhash_sse2_64-IsRoundSearch :
      (digest : ℕ → Regs) × ((n : ℕ)
        → IsWord n
        → IsDigest midstate block (drop 8 hash1) n (digest n))
      × IsRoundSearch max_nonce restart block digest phash (
          scanhash_sse2_64 target max_nonce restart calc midstate
            (max_nonce / 4 + 1)
            block
            hash1
            phash)
  unfolding scanhash_sse2_64
  scanhash_sse2_64-IsRoundSearch = (
    digest,
    digests,
    rw (block_long, hash1_long)
        (loop-IsRoundSearch (max_nonce / 4 + 1) 0 (start block) (omega arith) (omega arith)
          (λ x. refl) (λ n lt. absurd (omega arith))),
  )
    where
      block_long : leb 16 (length block) ≡ true
      block_long = ground (arith, ok.block_length)

      hash1_long : leb 16 (length hash1) ≡ true
      hash1_long = ground (arith, ok.hash1_length)
