-- ===== src/FourWay/Search.antt =====
-- The whole search of `ScanHash_4WaySSE2`, and its limit.
use cpuminer.Base.{
  ℕ, zero, suc, ◌+◌, ◌-◌, ◌*◌, ◌/◌, ◌%◌, ◌^◌, ◌≤◌, ◌<◌, ◌≡◌, ◌≢◌, refl, ◌∙◌, ◌⊎◌, inl, inr, leb,
  Bool, true, false, ◌||◌, List, length, length-set, set, drop, u32, IsWord, arith, Bool-cases,
}
use Prim.Native.Nat.{max}
use native.Mathlib.Decide.{dec_lt}
use cpuminer.Sha.{Regs}
use cpuminer.Scan.Search.{set-set}
use cpuminer.Scan.Digest.{IsDigest}
use cpuminer.FourWay.Batch.{
  AreInputs, digest_of, digest_of-IsDigest, first_zero, batch-hit, batch-missed,
}
use cpuminer.FourWay.Scan.{Run, done, fault, out_of_fuel, batch_loop, scan_hash_4way_sse2}

-- The outcome of a search over the hashes `digest`, of the batches from 1 on; batch `m` has the nonces
-- from `32 * m` to `32 * m + 31`.
module _ (max_nonce : ℕ) (restart : ℕ → Bool) (block : List ℕ) (digest : ℕ → Regs)
    (phash : Regs) where
  -- The search ended in batch `m` with its first nonce that counts.
  pub record IsHit (m : ℕ) (run : Run) : Type 0 where
    pub index : ℕ
    pub in_batch : index < 32
    pub counts : (digest (32 * m + index)).h ≡ 0
    pub before : (k : ℕ) → k < index → (digest (32 * m + k)).h ≢ 0
    pub hash : Regs
    pub last_word : hash.h ≡ 0
    pub returns :
        run
        ≡ done (record {
          returned = 32 * m + index;
          hashes_done = 32 * m;
          block = set block 3 (32 * m + index);
          hash = hash;
        })

  -- The search ended after batch `m` with -1.
  pub record IsMiss (m : ℕ) (run : Run) : Type 0 where
    pub quiet : (k : ℕ) → k < 32 → (digest (32 * m + k)).h ≢ 0
    pub stops : (max_nonce ≤ 32 * m) ⊎ (restart m ≡ true)
    pub returns :
        run
        ≡ done (record {
          returned = 2 ^ 32 - 1;
          hashes_done = 32 * m;
          block = set block 3 (32 * m);
          hash = phash;
        })

  pub record IsBatchSearch (run : Run) : Type 0 where
    pub last : ℕ
    pub tried : 1 ≤ last
    pub bounded : 32 * last < max 1 max_nonce + 32
    pub earlier :
        (m : ℕ)
        → 1 ≤ m
        → m < last
        → ((k : ℕ) → k < 32 → (digest (32 * m + k)).h ≢ 0) × (restart m ≡ false)
    pub ends : IsHit last run ⊎ IsMiss last run

-- The run of so many batches after the one of `nonce` returns only with a nonce that counts, which
-- stands in the block too, reads nothing out of bounds, and goes on only if no nonce of theirs counts.
abbrev pub OnlyHits : List ℕ → (ℕ → Regs) → (batches nonce : ℕ) → Run → Type 0
OnlyHits block digest batches nonce (done o) =
    IsWord o.returned
    × ((digest o.returned).h ≡ 0)
    × (o.hash.h ≡ 0)
    × (o.block ≡ set block 3 o.returned)
OnlyHits block digest batches nonce fault = ⊥
OnlyHits block digest batches nonce out_of_fuel =
    (i k : ℕ) → i < batches → k < 32 → (digest (u32 (nonce + 32 * (i + 1)) + k)).h ≢ 0

-- After a batch that has no nonce that counts.
OnlyHits-suc :
    (block : List ℕ) (digest : ℕ → Regs) (batches nonce : ℕ) (run : Run)
    → ((k : ℕ) → k < 32 → (digest (u32 (nonce + 32) + k)).h ≢ 0)
    → OnlyHits block digest batches (u32 (nonce + 32)) run
    → OnlyHits block digest (suc batches) nonce run
OnlyHits-suc block digest batches nonce (done o) quiet h = h
OnlyHits-suc block digest batches nonce fault quiet h = h
OnlyHits-suc block digest batches nonce out_of_fuel quiet h = none_counts
  where
    none_counts :
        (i k : ℕ) → i < suc batches → k < 32 → (digest (u32 (nonce + 32 * (i + 1)) + k)).h ≢ 0
    none_counts zero k lt small = quiet k small
    none_counts (suc i) k lt small =
        let same : u32 (u32 (nonce + 32) + 32 * (i + 1)) ≡ u32 (nonce + 32 * (suc i + 1)) =
          omega arith in
        rw (← same) (h i k (omega arith) small)

module _ (midstate : Regs) (hash1 : List ℕ) (target : Regs) (max_nonce : ℕ) (restart : ℕ → Bool)
    (block : List ℕ) (ok : AreInputs midstate block hash1) (phash : Regs) where
  module _ (digest : ℕ → Regs)
      (digests : (n : ℕ) → IsWord n → IsDigest midstate block (drop 8 hash1) n (digest n)) where
    abbrev run_from : ℕ → ℕ → ℕ → List ℕ → Run
    run_from fuel i nonce b =
        batch_loop midstate hash1 target max_nonce restart fuel i nonce b phash

    module _ (fits : max_nonce ≤ 2 ^ 32 - 32) where
      loop-IsBatchSearch :
          (fuel m : ℕ) (b : List ℕ)
          → 32 * m < max 1 max_nonce
          → max_nonce < 32 * (m + fuel)
          → length b ≡ length block
          → ((k : ℕ) → set b 3 k ≡ set block 3 k)
          → ((n : ℕ)
              → 1 ≤ n
              → n ≤ m
              → ((k : ℕ) → k < 32 → (digest (32 * n + k)).h ≢ 0) × (restart n ≡ false))
          → IsBatchSearch max_nonce restart block digest phash (run_from fuel (suc m) (32 * m) b)
      loop-IsBatchSearch zero m b below enough size same quiet = absurd (omega arith)
      loop-IsBatchSearch (suc fuel) m b below enough size same quiet =
          elim (first_zero (λ k. (digest (32 * suc m + k)).h) 32) [
            | inr (j, lt, z, before) ↦
                let (h, last_word, run) =
                  batch-hit midstate hash1 target max_nonce restart block ok digest digests fuel
                    (suc m) (32 * m) (32 * suc m) b phash next small size same j lt before z in
                record {
                  last = suc m;
                  tried = omega arith;
                  bounded = omega arith;
                  earlier = λ n low lt'. quiet n low (omega arith);
                  ends = inl (record {
                    index = j;
                    in_batch = lt;
                    counts = z;
                    before = before;
                    hash = h;
                    last_word = last_word;
                    returns = run;
                  });
                }
            | inl none ↦
                let step =
                  batch-missed midstate hash1 target max_nonce restart block ok digest digests fuel
                    (suc m) (32 * m) (32 * suc m) b phash next small size same none in
                elim (Bool-cases (leb max_nonce (32 * suc m) || restart (suc m))) [
                  | inl stop ↦ record {
                    last = suc m;
                    tried = omega arith;
                    bounded = omega arith;
                    earlier = λ n low lt'. quiet n low (omega arith);
                    ends = inr (record {
                      quiet = none;
                      stops = reason (suc m) stop;
                      returns = step ∙ rw stop refl;
                    });
                  }
                  | inr go ↦
                      let rest =
                        loop-IsBatchSearch fuel (suc m) (set block 3 (32 * suc m))
                          (going (suc m) go).0 (omega arith) (length-set block 3 (32 * suc m))
                          (λ k. set-set block 3 (32 * suc m) k)
                          (λ n low high. elim (dec_lt n (suc m)) [
                            | yes lt' ↦ quiet n low (omega arith)
                            | no ge ↦
                                let e : suc m ≡ n = omega arith in
                                rw (← e) ((none, (going (suc m) go).1))
                          ]) in
                      rw (step, go) rest
                ]
          ]
        where
          next : u32 (32 * m + 32) ≡ 32 * suc m
          next = omega arith

          small : 32 * suc m ≤ 2 ^ 32 - 32
          small = omega arith

          reason :
              (n : ℕ)
              → (leb max_nonce (32 * n) || restart n) ≡ true
              → (max_nonce ≤ 32 * n) ⊎ (restart n ≡ true)
          reason n h = ground arith

          going :
              (n : ℕ)
              → (leb max_nonce (32 * n) || restart n) ≡ false
              → (32 * n < max 1 max_nonce) × (restart n ≡ false)
          going n h = (ground arith, ground arith)

    module _ (beyond_limit : 2 ^ 32 - 32 < max_nonce) (quiet : (i : ℕ) → restart i ≡ false) where
      loop-OnlyHits :
          (fuel i nonce : ℕ) (b : List ℕ)
          → IsWord nonce
          → nonce % 32 ≡ 0
          → length b ≡ length block
          → ((k : ℕ) → set b 3 k ≡ set block 3 k)
          → OnlyHits block digest fuel nonce (run_from fuel i nonce b)
      loop-OnlyHits zero i nonce b w even size same =
          unfold batch_loop in (λ j k lt small. absurd (omega arith))
      loop-OnlyHits (suc fuel) i nonce b w even size same =
          elim (first_zero (λ k. (digest (n + k)).h) 32) [
            | inr (j, lt, z, before) ↦
                let (h, last_word, run) =
                  batch-hit midstate hash1 target max_nonce restart block ok digest digests fuel i
                    nonce n b phash refl small size same j lt before z in
                rw run (omega arith, z, last_word, refl)
            | inl none ↦
                let step =
                  batch-missed midstate hash1 target max_nonce restart block ok digest digests fuel
                    i nonce n b phash refl small size same none in
                let go : (leb max_nonce n || restart i) ≡ false = going n small in
                rw (step, go)
                  (OnlyHits-suc block digest fuel nonce _ none (
                    loop-OnlyHits fuel (suc i) n (set block 3 n) (omega arith) (omega arith)
                      (length-set block 3 n) (λ k. set-set block 3 n k)))
          ]
        where
          n : ℕ
          n = u32 (nonce + 32)

          small : n ≤ 2 ^ 32 - 32
          small = omega arith

          going : (k : ℕ) → k ≤ 2 ^ 32 - 32 → (leb max_nonce k || restart i) ≡ false
          going k h = ground (arith, quiet i)

  -- `ScanHash_4WaySSE2` searches the nonces from 32 on in batches of 32 for a double hash whose last
  -- word is 0. It returns after at most `max_nonce / 32 + 1` batches and reads nothing out of bounds:
  -- with the first nonce that counts, in the result and in word 3 of the block, or with -1 after the
  -- first batch that reaches `max_nonce` or is asked to restart. Earlier batches had no such hash
  -- and no restart, and the count is the first nonce of the last batch. The hash of a nonce is the one
  -- of FIPS 180-4, of the block from `midstate` and then of that result with the last eight words of
  -- `hash1`. The block and `hash1` hold at least 16 words of 32 bits, and `max_nonce` is at most
  -- 2^32 - 32.
  pub scan_hash_4way_sse2-IsBatchSearch :
      max_nonce ≤ 2 ^ 32 - 32
      → (digest : ℕ → Regs) × ((n : ℕ)
          → IsWord n
          → IsDigest midstate block (drop 8 hash1) n (digest n))
        × IsBatchSearch max_nonce restart block digest phash (
            scan_hash_4way_sse2 midstate hash1 target max_nonce restart
              (max_nonce / 32 + 1)
              block
              phash)
  unfolding scan_hash_4way_sse2
  scan_hash_4way_sse2-IsBatchSearch fits = (
    digest_of midstate block hash1 ok,
    digest_of-IsDigest midstate block hash1 ok,
    loop-IsBatchSearch (digest_of midstate block hash1 ok)
        (digest_of-IsDigest midstate block hash1 ok) fits (max_nonce / 32 + 1) 0 block (omega arith)
        (omega arith) refl (λ k. refl) (λ n low high. absurd (omega arith)),
  )

  -- A limit above 2^32 - 32 is no limit: without a restart, and however many batches it makes,
  -- `ScanHash_4WaySSE2` only returns with a nonce whose double hash ends in a zero word, with that
  -- nonce in word 3 of the block, and never with the -1 of the limit: its nonces start again from 0
  -- before one reaches `max_nonce`. As soon as one of its batches has such a nonce it returns. It
  -- reads nothing out of bounds. The hash of a nonce is the one of
  -- FIPS 180-4, of the block from `midstate` and then of that result with the last eight words of
  -- `hash1`. The block and `hash1` hold at least 16 words of 32 bits.
  pub scan_hash_4way_sse2-OnlyHits :
      2 ^ 32 - 32 < max_nonce
      → ((i : ℕ) → restart i ≡ false)
      → (digest : ℕ → Regs) × ((n : ℕ)
          → IsWord n
          → IsDigest midstate block (drop 8 hash1) n (digest n))
        × ((fuel : ℕ)
            → OnlyHits block digest fuel 0
                (scan_hash_4way_sse2 midstate hash1 target max_nonce restart fuel block phash))
  unfolding scan_hash_4way_sse2
  scan_hash_4way_sse2-OnlyHits beyond_limit quiet = (
    digest_of midstate block hash1 ok,
    digest_of-IsDigest midstate block hash1 ok,
    λ fuel.
        loop-OnlyHits (digest_of midstate block hash1 ok)
          (digest_of-IsDigest midstate block hash1 ok) beyond_limit quiet fuel 1 0 block
          (omega arith) (omega arith) refl (λ k. refl),
  )
