-- ===== src/FourWay/Sound.antt =====
-- A nonce that `ScanHash_4WaySSE2` returns counts, whatever the limit is.
use cpuminer.Base.{
  ℕ, zero, suc, ◌+◌, ◌-◌, ◌%◌, ◌^◌, ◌≤◌, ◌≡◌, refl, ◌⊎◌, inl, inr, leb, Bool, ◌||◌, List, length,
  length-set, set, drop, u32, IsWord, arith, Bool-cases,
}
use cpuminer.Sha.{Regs}
use cpuminer.Scan.Search.{set-set}
use cpuminer.Scan.Digest.{IsDigest}
use cpuminer.FourWay.Batch.{AreInputs, first_zero, batch-hit, batch-missed}
use cpuminer.FourWay.Scan.{Run, done, fault, out_of_fuel, batch_loop, scan_hash_4way_sse2}

module _ (block : List ℕ) (digest : ℕ → Regs) where
  -- The run returns -1, or a nonce that counts and stands in the block.
  abbrev pub IsSound : Run → Type 0
  IsSound (done o) =
      (o.returned ≡ 2 ^ 32 - 1)
      ⊎ (IsWord o.returned × ((digest o.returned).h ≡ 0) × (o.block ≡ set block 3 o.returned))
  IsSound fault = ⊥
  IsSound out_of_fuel = Unit

module _ (midstate : Regs) (hash1 : List ℕ) (target : Regs) (max_nonce : ℕ) (restart : ℕ → Bool)
    (block : List ℕ) (ok : AreInputs midstate block hash1) (phash : Regs) (digest : ℕ → Regs)
    (digests : (n : ℕ) → IsWord n → IsDigest midstate block (drop 8 hash1) n (digest n)) where
  loop-IsSound :
      (fuel i nonce : ℕ) (b : List ℕ)
      → IsWord nonce
      → nonce % 32 ≡ 0
      → length b ≡ length block
      → ((k : ℕ) → set b 3 k ≡ set block 3 k)
      → IsSound block digest
          (batch_loop midstate hash1 target max_nonce restart fuel i nonce b phash)
  loop-IsSound zero i nonce b w even size same = unfold batch_loop in tt
  loop-IsSound (suc fuel) i nonce b w even size same =
      elim (first_zero (λ k. (digest (n + k)).h) 32) [
        | inr (j, lt, z, before) ↦
            let (h, last_word, run) =
              batch-hit midstate hash1 target max_nonce restart block ok digest digests fuel i nonce
                n b phash refl small size same j lt before z in
            rw run (inr (omega arith, z, refl))
        | inl none ↦
            let step =
              batch-missed midstate hash1 target max_nonce restart block ok digest digests fuel i
                nonce n b phash refl small size same none in
            elim (Bool-cases (leb max_nonce n || restart i)) [
              | inl stop ↦ rw (step, stop) (inl refl)
              | inr go ↦
                  rw (step, go)
                    (loop-IsSound fuel (suc i) n (set block 3 n) (omega arith) (omega arith)
                      (length-set block 3 n) (λ k. set-set block 3 n k))
            ]
      ]
    where
      n : ℕ
      n = u32 (nonce + 32)

      small : n ≤ 2 ^ 32 - 32
      small = omega arith

  pub scan_hash_4way_sse2-IsSound :
      (fuel : ℕ)
      → IsSound block digest
          (scan_hash_4way_sse2 midstate hash1 target max_nonce restart fuel block phash)
  unfolding scan_hash_4way_sse2
  scan_hash_4way_sse2-IsSound fuel = loop-IsSound fuel 1 0 block (omega arith) refl refl (λ k. refl)
