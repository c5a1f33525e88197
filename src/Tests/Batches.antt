-- ===== src/Tests/Batches.antt =====
-- The four-way scan on the first block of the chain, and its theorems on a block of zeros.
use cpuminer.Base.{
  ℕ, ◌+◌, ◌/◌, ◌≡◌, refl, Bool, false, Option, none, some, List, [], ◌∷◌, ◌++◌, replicate, drop,
  IsWord, arith,
}
use cpuminer.Sha.{Regs}
use cpuminer.Sha.Generic.{sha256_init_state}
use cpuminer.Target.{fulltest}
use cpuminer.Sha.Generic.Schedule.{WordsIn}
use cpuminer.Scan.Digest.{IsDigest, AreBuffers, WordsIn-append, hashed}
use cpuminer.Simd
use cpuminer.FourWay
use cpuminer.FourWay.{Group, double_block_sha256}
use cpuminer.FourWay.Scan.{
  Run, done, fault, out_of_fuel, thash_at, nonce_at, check_loop, finish, batch_loop,
  scan_hash_4way_sse2,
}
use cpuminer.FourWay.Digest.{unfinished}
use cpuminer.FourWay.Block.{double_block_sha256-unfinished, double_block_sha256-IsDigest}
use cpuminer.FourWay.Batch.{AreInputs}
use cpuminer.FourWay.Search.{
  IsBatchSearch, OnlyHits, scan_hash_4way_sse2-IsBatchSearch, scan_hash_4way_sse2-OnlyHits,
}

-- The second half of the first block of the chain, whose nonce is 0x1dac2b7c, as `getwork` has it.
abbrev pub genesis_block : List ℕ
genesis_block = 0x4b1e5e4a ∷ 0x29ab5f49 ∷ 0xffff001d ∷ 0 ∷ 0x80000000 ∷ replicate 10 0 ++ 0x280 ∷ []

abbrev pub genesis_midstate : Regs
genesis_midstate = record {
  a = 0xbc909a33;
  b = 0x6358bff0;
  c = 0x90ccac7d;
  d = 0x1e59caa8;
  e = 0xc3c8d8e9;
  f = 0x4f0103c8;
  g = 0x96b18736;
  h = 0x4719f91b;
}

abbrev pub hash1 : List ℕ
hash1 = replicate 8 0 ++ 0x80000000 ∷ replicate 6 0 ++ 0x100 ∷ []

abbrev pub never : ℕ → Bool
never n = false

abbrev pub zeros : Regs
zeros = record { a = 0; b = 0; c = 0; d = 0; e = 0; f = 0; g = 0; h = 0 }

unfoldable pub returned : Run → Option ℕ
returned (done o) = some o.returned
returned fault = none
returned out_of_fuel = none

-- The batch from 0x1dac2b60 on finds the nonce of the first block.
genesis_found :
    returned
      (batch_loop genesis_midstate hash1 zeros 0xfffffff never 1 1 0x1dac2b40 genesis_block zeros)
    ≡ some 0x1dac2b7c
unfolding returned batch_loop finish check_loop fulltest thash_at FourWay.double_block_sha256
    FourWay.groups FourWay.group FourWay.second_hash FourWay.first_hash FourWay.first_words
    FourWay.add_vars FourWay.set1_vars FourWay.lines FourWay.expanding_lines FourWay.plain_lines
    FourWay.expanded FourWay.line FourWay.sha256round FourWay.add5 FourWay.add4 FourWay.sigma1_256
    FourWay.sigma0_256 FourWay.bigsigma0_256 FourWay.bigsigma1_256 FourWay.shr FourWay.rotr
    FourWay.maj FourWay.ch Simd.add_epi32 Simd.xor_si128 Simd.and_si128 Simd.or_si128
    Simd.andnot_si128 Simd.srli_epi32 Simd.slli_epi32
genesis_found = refl

genesis_words : WordsIn genesis_block
genesis_words = WordsIn-append genesis_block [] (omega arith) (λ t. omega arith)

hash1_words : WordsIn hash1
hash1_words = WordsIn-append hash1 [] (omega arith) (λ t. omega arith)

pub inputs : AreInputs genesis_midstate genesis_block hash1
inputs = record {
  midstate_words = omega arith;
  block_words = genesis_words;
  block_length = omega arith;
  hash1_words = hash1_words;
  hash1_length = omega arith;
}

buffers : AreBuffers genesis_midstate genesis_block (λ n. drop 8 hash1)
buffers = record {
  midstate_words = omega arith;
  block_words = genesis_words;
  block_length = omega arith;
  beyond_words = λ n. WordsIn-append (drop 8 hash1) [] (omega arith) (λ t. omega arith);
  beyond_length = λ n. omega arith;
}

-- The digest of the block with nonce 28.
digest_28 : Regs
digest_28 =
    (hashed genesis_midstate genesis_block (λ n. drop 8 hash1) buffers 28 (omega arith)).hash

digest_28-IsDigest : IsDigest genesis_midstate genesis_block (drop 8 hash1) 28 digest_28
unfolding digest_28
digest_28-IsDigest =
    (hashed genesis_midstate genesis_block (λ n. drop 8 hash1) buffers 28 (omega arith)).digest

double_block_sha256-IsDigest_example :
    (thash : List Group) × (double_block_sha256 genesis_block hash1 genesis_midstate
        sha256_init_state
      ≡ some thash)
    × (nonce_at thash 28 ≡ 28)
    × ((thash_at thash 28).h ≡ digest_28.h)
double_block_sha256-IsDigest_example =
    double_block_sha256-IsDigest genesis_block hash1 genesis_midstate (omega arith) genesis_words
      hash1_words (omega arith) (omega arith) 28 (omega arith) digest_28 digest_28-IsDigest

double_block_sha256-unfinished_example :
    (thash : List Group) × (double_block_sha256 genesis_block hash1 genesis_midstate
        sha256_init_state
      ≡ some thash)
    × (nonce_at thash 28 ≡ 28)
    × (thash_at thash 28 ≡ unfinished digest_28-IsDigest.second sha256_init_state)
double_block_sha256-unfinished_example =
    double_block_sha256-unfinished genesis_block hash1 genesis_midstate (omega arith) genesis_words
      hash1_words (omega arith) (omega arith) 28 (omega arith) digest_28-IsDigest.first
      digest_28-IsDigest.second digest_28-IsDigest.first_schedule digest_28-IsDigest.second_schedule

scan_hash_4way_sse2-IsBatchSearch_example :
    (digest : ℕ → Regs) × ((n : ℕ)
      → IsWord n
      → IsDigest genesis_midstate genesis_block (drop 8 hash1) n (digest n))
    × IsBatchSearch 100 never genesis_block digest zeros (
        scan_hash_4way_sse2 genesis_midstate hash1 zeros 100 never
          (100 / 32 + 1)
          genesis_block
          zeros)
scan_hash_4way_sse2-IsBatchSearch_example =
    scan_hash_4way_sse2-IsBatchSearch genesis_midstate hash1 zeros 100 never genesis_block inputs
      zeros (omega arith)

-- The largest limit that the mining thread sets.
scan_hash_4way_sse2-OnlyHits_example :
    (digest : ℕ → Regs) × ((n : ℕ)
      → IsWord n
      → IsDigest genesis_midstate genesis_block (drop 8 hash1) n (digest n))
    × ((fuel : ℕ)
        → OnlyHits genesis_block digest fuel 0 (
            scan_hash_4way_sse2 genesis_midstate hash1 zeros 0xfffffffa never fuel genesis_block
              zeros))
scan_hash_4way_sse2-OnlyHits_example =
    scan_hash_4way_sse2-OnlyHits genesis_midstate hash1 zeros 0xfffffffa never genesis_block inputs
      zeros (omega arith) (λ i. refl)
