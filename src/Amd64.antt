-- ===== src/Amd64.antt =====
-- `scanhash_sse2_64` of sha256_sse2_amd64.c: four nonces at a time. The assembly routine
-- `CalcSha256_x64` is a parameter: from the constants `g_4sha256_k`, a block of vectors and eight initial
-- words it computes the eight vectors that it writes to `res`.
pub mod Rounds
pub mod Search
use cpuminer.Base.{
  ℕ, zero, suc, ◌+◌, ◌-◌, ◌%◌, ◌^◌, ◌==◌, leb, u32, if◌then◌else◌, Bool, ◌||◌, List, [], ◌∷◌, ◌++◌,
  map, length, set, take, drop,
}
use cpuminer.Sha.{Regs}
use cpuminer.Target.{fulltest}
use cpuminer.Simd.{M128i, set1_epi32, add_epi32, lane, lane_at}
use cpuminer.FourWay.{Vars, offset, vars_list, vars_lane}
use cpuminer.FourWay.Scan.{Run, done, fault, out_of_fuel}

abbrev pub g_sha256_k : List ℕ
g_sha256_k =
    0x428a2f98 ∷ 0x71374491 ∷ 0xb5c0fbcf ∷ 0xe9b5dba5 ∷ 0x3956c25b ∷ 0x59f111f1 ∷ 0x923f82a4
    ∷ 0xab1c5ed5 ∷ 0xd807aa98 ∷ 0x12835b01 ∷ 0x243185be ∷ 0x550c7dc3 ∷ 0x72be5d74 ∷ 0x80deb1fe
    ∷ 0x9bdc06a7 ∷ 0xc19bf174 ∷ 0xe49b69c1 ∷ 0xefbe4786 ∷ 0x0fc19dc6 ∷ 0x240ca1cc ∷ 0x2de92c6f
    ∷ 0x4a7484aa ∷ 0x5cb0a9dc ∷ 0x76f988da ∷ 0x983e5152 ∷ 0xa831c66d ∷ 0xb00327c8 ∷ 0xbf597fc7
    ∷ 0xc6e00bf3 ∷ 0xd5a79147 ∷ 0x06ca6351 ∷ 0x14292967 ∷ 0x27b70a85 ∷ 0x2e1b2138 ∷ 0x4d2c6dfc
    ∷ 0x53380d13 ∷ 0x650a7354 ∷ 0x766a0abb ∷ 0x81c2c92e ∷ 0x92722c85 ∷ 0xa2bfe8a1 ∷ 0xa81a664b
    ∷ 0xc24b8b70 ∷ 0xc76c51a3 ∷ 0xd192e819 ∷ 0xd6990624 ∷ 0xf40e3585 ∷ 0x106aa070 ∷ 0x19a4c116
    ∷ 0x1e376c08 ∷ 0x2748774c ∷ 0x34b0bcb5 ∷ 0x391c0cb3 ∷ 0x4ed8aa4a ∷ 0x5b9cca4f ∷ 0x682e6ff3
    ∷ 0x748f82ee ∷ 0x78a5636f ∷ 0x84c87814 ∷ 0x8cc70208 ∷ 0x90befffa ∷ 0xa4506ceb ∷ 0xbef9a3f7
    ∷ 0xc67178f2 ∷ []

abbrev pub g_sha256_hinit : Regs
g_sha256_hinit = record {
  a = 0x6a09e667;
  b = 0xbb67ae85;
  c = 0x3c6ef372;
  d = 0xa54ff53a;
  e = 0x510e527f;
  f = 0x9b05688c;
  g = 0x1f83d9ab;
  h = 0x5be0cd19;
}

abbrev pub Calc : Type 0
Calc = List M128i → List M128i → Regs → Vars

-- The first index from `j` on whose last word is 0, or 4.
unfoldable pub find_loop : ℕ → ℕ → Vars → ℕ
find_loop zero j m_4hash = j
find_loop (suc left) j m_4hash =
    let rest = find_loop left (suc j) m_4hash in
    if (vars_lane (lane_at j) m_4hash).h == 0 then j else rest

-- The two hashes of a round, on `m_4w` and the upper half of `m_4hash1`.
unfoldable pub hash_round : Calc → Regs → List M128i → List M128i → Vars
hash_round calc_sha256_x64 m_midstate m_4w upper =
    let g_4sha256_k = map set1_epi32 g_sha256_k in
    let m_4hash1 = calc_sha256_x64 g_4sha256_k m_4w m_midstate in
    calc_sha256_x64 g_4sha256_k (vars_list m_4hash1 ++ upper) g_sha256_hinit

-- `restart i` is what round `i` reads in `work_restart[thr_id].restart`.
module _ (target : Regs) (max_nonce : ℕ) (restart : ℕ → Bool) where
  -- The end of a round: the test of the limit, with the nonce already counted up.
  unfoldable pub next_round : ℕ → ℕ → List ℕ → Regs → (Regs → Run) → Run
  next_round i nonce block phash again =
      if leb max_nonce nonce || restart i
      then done (record { returned = 2 ^ 32 - 1; hashes_done = nonce; block = block; hash = phash })
      else again phash

  -- What a round does with the index `j`.
  unfoldable pub check : ℕ → ℕ → List ℕ → Regs → (Regs → Run) → Vars → ℕ → Run
  check i nonce block phash again m_4hash j =
      let hash = vars_lane (lane_at j) m_4hash in
      if j == 4
      then next_round i (u32 (nonce + 4)) block phash again
      else if (fulltest hash target).returned
      then done (record {
        returned = u32 (nonce + j);
        hashes_done = nonce;
        block = set block 3 (u32 (nonce + j));
        hash = hash;
      })
      else next_round i (u32 (nonce + 4)) block hash again

  module _ (calc_sha256_x64 : Calc) (m_midstate : Regs) where
    unfoldable pub round_loop : ℕ → ℕ → ℕ → List M128i → List M128i → List ℕ → Regs → Run
    round_loop zero i nonce m_4w upper block phash = out_of_fuel
    round_loop (suc fuel) i nonce m_4w upper block phash =
        let m_4w' = set m_4w 3 (add_epi32 offset (set1_epi32 nonce)) in
        let again = round_loop fuel (suc i) (u32 (nonce + 4)) m_4w' upper block in
        let m_4hash = hash_round calc_sha256_x64 m_midstate m_4w' upper in
        check i nonce block phash again m_4hash (find_loop 4 0 m_4hash)

    -- `fault` is a read outside the sixteen words of `pdata` or of `phash1`, which are copied first.
    unfoldable pub scanhash_sse2_64 : ℕ → List ℕ → List ℕ → Regs → Run
    scanhash_sse2_64 fuel block hash1 phash =
        if leb 16 (length block)
        then if leb 16 (length hash1)
          then round_loop fuel 0 0 (map set1_epi32 (take 16 block))
              (map set1_epi32 (take 8 (drop 8 hash1))) block phash
          else fault
        else fault
