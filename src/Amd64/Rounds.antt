-- ===== src/Amd64/Rounds.antt =====
-- One round of `scanhash_sse2_64` over the double hash of the standard.
use cpuminer.Base.{
  ℕ, zero, suc, ◌+◌, ◌-◌, ◌^◌, ◌≤◌, ◌<◌, ◌≡◌, ◌≢◌, refl, sym, ap, ◌∙◌, ◌==◌, leb, u32,
  if◌then◌else◌, Bool, false, ◌||◌, List, ◌++◌, map, length, length-map, get_or, set, take, drop,
  IsWord, arith,
}
use mathlib.Core.Path.{subst}
use cpuminer.Sha.{Regs, AreWords, words}
use cpuminer.Sha.Spec.{IsSchedule, compress, compress-AreWords, k_table}
use cpuminer.Sha.Generic.Schedule.{WordsIn}
use cpuminer.Target.Order.{fulltest-true}
use cpuminer.Scan.Digest.{IsDigest, WordsIn-set, WordsIn-append, words-IsWord, init-AreWords}
use cpuminer.Simd.{M128i, Lane, lane, lane_at, set1_epi32, add_epi32}
use cpuminer.Simd.Laws.{lane-add, lane-set1, lane_index-lane_at}
use cpuminer.FourWay.{Vars, offset, vars_list, vars_lane, zeros, first_words}
use cpuminer.FourWay.Digest.{
  first_words-block, second_words-block, length-first_words, length-take, length-drop,
}
use cpuminer.FourWay.Block.{WordsIn-drop, lane-offset}
use cpuminer.FourWay.Batch.{AreInputs}
use cpuminer.FourWay.Scan.{Run, done}
use cpuminer.Amd64.{Calc, g_sha256_hinit, find_loop, check, next_round, hash_round, round_loop}

-- What `CalcSha256_x64` does, with the constants of the standard in its table: at each index of the
-- vectors it is the compression function.
pub record IsCompress (calc : Calc) : Type 0 where
  pub lanes :
      (l : Lane) (input : List M128i) (init : Regs) (m : List ℕ) (w : ℕ → ℕ)
      → length input ≡ 16
      → AreWords init
      → WordsIn m
      → IsSchedule m w
      → ((t : ℕ) → t < 16 → lane l (get_or input t zeros) ≡ get_or m t 0)
      → vars_lane l (calc (map set1_epi32 k_table) input init) ≡ compress w init

find_loop-none :
    (v : Vars) (left j : ℕ)
    → ((i : ℕ) → j ≤ i → i < j + left → (vars_lane (lane_at i) v).h ≢ 0)
    → find_loop left j v ≡ j + left
unfolding find_loop
find_loop-none v zero j none = omega arith
find_loop-none v (suc left) j none =
    let rest = find_loop-none v left (suc j) (λ i low high. none i (omega arith) (omega arith)) in
    ground (arith, none j (omega arith) (omega arith), rest)

find_loop-first :
    (v : Vars) (d left j : ℕ)
    → d < left
    → ((i : ℕ) → j ≤ i → i < j + d → (vars_lane (lane_at i) v).h ≢ 0)
    → (vars_lane (lane_at (j + d)) v).h ≡ 0
    → find_loop left j v ≡ j + d
unfolding find_loop
find_loop-first v d zero j small none z = absurd (omega arith)
find_loop-first v zero (suc left) j small none z =
    let e : j + 0 ≡ j = omega arith in
    let z' : (vars_lane (lane_at j) v).h ≡ 0 = rw (← e) z in ground (arith, z')
find_loop-first v (suc d) (suc left) j small none z =
    let e : j + suc d ≡ suc j + d = omega arith in
    let rest =
      find_loop-first v d left (suc j) (omega arith)
        (λ i low high. none i (omega arith) (omega arith)) (rw (← e) z) in
    rw e (ground (arith, none j (omega arith) (omega arith), rest))

-- `m_4w` and the upper half of `m_4hash1` before the loop.
abbrev pub start : List ℕ → List M128i
start block = map set1_epi32 (take 16 block)

abbrev pub upper : List ℕ → List M128i
upper hash1 = map set1_epi32 (take 8 (drop 8 hash1))

abbrev pub nonces : ℕ → M128i
nonces n = add_epi32 offset (set1_epi32 n)

module _ (calc : Calc) (calc_ok : IsCompress calc) (midstate : Regs) (hash1 : List ℕ)
    (target : Regs) (max_nonce : ℕ) (restart : ℕ → Bool) (block : List ℕ)
    (ok : AreInputs midstate block hash1) (digest : ℕ → Regs)
    (digests : (n : ℕ) → IsWord n → IsDigest midstate block (drop 8 hash1) n (digest n)) where
  lane-nonces : (n j : ℕ) → j < 4 → n + j < 2 ^ 32 → lane (lane_at j) (nonces n) ≡ n + j
  lane-nonces n j lt small =
      let index = lane_index-lane_at j in
      simp (lane-add, lane-set1, lane-offset, index) (omega arith)

  -- The two hashes at each index are the double hash of the nonce there.
  hash_round-digest :
      (n j : ℕ)
      → j < 4
      → n + j < 2 ^ 32
      → vars_lane
          (lane_at j)
          (hash_round calc midstate (first_words block (nonces n)) (upper hash1))
        ≡ digest (n + j)
  unfolding hash_round
  hash_round-digest n j lt small =
      calc_ok.lanes l (vars_list hash_1 ++ upper hash1) g_sha256_hinit
        (words (vars_lane l hash_1) ++ drop 8 hash1) d.second
        (omega (
          arith,
          length-map set1_epi32 (take 8 (drop 8 hash1)),
          length-take 8 (drop 8 hash1) (omega (arith, length-drop 8 hash1, ok.hash1_length)),
        ))
        init-AreWords (subst (λ r. WordsIn (words r ++ drop 8 hash1)) (sym first) second_words)
        (subst (λ r. IsSchedule (words r ++ drop 8 hash1) d.second) (sym first) d.second_schedule)
        (λ t below. second_words-block l hash1 hash_1 t below)
      ∙ sym d.result
    where
      l : Lane
      l = lane_at j

      d : IsDigest midstate block (drop 8 hash1) (n + j) (digest (n + j))
      d = digests (n + j) small

      hash_1 : Vars
      hash_1 = calc (map set1_epi32 k_table) (first_words block (nonces n)) midstate

      same : lane l (nonces n) ≡ n + j
      same = lane-nonces n j lt small

      first : vars_lane l hash_1 ≡ compress d.first midstate
      first =
          calc_ok.lanes l (first_words block (nonces n)) midstate (set block 3 (n + j)) d.first
            (length-first_words l block (nonces n) ok.block_length) ok.midstate_words
            (WordsIn-set block 3 (n + j) ok.block_words small) d.first_schedule
            (λ t below.
              subst
                (λ m.
                  lane l (get_or (first_words block (nonces n)) t zeros)
                  ≡ get_or (set block 3 m) t 0)
                same (first_words-block l block (nonces n) t ok.block_length below))

      second_words : WordsIn (words (compress d.first midstate) ++ drop 8 hash1)
      second_words =
          WordsIn-append (words (compress d.first midstate)) (drop 8 hash1)
            (words-IsWord (compress d.first midstate) (compress-AreWords d.first midstate))
            (WordsIn-drop 8 hash1 ok.hash1_words)

  -- One round, whose nonces start at `n`.
  module _ (fuel i n : ℕ) (m_4w : List M128i) (phash : Regs) (small : n + 4 < 2 ^ 32)
      (same : (x : M128i) → set m_4w 3 x ≡ set (start block) 3 x) where
    abbrev hashes : Vars
    hashes = hash_round calc midstate (first_words block (nonces n)) (upper hash1)

    abbrev again : Regs → Run
    again =
        round_loop target max_nonce restart calc midstate fuel (suc i) (n + 4)
          (set (start block) 3 (nonces n)) (upper hash1) block

    round : Run
    round =
        round_loop target max_nonce restart calc midstate (suc fuel) i n m_4w (upper hash1) block
          phash

    column : (j : ℕ) → j < 4 → (vars_lane (lane_at j) hashes).h ≡ (digest (n + j)).h
    column j lt = ap (λ (r : Regs). r.h) (hash_round-digest n j lt (omega arith))

    round-check :
        round ≡ check target max_nonce restart i n block phash again hashes (find_loop 4 0 hashes)
    unfolding round round_loop first_words
    round-check = let e : u32 (n + 4) ≡ n + 4 = omega arith in rw (e, same (nonces n)) refl

    -- The first nonce of the round that counts ends the scan, with its hash.
    pub round-hit :
        (j : ℕ)
        → j < 4
        → ((k : ℕ) → k < j → (digest (n + k)).h ≢ 0)
        → (digest (n + j)).h ≡ 0
        → round_loop target max_nonce restart calc midstate
            (suc fuel)
            i
            n
            m_4w
            (upper hash1)
            block
            phash
          ≡ done (record {
            returned = n + j;
            hashes_done = n;
            block = set block 3 (n + j);
            hash = digest (n + j);
          })
    unfolding check
    round-hit j lt before z =
        let first : 0 + j ≡ j = omega arith in
        let found =
          find_loop-first hashes j 4 0 lt
            (λ k low high. rw (column k (omega arith)) (before k (omega arith)))
            (rw first (column j lt ∙ z)) in
        let word : u32 (n + j) ≡ n + j = omega arith in
        let other : (j == 4) ≡ false = ground arith in
        unfold round in
        round-check
        ∙ rw
            (
              found,
              first,
              other,
              hash_round-digest n j lt (omega arith),
              fulltest-true (digest (n + j)) target,
              word,
            )
            refl

    -- A round in which no nonce counts ends the scan at the limit and at a restart.
    pub round-missed :
        ((k : ℕ) → k < 4 → (digest (n + k)).h ≢ 0)
        → round_loop target max_nonce restart calc midstate
            (suc fuel)
            i
            n
            m_4w
            (upper hash1)
            block
            phash
          ≡ (if leb max_nonce (n + 4) || restart i
              then done (record {
                returned = 2 ^ 32 - 1;
                hashes_done = n + 4;
                block = block;
                hash = phash;
              })
              else round_loop target max_nonce restart calc midstate fuel
                  (suc i)
                  (n + 4)
                  (set (start block) 3 (nonces n))
                  (upper hash1)
                  block
                  phash)
    unfolding check next_round
    round-missed none =
        let nowhere =
          find_loop-none hashes 4 0
            (λ k low high. rw (column k (omega arith)) (none k (omega arith))) in
        let word : u32 (n + 4) ≡ n + 4 = omega arith in
        unfold round in round-check ∙ rw (nowhere, word) refl
