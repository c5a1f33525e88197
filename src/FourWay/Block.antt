-- ===== src/FourWay/Block.antt =====
-- `DoubleBlockSHA256` against the double hash of the standard.
use cpuminer.Base.{
  ℕ, zero, suc, ◌+◌, ◌*◌, ◌/◌, ◌≤◌, ◌<◌, ◌≡◌, refl, sym, ap, List, [], ◌∷◌, ◌++◌, some, length,
  get_or, set, drop, u32, ◌⊞◌, arith,
}
use mathlib.Core.Path.{subst}
use cpuminer.Sha.{Regs, AreWords, words, add_regs}
use cpuminer.Sha.Spec.{round, rounds, compress, compress-AreWords, IsSchedule}
use cpuminer.Sha.Generic.{sha256_init_state}
use cpuminer.Sha.Generic.Schedule.{WordsIn}
use cpuminer.Scan.Digest.{IsDigest, WordsIn-set, WordsIn-append, words-IsWord, init-AreWords}
use cpuminer.Simd.{Lane, l0, l1, l2, l3, lane, lane_at, lane_index}
use cpuminer.Simd.Laws.{lane-add, lane-set1, lane_index-lane_at}
use cpuminer.FourWay.{Group, group, groups, offset, vars_lane, first_hash, double_block_sha256}
use cpuminer.FourWay.Rounds.{rounds-add}
use cpuminer.FourWay.Digest.{first_hash-compress, second_hash-unfinished, unfinished}
use cpuminer.FourWay.Scan.{unset, thash_at, nonce_at}

-- The last three rounds move `e` to `h`.
unfinished-compress : (w : ℕ → ℕ) (init : Regs) → (unfinished w init).h ≡ (compress w init).h
unfolding compress add_regs
unfinished-compress w init = rw (rounds-add w 61 3 0 init) (last_three (rounds w 61 0 init))
  where
    last_three : (r : Regs) → init.h ⊞ r.e ≡ init.h ⊞ (rounds w 3 61 r).h
    last_three r = unfold rounds round in refl

groups-get :
    (left q : ℕ) (input pad : List ℕ) (pre init : Regs) (k : ℕ)
    → q < left
    → get_or (groups left input pad pre init k) q unset ≡ group input pad pre init (k + 4 * q)
unfolding groups
groups-get zero q input pad pre init k lt = absurd (omega arith)
groups-get (suc left) zero input pad pre init k lt =
    let e : k + 4 * 0 ≡ k = omega arith in rw e refl
groups-get (suc left) (suc q) input pad pre init k lt =
    let e : k + 4 * suc q ≡ k + 4 + 4 * q = omega arith in
    rw e (groups-get left q input pad pre init (k + 4) (omega arith))

pub lane-offset : (l : Lane) → lane l offset ≡ lane_index l
lane-offset l0 = refl
lane-offset l1 = refl
lane-offset l2 = refl
lane-offset l3 = refl

lane-nonce :
    (input pad : List ℕ) (pre init : Regs) (j : ℕ)
    → lane (lane_at j) (group input pad pre init (0 + 4 * (j / 4))).nonce
      ≡ u32 (get_or input 3 0 + j)
unfolding group
lane-nonce input pad pre init j =
    let index = lane_index-lane_at j in simp (lane-add, lane-set1, lane-offset, index) (omega arith)

pub WordsIn-drop : (n : ℕ) (xs : List ℕ) → WordsIn xs → WordsIn (drop n xs)
WordsIn-drop zero xs ws = ws
WordsIn-drop (suc n) [] ws = ws
WordsIn-drop (suc n) (x ∷ xs) ws = WordsIn-drop n xs (λ t. ws (suc t))

module _ (input pad : List ℕ) (pre : Regs) (ok : AreWords pre) (ws : WordsIn input)
    (pad_ws : WordsIn pad) (long : 16 ≤ length input) (pad_long : 16 ≤ length pad) (j : ℕ)
    (lt : j < 32) where
  abbrev nonce_of : ℕ
  nonce_of = u32 (get_or input 3 0 + j)

  abbrev group_of : Group
  group_of = group input pad pre sha256_init_state (0 + 4 * (j / 4))

  -- `thash` after the call.
  abbrev pub written : List Group
  written = groups 8 input pad pre sha256_init_state 0

  pub written-run : double_block_sha256 input pad pre sha256_init_state ≡ some written
  unfolding double_block_sha256
  written-run = ground arith

  written-group : get_or written (j / 4) unset ≡ group_of
  written-group = groups-get 8 (j / 4) input pad pre sha256_init_state 0 (omega arith)

  written-nonce : nonce_at written j ≡ nonce_of
  unfolding nonce_at
  written-nonce = rw written-group (lane-nonce input pad pre sha256_init_state j)

  abbrev lane_of : Lane
  lane_of = lane_at j

  first_of :
      (w : ℕ → ℕ)
      → IsSchedule (set input 3 nonce_of) w
      → vars_lane lane_of (first_hash input pre group_of.nonce) ≡ compress w pre
  first_of w s =
      let e = lane-nonce input pad pre sha256_init_state j in
      let same = ap (set input 3) e in
      first_hash-compress lane_of input pre group_of.nonce w ok long
        (rw same (WordsIn-set input 3 nonce_of ws (omega arith))) (rw same s)

  module _ (first second : ℕ → ℕ) (s1 : IsSchedule (set input 3 nonce_of) first)
      (s2 : IsSchedule (words (compress first pre) ++ drop 8 pad) second) where
    same : vars_lane lane_of (first_hash input pre group_of.nonce) ≡ compress first pre
    same = first_of first s1

    block_words : WordsIn (words (compress first pre) ++ drop 8 pad)
    block_words =
        WordsIn-append (words (compress first pre)) (drop 8 pad)
          (words-IsWord (compress first pre) (compress-AreWords first pre))
          (WordsIn-drop 8 pad pad_ws)

    written-unfinished : thash_at written j ≡ unfinished second sha256_init_state
    unfolding thash_at group
    written-unfinished = rw written-group (
        second_hash-unfinished lane_of pad sha256_init_state (first_hash input pre group_of.nonce)
          second init-AreWords pad_long
          (subst (λ r. WordsIn (words r ++ drop 8 pad)) (sym same) block_words)
          (subst (λ r. IsSchedule (words r ++ drop 8 pad) second) (sym same) s2))

  pub written-IsDigest :
      (digest : Regs)
      → IsDigest pre input (drop 8 pad) (u32 (get_or input 3 0 + j)) digest
      → (thash_at written j).h ≡ digest.h
  written-IsDigest digest d =
      rw (written-unfinished d.first d.second d.first_schedule d.second_schedule, d.result)
        (unfinished-compress d.second sha256_init_state)

  -- Each of the 32 columns `j` of `thash` is the hash, without its last three rounds, of the block with the nonce
  -- `In[3] + j`: the compression of that block from `hPre`, followed by `Pad[8..15]`, from `hInit`. The
  -- call reads nothing out of bounds, and `thash[8][j]` is the nonce. The buffers hold words of 32 bits,
  -- and at least 16 of them.
  pub double_block_sha256-unfinished :
      (first second : ℕ → ℕ)
      → IsSchedule (set input 3 (u32 (get_or input 3 0 + j))) first
      → IsSchedule (words (compress first pre) ++ drop 8 pad) second
      → (thash : List Group) × (double_block_sha256 input pad pre sha256_init_state ≡ some thash)
        × (nonce_at thash j ≡ u32 (get_or input 3 0 + j))
        × (thash_at thash j ≡ unfinished second sha256_init_state)
  double_block_sha256-unfinished first second s1 s2 =
      (written, written-run, written-nonce, written-unfinished first second s1 s2)

  -- For each `j` below 32, the last word of column `j` of `thash` is the last word of the whole double
  -- hash of FIPS 180-4 with nonce `In[3] + j`, and `thash[8][j]` is that nonce. The call reads nothing
  -- out of bounds. The buffers hold words of 32 bits, and at least 16 of them.
  pub double_block_sha256-IsDigest :
      (digest : Regs)
      → IsDigest pre input (drop 8 pad) (u32 (get_or input 3 0 + j)) digest
      → (thash : List Group) × (double_block_sha256 input pad pre sha256_init_state ≡ some thash)
        × (nonce_at thash j ≡ u32 (get_or input 3 0 + j))
        × ((thash_at thash j).h ≡ digest.h)
  double_block_sha256-IsDigest digest d =
      (written, written-run, written-nonce, written-IsDigest digest d)
