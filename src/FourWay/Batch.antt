-- ===== src/FourWay/Batch.antt =====
-- One batch of `ScanHash_4WaySSE2`, over the double hash of the standard.
use cpuminer.Base.{
  ℕ, zero, suc, ◌+◌, ◌-◌, ◌^◌, ◌≤◌, ◌<◌, ◌≡◌, ◌≢◌, refl, ◌∙◌, ◌⊎◌, inl, inr, leb, if◌then◌else◌,
  Bool, ◌||◌, List, length, length-set, get_or, get_or-set_self, set, drop, u32, IsWord, arith,
}
use native.Mathlib.Decide.{ℕ_discrete, dec_lt}
use cpuminer.Sha.{Regs, AreWords}
use cpuminer.Sha.Generic.{sha256_init_state}
use cpuminer.Sha.Generic.Schedule.{WordsIn}
use cpuminer.Target.Order.{fulltest-true}
use cpuminer.Scan.Search.{set-set}
use cpuminer.Scan.Digest.{IsDigest, WordsIn-set, AreBuffers, hashed}
use cpuminer.FourWay.{Group, groups}
use mathlib.Core.Path.{subst}
use cpuminer.FourWay.Digest.{length-drop}
use cpuminer.FourWay.Block.{WordsIn-drop, written-run, written-IsDigest}
use cpuminer.FourWay.Scan.{
  thash_at, hit, missed, check_loop, Outcome, Run, done, finish, batch_loop,
}

-- The first zero among the values below `n`.
pub first_zero :
    (f : ℕ → ℕ) (n : ℕ)
    → ((i : ℕ) → i < n → f i ≢ 0) ⊎ (j : ℕ) × (j < n) × (f j ≡ 0) × ((i : ℕ) → i < j → f i ≢ 0)
first_zero f zero = inl (λ i lt. absurd (omega arith))
first_zero f (suc n) = elim (first_zero f n) [
  | inr (j, lt, z, before) ↦ inr (j, omega arith, z, before)
  | inl none_below ↦ elim (ℕ_discrete (f n) 0) [
    | yes z ↦ inr (n, omega arith, z, none_below)
    | no nz ↦ inl (λ i lt. elim (dec_lt i n) [
      | yes below ↦ none_below i below
      | no top ↦ let e : i ≡ n = omega arith in rw e nz
    ])
  ]
]

module _ (gs : List Group) (target : Regs) where
  check_loop-missed :
      (left j : ℕ) (phash : Regs)
      → ((i : ℕ) → j ≤ i → i < j + left → (thash_at gs i).h ≢ 0)
      → check_loop left j gs target phash ≡ missed phash
  unfolding check_loop
  check_loop-missed zero j phash none = refl
  check_loop-missed (suc left) j phash none =
      let rest =
        check_loop-missed left (suc j) phash (λ i low high. none i (omega arith) (omega arith)) in
      ground (arith, none j (omega arith) (omega arith), rest)

  check_loop-hit :
      (d left j : ℕ) (phash : Regs)
      → d < left
      → ((i : ℕ) → j ≤ i → i < j + d → (thash_at gs i).h ≢ 0)
      → (thash_at gs (j + d)).h ≡ 0
      → check_loop left j gs target phash ≡ hit (j + d) (thash_at gs (j + d))
  unfolding check_loop
  check_loop-hit d zero j phash small none z = absurd (omega arith)
  check_loop-hit zero (suc left) j phash small none z =
      let e : j + 0 ≡ j = omega arith in
      let z' : (thash_at gs j).h ≡ 0 = rw (← e) z in
      rw e (ground (arith, z', fulltest-true (thash_at gs j) target))
  check_loop-hit (suc d) (suc left) j phash small none z =
      let e : j + suc d ≡ suc j + d = omega arith in
      let rest =
        check_loop-hit d left (suc j) phash (omega arith)
          (λ i low high. none i (omega arith) (omega arith)) (rw (← e) z) in
      rw e (ground (arith, none j (omega arith) (omega arith), rest))

-- What the buffers hold.
pub record AreInputs (midstate : Regs) (block hash1 : List ℕ) : Type 0 where
  pub midstate_words : AreWords midstate
  pub block_words : WordsIn block
  pub block_length : 16 ≤ length block
  pub hash1_words : WordsIn hash1
  pub hash1_length : 16 ≤ length hash1

module _ (midstate : Regs) (block hash1 : List ℕ) (ok : AreInputs midstate block hash1) where
  buffers : AreBuffers midstate block (λ n. drop 8 hash1)
  buffers = record {
    midstate_words = ok.midstate_words;
    block_words = ok.block_words;
    block_length = ok.block_length;
    beyond_words = λ n. WordsIn-drop 8 hash1 ok.hash1_words;
    beyond_length = λ n. omega (arith, length-drop 8 hash1, ok.hash1_length);
  }

  -- The double hash of each nonce, which is there for every block.
  pub digest_of : ℕ → Regs
  digest_of n = (hashed midstate block (λ m. drop 8 hash1) buffers (u32 n) (omega arith)).hash

  pub digest_of-IsDigest :
      (n : ℕ) → IsWord n → IsDigest midstate block (drop 8 hash1) n (digest_of n)
  unfolding digest_of
  digest_of-IsDigest n w =
      let e : u32 n ≡ n = omega arith in
      subst (λ m. IsDigest midstate block (drop 8 hash1) m (digest_of n)) e
        (hashed midstate block (λ m. drop 8 hash1) buffers (u32 n) (omega arith)).digest

module _ (midstate : Regs) (hash1 : List ℕ) (target : Regs) (max_nonce : ℕ) (restart : ℕ → Bool)
    (block : List ℕ) (ok : AreInputs midstate block hash1) (digest : ℕ → Regs)
    (digests : (n : ℕ) → IsWord n → IsDigest midstate block (drop 8 hash1) n (digest n)) where
  abbrev pub ends_with : ℕ → ℕ → Regs → Outcome
  ends_with n j h = record {
    returned = n + j;
    hashes_done = n;
    block = set block 3 (n + j);
    hash = h;
  }

  abbrev pub ends_without : ℕ → Regs → Outcome
  ends_without n h = record {
    returned = 2 ^ 32 - 1;
    hashes_done = n;
    block = set block 3 n;
    hash = h;
  }

  -- One batch, whose nonces start at `n`.
  module _ (fuel i nonce n : ℕ) (b : List ℕ) (phash : Regs) (e : u32 (nonce + 32) ≡ n)
      (small : n ≤ 2 ^ 32 - 32) (size : length b ≡ length block)
      (same : (k : ℕ) → set b 3 k ≡ set block 3 k) where
    abbrev gs : List Group
    gs = groups 8 (set block 3 n) hash1 midstate sha256_init_state 0

    block_words : WordsIn (set block 3 n)
    block_words = WordsIn-set block 3 n ok.block_words (omega arith)

    column : (j : ℕ) → j < 32 → (thash_at gs j).h ≡ (digest (n + j)).h
    column j lt =
        let start = get_or-set_self block 3 n 0 (omega (arith, ok.block_length)) in
        let word : u32 (get_or (set block 3 n) 3 0 + j) ≡ n + j = rw start (omega arith) in
        written-IsDigest (set block 3 n) hash1 midstate ok.midstate_words block_words ok.hash1_words
          (omega (arith, ok.block_length, length-set block 3 n)) ok.hash1_length j lt
          (digest (n + j)) (rw word (digest_in (n + j) (omega arith)))
      where
        digest_in :
            (m : ℕ) → IsWord m → IsDigest midstate (set block 3 n) (drop 8 hash1) m (digest m)
        digest_in m w =
            let d = digests m w in
            record {
              first = d.first;
              first_schedule = rw (set-set block 3 n m) d.first_schedule;
              second = d.second;
              second_schedule = d.second_schedule;
              result = d.result;
            }

    abbrev again : Regs → Run
    again = batch_loop midstate hash1 target max_nonce restart fuel (suc i) n (set block 3 n)

    batch : Run
    batch = batch_loop midstate hash1 target max_nonce restart (suc fuel) i nonce b phash

    batch-finish :
        batch
        ≡ finish max_nonce (restart i) n (set block 3 n) again (check_loop 32 0 gs target phash)
    unfolding batch batch_loop
    batch-finish =
        let run =
          written-run (set block 3 n) hash1 midstate ok.midstate_words block_words ok.hash1_words
            (omega (arith, ok.block_length, length-set block 3 n)) ok.hash1_length 0
            (omega arith) in
        rw (e, same n, run) refl

    -- The first nonce of the batch that counts ends the scan.
    pub batch-hit :
        (j : ℕ)
        → j < 32
        → ((k : ℕ) → k < j → (digest (n + k)).h ≢ 0)
        → (digest (n + j)).h ≡ 0
        → (h : Regs) × (h.h ≡ 0)
          × (batch_loop midstate hash1 target max_nonce restart (suc fuel) i nonce b phash
              ≡ done (ends_with n j h))
    unfolding finish
    batch-hit j lt before z =
        let start : 0 + j ≡ j = omega arith in
        let z' : (thash_at gs (0 + j)).h ≡ 0 = rw start (column j lt ∙ z) in
        let found =
          check_loop-hit gs target j 32 0 phash lt
            (λ k low high. rw (column k (omega arith)) (before k (omega arith))) z' in
        let word : u32 (n + (0 + j)) ≡ n + j = omega arith in
        (
          thash_at gs (0 + j),
          z',
          unfold batch in batch-finish ∙ rw (found, word, set-set block 3 n (n + j)) refl,
        )

    -- A batch in which no nonce counts ends the scan at the limit and at a restart.
    pub batch-missed :
        ((k : ℕ) → k < 32 → (digest (n + k)).h ≢ 0)
        → batch_loop midstate hash1 target max_nonce restart (suc fuel) i nonce b phash ≡ (
            if leb max_nonce n || restart i
            then done (ends_without n phash)
            else batch_loop midstate hash1 target max_nonce restart fuel
                (suc i)
                n
                (set block 3 n)
                phash)
    unfolding finish
    batch-missed none =
        let rest =
          check_loop-missed gs target 32 0 phash
            (λ k low high. rw (column k (omega arith)) (none k (omega arith))) in
        unfold batch in batch-finish ∙ rw rest refl
