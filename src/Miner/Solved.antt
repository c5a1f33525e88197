-- ===== src/Miner/Solved.antt =====
-- When a work unit is solved, and that `scanhash_c` finds solved ones.
use cpuminer.Base.{
  ℕ, ◌^◌, ◌<◌, ◌≡◌, refl, sym, ap, ◌∙◌, true, List, get_or, get_or-set_self, set, drop, IsWord, All,
  arith, ==_iff,
}
use mathlib.Core.Path.{subst}
use cpuminer.Sha.{Regs}
use cpuminer.Work.{Work}
use cpuminer.Work.Bytes.{AreBytes-drop}
use cpuminer.Workio.Fresh.{IsFresh}
use cpuminer.Scan.{scanhash_c}
use cpuminer.Scan.Search.{set-set}
use cpuminer.Scan.Digest.{IsDigest, AreBuffers, scanhash_c-first-IsDigest}
use cpuminer.FourWay.Batch.{AreInputs}
use cpuminer.Threads.{Scanned, scanned}
use cpuminer.Miner.{Env, words_of, bytes_of, regs_of, block_of, stored, of_scan}
use cpuminer.Miner.Buffers.{
  words_of-IsWord, WordsIn-of_All, All-set, words_of-bytes_of, drop-take-append, regs_of-AreWords,
}

-- The nonce in a work unit.
abbrev pub nonce_of : Work → ℕ
nonce_of w = get_or (block_of w) 3 0

-- With the nonce in its word 3, the double hash of the block ends in a zero word, where `pad` stands
-- behind the first hash.
pub record IsSolved (pad : List ℕ) (w : Work) : Type 0 where
  pub digest : Regs
  pub is_digest : IsDigest (regs_of w.midstate) (block_of w) pad (nonce_of w) digest
  pub last_word : digest.h ≡ 0

pub scanned_injective : (a b : Scanned) → scanned a ≡ scanned b → a ≡ b
scanned_injective a b e = cc

module _ (w : Work) (fresh : IsFresh w) where
  pub block_words : All IsWord (block_of w)
  block_words =
      words_of-IsWord 16 (drop 64 w.data_bytes)
        (AreBytes-drop 64 w.data_bytes fresh.bytes.data_bytes)

  block_of-stored :
      (n : ℕ) (hash : Regs)
      → IsWord n
      → block_of (stored w (set (block_of w) 3 n) hash) ≡ set (block_of w) 3 n
  block_of-stored n hash small =
      rw
        (drop-take-append 64 w.data_bytes (bytes_of (set (block_of w) 3 n))
          (omega (arith, fresh.sized.data_bytes)))
        (words_of-bytes_of 16 (set (block_of w) 3 n) refl
          (All-set (block_of w) 3 n block_words small))

  -- What a scan leaves when it has found `n`.
  pub stored-IsSolved :
      (pad : List ℕ) (n : ℕ) (digest hash : Regs)
      → IsWord n
      → IsDigest (regs_of w.midstate) (block_of w) pad n digest
      → digest.h ≡ 0
      → IsSolved pad (stored w (set (block_of w) 3 n) hash)
  stored-IsSolved pad n digest hash small d z =
      let same = block_of-stored n hash small in
      record {
        digest = digest;
        is_digest =
            subst (λ b. IsDigest (regs_of w.midstate) b pad (get_or b 3 0) digest) (sym same) again;
        last_word = z;
      }
    where
      again : IsDigest (regs_of w.midstate) (set (block_of w) 3 n) pad n digest
      again = record {
        first = d.first;
        first_schedule = rw (set-set (block_of w) 3 n n) d.first_schedule;
        second = d.second;
        second_schedule = d.second_schedule;
        result = d.result;
      }

  pub inputs : AreInputs (regs_of w.midstate) (block_of w) (words_of 16 w.hash1)
  inputs = record {
    midstate_words = regs_of-AreWords w.midstate fresh.bytes.midstate;
    block_words = WordsIn-of_All (block_of w) block_words;
    block_length = omega arith;
    hash1_words =
        WordsIn-of_All (words_of 16 w.hash1) (words_of-IsWord 16 w.hash1 fresh.bytes.hash1);
    hash1_length = omega arith;
  }

  pub buffers : (e : Env) → AreBuffers (regs_of w.midstate) (block_of w) e.beyond
  buffers e = record {
    midstate_words = regs_of-AreWords w.midstate fresh.bytes.midstate;
    block_words = WordsIn-of_All (block_of w) block_words;
    block_length = omega arith;
    beyond_words = e.beyond_words;
    beyond_length = e.beyond_length;
  }

  -- The C scan.
  pub scanhash_c-finds :
      (e : Env) (n : ℕ) (out : Scanned)
      → n < 2 ^ 32
      → of_scan w
          (scanhash_c (regs_of w.midstate) (regs_of w.target) n e.beyond e.restart (block_of w))
        ≡ scanned out
      → out.rc ≡ true
      → IsSolved (e.beyond (nonce_of out.work)) out.work
  unfolding of_scan
  scanhash_c-finds e n out small run good =
      let (digest, digests, search) =
        scanhash_c-first-IsDigest (regs_of w.midstate) (regs_of w.target) n e.beyond e.restart
          (block_of w) (buffers e) small in
      let m = search.last in
      let same = scanned_injective _ out (sym (ap (of_scan w) search.returns) ∙ run) in
      let zero_word : (digest m).h ≡ 0 =
        (==_iff (digest m).h 0).0 (ap (λ (o : Scanned). o.rc) same ∙ good) in
      let small_m : IsWord m = omega (arith, search.bounded) in
      let nonce : nonce_of (stored w (set (block_of w) 3 m) (digest m)) ≡ m =
        ap (λ b. get_or b 3 0) (block_of-stored m (digest m) small_m)
        ∙ get_or-set_self (block_of w) 3 m 0 (omega arith) in
      subst (λ (u : Work). IsSolved (e.beyond (nonce_of u)) u) (ap (λ (o : Scanned). o.work) same)
        (rw nonce (
          stored-IsSolved (e.beyond m) m (digest m) (digest m) small_m (digests m search.bounded)
            zero_word))
