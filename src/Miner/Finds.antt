-- ===== src/Miner/Finds.antt =====
-- A scan that reports success has found a solution: the work unit that it leaves has a nonce with which
-- the double hash of its block ends in a zero word.
use cpuminer.Base.{
  ℕ, ◌+◌, ◌-◌, ◌*◌, ◌/◌, ◌^◌, ◌<◌, ◌≤◌, ◌≡◌, ◌≢◌, ◌==◌, refl, sym, ap, ◌∙◌, inl, inr, true, not,
  List, map, set, drop, IsWord, All, arith, ==_iff,
}
use mathlib.Core.Path.{subst}
use cpuminer.Sha.{Regs}
use cpuminer.Work.{Work}
use cpuminer.Workio.Fresh.{IsFresh}
use cpuminer.Target.{swab32}
use cpuminer.Scan.Digest.{IsDigest}
use cpuminer.FourWay.Scan as Batches
use cpuminer.FourWay.Scan.{scan_hash_4way_sse2}
use cpuminer.FourWay.Batch.{digest_of, digest_of-IsDigest}
use cpuminer.FourWay.Sound.{IsSound, scan_hash_4way_sse2-IsSound}
use cpuminer.Amd64.{Calc, scanhash_sse2_64}
use cpuminer.Amd64.Rounds.{IsCompress}
use cpuminer.Amd64.Search.{scanhash_sse2_64-IsRoundSearch}
use cpuminer.Target.Order.{swab32_bytes}
use cpuminer.Via.{double_hash, scanhash_via}
use cpuminer.Via.Search.{last_word, scanhash_via-IsViaSearch, swab32-swab32, map-set}
use cpuminer.Threads.{Scanned, scanned}
use cpuminer.Miner.{Env, words_of, bytes_of, regs_of, block_of, stored, of_batches, of_via}
use cpuminer.Miner.Solved.{IsSolved, scanned_injective, stored-IsSolved, inputs}
use cpuminer.Miner.Buffers.{words_of-IsWord, All-set, words_of-bytes_of}

module _ (w : Work) (fresh : IsFresh w) where
  module _ (out : Scanned) (good : out.rc ≡ true) where
    of_batches-done :
        (o : Batches.Outcome)
        → of_batches w (Batches.done o) ≡ scanned out
        → record {
          rc = not (o.returned == 2 ^ 32 - 1);
          hashes_done = o.hashes_done;
          work = stored w o.block o.hash;
        }
          ≡ out
    unfolding of_batches
    of_batches-done o e = scanned_injective _ out e

    of_batches-out : of_batches w Batches.out_of_fuel ≢ scanned out
    unfolding of_batches
    of_batches-out e = absurd cc

    -- The result -1 is no success.
    minus_one :
        (o : Batches.Outcome)
        → of_batches w (Batches.done o) ≡ scanned out
        → o.returned ≢ 2 ^ 32 - 1
    minus_one o e nothing =
        let rc = ap (λ (r : Scanned). r.rc) (of_batches-done o e) in ground arith

    -- The four-way scan, with any limit.
    pub batches-find :
        (e : Env) (n : ℕ)
        → of_batches w (
            scan_hash_4way_sse2
              (regs_of w.midstate)
              (words_of 16 w.hash1)
              (regs_of w.target)
              n
              e.restart
              e.fuel
              (block_of w)
              (regs_of w.hash))
          ≡ scanned out
        → IsSolved (drop 8 (words_of 16 out.work.hash1)) out.work
    batches-find e n run =
        sound_run _
          (scan_hash_4way_sse2-IsSound (regs_of w.midstate) (words_of 16 w.hash1) (regs_of w.target)
            n e.restart (block_of w) (inputs w fresh) (regs_of w.hash) digest digests e.fuel)
          run
      where
        digest : ℕ → Regs
        digest = digest_of (regs_of w.midstate) (block_of w) (words_of 16 w.hash1) (inputs w fresh)

        digests :
            (m : ℕ)
            → IsWord m
            → IsDigest (regs_of w.midstate) (block_of w) (drop 8 (words_of 16 w.hash1)) m (digest m)
        digests =
            digest_of-IsDigest (regs_of w.midstate) (block_of w) (words_of 16 w.hash1)
              (inputs w fresh)

        sound_run :
            (r : Batches.Run)
            → IsSound (block_of w) digest r
            → of_batches w r ≡ scanned out
            → IsSolved (drop 8 (words_of 16 out.work.hash1)) out.work
        sound_run (Batches.done o) (inl nothing) e' = absurd (minus_one o e' nothing)
        sound_run (Batches.done o) (inr (small, z, b)) e' =
            let same = of_batches-done o e' in
            subst (λ (u : Work). IsSolved (drop 8 (words_of 16 u.hash1)) u)
              (ap (λ l. stored w l o.hash) (sym b) ∙ ap (λ (r : Scanned). r.work) same)
              (stored-IsSolved w fresh (drop 8 (words_of 16 w.hash1)) o.returned (digest o.returned)
                o.hash small (digests o.returned small) z)
        sound_run Batches.fault s e' = absurd s
        sound_run Batches.out_of_fuel s e' = absurd (of_batches-out e')

    pub scanhash_sse2_64-finds :
        (calc : Calc)
        → IsCompress calc
        → (e : Env) (n : ℕ) → n ≤ 2 ^ 32 - 4
        → of_batches w (
            scanhash_sse2_64
              (regs_of w.target)
              n
              e.restart
              calc
              (regs_of w.midstate)
              (n / 4 + 1)
              (block_of w)
              (words_of 16 w.hash1)
              (regs_of w.hash))
          ≡ scanned out
        → IsSolved (drop 8 (words_of 16 out.work.hash1)) out.work
    scanhash_sse2_64-finds calc calc_ok e n small run =
        let (digest, digests, search) =
          scanhash_sse2_64-IsRoundSearch calc calc_ok (regs_of w.midstate) (words_of 16 w.hash1)
            (regs_of w.target) n e.restart (block_of w) (inputs w fresh) (regs_of w.hash) small in
        elim search.ends [
          | inl found ↦
              let m = 4 * search.last + found.index in
              let word : IsWord m = omega (arith, search.bounded, found.in_round) in
              let same = of_batches-done _ (sym (ap (of_batches w) found.returns) ∙ run) in
              subst (λ (u : Work). IsSolved (drop 8 (words_of 16 u.hash1)) u)
                (ap (λ (r : Scanned). r.work) same)
                (stored-IsSolved w fresh (drop 8 (words_of 16 w.hash1)) m (digest m) (digest m) word
                  (digests m word) found.counts)
          | inr stopped ↦ absurd (minus_one _ (sym (ap (of_batches w) stopped.returns) ∙ run) refl)
        ]

    -- The words of the caller's data before and after `scanhash_via`, with their bytes swapped.
    pub scanhash_via-finds :
        (via_sha256 : Regs → List ℕ → ℕ → Regs) (e : Env) (n : ℕ)
        → n < 2 ^ 32
        → of_via w
            (scanhash_via via_sha256 (regs_of w.target) n e.restart (words_of 32 w.data_bytes))
          ≡ scanned out
        → (double_hash via_sha256
            (regs_of w.target)
            n
            e.restart
            (map swab32 (words_of 32 out.work.data_bytes))).h
          ≡ 0
    unfolding of_via
    scanhash_via-finds via_sha256 e n small run =
        let search =
          scanhash_via-IsViaSearch via_sha256 (regs_of w.target) n e.restart data32 small
            data_words in
        let m = search.last in
        let word : IsWord m = omega (arith, search.bounded) in
        let same = scanned_injective _ out (sym (ap (of_via w) search.returns) ∙ run) in
        let found : (last_word via_sha256 (regs_of w.target) n e.restart data32 small data_words m
              == 0)
            ≡ true =
          ap (λ (o : Scanned). o.rc) same ∙ good in
        let zero_word = (==_iff _ 0).0 found in
        let work : bytes_of (set data32 19 (swab32 m)) ≡ out.work.data_bytes =
          rw (← same, found) refl in
        rw (← work, back m word) zero_word
      where
        data32 : List ℕ
        data32 = words_of 32 w.data_bytes

        data_words : All IsWord data32
        data_words = words_of-IsWord 32 w.data_bytes fresh.bytes.data_bytes

        back :
            (m : ℕ)
            → IsWord m
            → map swab32 (words_of 32 (bytes_of (set data32 19 (swab32 m))))
              ≡ set (map swab32 data32) 19 m
        back m word =
            let fits : IsWord (swab32 m) = rw (swab32_bytes m word) (omega arith) in
            ap (map swab32) (
              words_of-bytes_of 32 (set data32 19 (swab32 m)) refl
                (All-set data32 19 (swab32 m) data_words fits))
            ∙ map-set swab32 data32 19 (swab32 m)
            ∙ ap (set (map swab32 data32) 19) (swab32-swab32 m word)
