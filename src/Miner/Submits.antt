-- ===== src/Miner/Submits.antt =====
-- From the server's answers to what is submitted: all threads together.
use cpuminer.Base.{
  ℕ, ◌≤◌, ◌≡◌, refl, sym, ◌∙◌, ap, Bool, true, false, Bool-cases, inl, inr, List, map, drop, All,
  arith,
}
use cpuminer.Base.Int.{ℤ}
use cpuminer.Sha.{Regs}
use cpuminer.Work.{Work, Json}
use cpuminer.Workio.Fresh.{IsFresh, workio_get_work-IsFresh}
use cpuminer.Target.{swab32}
use cpuminer.Options.{
  Algo, algo_c, algo_4way, algo_via, algo_cryptopp, algo_cryptopp_asm32, algo_sse2_64,
}
use cpuminer.Amd64.{Calc}
use cpuminer.Amd64.Rounds.{IsCompress}
use cpuminer.Asm32.Search.{IsHashBlocks, scanhash_asm32-eq-scanhash_c}
use cpuminer.Scan.Digest.{scanhash_cryptopp-eq-scanhash_c}
use cpuminer.Via.{double_hash}
use cpuminer.Threads.{System, Scanned, Switched, scanned, Reach}
use cpuminer.Threads.Submitted.{max_limit, IsFoundCmd, IsFoundIn, Reach-AreFound}
use cpuminer.Miner.{Env, words_of, regs_of, block_of, of_scan, scan_switch}
use cpuminer.Miner.Solved.{IsSolved, nonce_of, buffers, scanhash_c-finds}
use cpuminer.Miner.Finds.{batches-find, scanhash_sse2_64-finds, scanhash_via-finds}

-- What a scan of that algorithm has found. Behind the first hash stand the last eight words of `hash1`
-- with the two vector scans, and with those in C and the 32-bit assembly the words `beyond n` that
-- stood in memory in the round of the nonce `n`; the instruction of VIA pads by itself.
abbrev pub IsSolution : (Regs → List ℕ → ℕ → Regs) → (ℕ → List ℕ) → Algo → Work → Type 0
IsSolution via_sha256 beyond algo_c w = IsSolved (beyond (nonce_of w)) w
IsSolution via_sha256 beyond algo_cryptopp w = IsSolved (beyond (nonce_of w)) w
IsSolution via_sha256 beyond algo_cryptopp_asm32 w = IsSolved (beyond (nonce_of w)) w
IsSolution via_sha256 beyond algo_4way w = IsSolved (drop 8 (words_of 16 w.hash1)) w
IsSolution via_sha256 beyond algo_sse2_64 w = IsSolved (drop 8 (words_of 16 w.hash1)) w
IsSolution via_sha256 beyond algo_via w =
    (double_hash via_sha256 (regs_of w.target) 0 (λ n. false)
      (map swab32 (words_of 32 w.data_bytes))).h
    ≡ 0

-- What a scan depends on, where the memory behind `hash1` is as `Stack` says.
pub record EnvIn (Stack : (ℕ → List ℕ) → Type 0) : Type 0 where
  pub env : Env
  pub stack : Stack env.beyond

module _ (built : Algo → Bool) (calc : Calc) (hash_blocks : Regs → List ℕ → Regs)
    (via_sha256 : Regs → List ℕ → ℕ → Regs) (Stack : (ℕ → List ℕ) → Type 0) (algo : Algo) where
  abbrev pub scan_in : EnvIn Stack → ℕ → Work → Switched
  scan_in a = scan_switch built calc hash_blocks via_sha256 algo a.env

  -- A scan of a work unit from the server has succeeded and left `w`, with a solution in it.
  pub record IsFound (w : Work) : Type 0 where
    pub around : EnvIn Stack
    pub max_nonce : ℕ
    pub given : Work
    pub out : Scanned
    pub fresh : IsFresh given
    pub run : scan_in around max_nonce given ≡ scanned out
    pub success : out.rc ≡ true
    pub left : out.work ≡ w
    pub solution : IsSolution via_sha256 around.env.beyond algo w

module _ (built : Algo → Bool) (calc : Calc) (calc_ok : IsCompress calc)
    (hash_blocks : Regs → List ℕ → Regs) (blocks_ok : IsHashBlocks hash_blocks)
    (via_sha256 : Regs → List ℕ → ℕ → Regs) where
  scan_switch-IsSolution :
      (algo : Algo) (e : Env) (n : ℕ) (w : Work) (out : Scanned)
      → n ≤ max_limit
      → IsFresh w
      → scan_switch built calc hash_blocks via_sha256 algo e n w ≡ scanned out
      → out.rc ≡ true
      → IsSolution via_sha256 e.beyond algo out.work
  unfolding scan_switch double_hash
  scan_switch-IsSolution algo_c e n w out low fresh run good =
      scanhash_c-finds w fresh e n out (omega arith) run good
  scan_switch-IsSolution algo_cryptopp e n w out low fresh run good =
      let same =
        scanhash_cryptopp-eq-scanhash_c (regs_of w.midstate) (regs_of w.target) n e.beyond e.restart
          (block_of w) (buffers w fresh e) (omega arith) in
      scanhash_c-finds w fresh e n out (omega arith) (ap (of_scan w) (sym same) ∙ run) good
  scan_switch-IsSolution algo_cryptopp_asm32 e n w out low fresh run good =
      elim (Bool-cases (built algo_cryptopp_asm32)) [
        | inl here ↦
            let same =
              scanhash_asm32-eq-scanhash_c hash_blocks blocks_ok (regs_of w.midstate)
                (regs_of w.target) n e.beyond e.restart (block_of w) (buffers w fresh e)
                (omega arith) in
            scanhash_c-finds w fresh e n out (omega arith)
              (ap (of_scan w) (sym same) ∙ rw here at run) good
        | inr missing ↦ absurd (let no_scan = rw missing at run in cc)
      ]
  scan_switch-IsSolution algo_4way e n w out low fresh run good =
      elim (Bool-cases (built algo_4way)) [
        | inl here ↦ batches-find w fresh out good e n (rw here at run)
        | inr missing ↦ absurd (let no_scan = rw missing at run in cc)
      ]
  scan_switch-IsSolution algo_sse2_64 e n w out low fresh run good =
      elim (Bool-cases (built algo_sse2_64)) [
        | inl here ↦
            scanhash_sse2_64-finds w fresh out good calc calc_ok e n (omega arith) (rw here at run)
        | inr missing ↦ absurd (let no_scan = rw missing at run in cc)
      ]
  scan_switch-IsSolution algo_via e n w out low fresh run good =
      elim (Bool-cases (built algo_via)) [
        | inl here ↦
            scanhash_via-finds w fresh out good via_sha256 e n (omega arith) (rw here at run)
        | inr missing ↦ absurd (let no_scan = rw missing at run in cc)
      ]

  -- Whatever the server answers and in whatever order the threads run: every work unit that the mining
  -- threads have put into the queue of the work thread, or that the work thread is submitting, is
  -- what a successful scan of a work unit with the right sizes has left, and it is solved: with the
  -- nonce in it, the double hash of its block ends in a zero word. Behind the first hash stands the
  -- padding of `hash1` with the two vector scans, and what that very scan read behind its local
  -- `hash1` in the round of the nonce with the scans in C and the 32-bit assembly, which is as
  -- `Stack` says, whatever that is; with VIA the double hash is that of the instruction. The two
  -- assembly routines are the compression function.
  pub Reach-IsSolution :
      (Stack : (ℕ → List ℕ) → Type 0) (algo : Algo) (opt_n_threads : ℕ) (json : Json)
      (opt_retries : ℤ) (entries_ok : Bool) {s : System}
      → Reach
          (scan_in built calc hash_blocks via_sha256 Stack algo)
          opt_n_threads
          json
          opt_retries
          entries_ok
          s
      → All (IsFoundCmd (IsFound built calc hash_blocks via_sha256 Stack algo)) s.commands.items
        × IsFoundIn (IsFound built calc hash_blocks via_sha256 Stack algo) s.workio
  Reach-IsSolution Stack algo opt_n_threads json opt_retries entries_ok r =
      let found =
        Reach-AreFound (scan_in built calc hash_blocks via_sha256 Stack algo) IsFresh
          (IsFound built calc hash_blocks via_sha256 Stack algo)
          (λ a n w out low fresh run good. record {
            around = a;
            max_nonce = n;
            given = w;
            out = out;
            fresh = fresh;
            run = run;
            success = good;
            left = refl;
            solution = scan_switch-IsSolution algo a.env n w out low fresh run good;
          })
          opt_n_threads json opt_retries entries_ok
          (λ fuel calloc_ok pushed ok rpc w e.
            workio_get_work-IsFresh json fuel opt_retries calloc_ok pushed ok rpc w e)
          r in
      (found.queued, found.in_hand)
