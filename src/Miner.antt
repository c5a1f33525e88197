-- ===== src/Miner.antt =====
-- The `switch` over the algorithms in `miner_thread` of cpu-miner.c: the scan of a work unit. The scans
-- work on the buffers as words; a `uint32_t *` into a buffer of bytes reads them with the lowest byte
-- first, as on the hosts of the program.
pub mod Buffers
pub mod Solved
pub mod Finds
pub mod Submits
use cpuminer.Base.{
  ℕ, zero, suc, ◌+◌, ◌-◌, ◌*◌, ◌/◌, ◌%◌, ◌^◌, ◌==◌, if◌then◌else◌, Bool, true, false, not, Option,
  none, some, List, [], ◌∷◌, ◌++◌, length, get_or, take, drop, IsWord, ◌≤◌,
}
use cpuminer.Sha.{Regs, words}
use cpuminer.Work.{Work}
use cpuminer.Options.{
  Algo, algo_c, algo_4way, algo_via, algo_cryptopp, algo_cryptopp_asm32, algo_sse2_64,
}
use cpuminer.Scan
use cpuminer.Scan.{scanhash_c, scanhash_cryptopp}
use cpuminer.FourWay.Scan as Batches
use cpuminer.FourWay.Scan.{scan_hash_4way_sse2}
use cpuminer.Amd64.{Calc, scanhash_sse2_64}
use cpuminer.Asm32.{scanhash_asm32}
use cpuminer.Via
use cpuminer.Via.{scanhash_via}
use cpuminer.Threads.{Scanned, Switched, scanned, unknown_algo, undefined}

-- The first `n` words of a buffer, and the bytes of words.
abbrev pub words_of : ℕ → List ℕ → List ℕ
words_of zero bs = []
words_of (suc n) bs =
    (get_or bs 0 0 + 256 * get_or bs 1 0 + 65536 * get_or bs 2 0 + 16777216 * get_or bs 3 0)
    ∷ words_of n (drop 4 bs)

abbrev pub bytes_of : List ℕ → List ℕ
bytes_of [] = []
bytes_of (w ∷ ws) = w % 256 ∷ w / 256 % 256 ∷ w / 65536 % 256 ∷ w / 16777216 % 256 ∷ bytes_of ws

abbrev pub regs_of : List ℕ → Regs
regs_of bs =
    let at = λ (i : ℕ). get_or (words_of 8 bs) i 0 in
    record { a = at 0; b = at 1; c = at 2; d = at 3; e = at 4; f = at 5; g = at 6; h = at 7 }

-- `work.data + 64` as words.
abbrev pub block_of : Work → List ℕ
block_of w = words_of 16 (drop 64 w.data_bytes)

-- What a scan depends on beside its arguments: the words of the stack behind the local `hash1` in each
-- round, at least eight of them, when a restart is asked for, and how many batches the four-way scan
-- makes at most.
pub record Env : Type 0 where
  pub beyond : ℕ → List ℕ
  pub beyond_words : (n t : ℕ) → IsWord (get_or (beyond n) t 0)
  pub beyond_length : (n : ℕ) → 8 ≤ length (beyond n)
  pub restart : ℕ → Bool
  pub fuel : ℕ

-- The work unit after a scan that has written the block and the hash.
abbrev pub stored : Work → List ℕ → Regs → Work
stored w block hash = record w {
  data_bytes = take 64 w.data_bytes ++ bytes_of block;
  hash = bytes_of (words hash);
}

unfoldable pub of_scan : Work → Scan.Run → Switched
of_scan w (Scan.done o) =
    scanned (record { rc = o.found; hashes_done = o.hashes_done; work = stored w o.block o.hash })
of_scan w Scan.fault = undefined
of_scan w Scan.out_of_fuel = undefined

-- `rc = (rc4 == -1) ? false : true;`
unfoldable pub of_batches : Work → Batches.Run → Switched
of_batches w (Batches.done o) = scanned (record {
  rc = not (o.returned == 2 ^ 32 - 1);
  hashes_done = o.hashes_done;
  work = stored w o.block o.hash;
})
of_batches w Batches.fault = undefined
of_batches w Batches.out_of_fuel = undefined

unfoldable pub of_via : Work → Option Via.Scanned → Switched
of_via w none = undefined
of_via w (some o) = scanned (record {
  rc = o.found;
  hashes_done = o.hashes_done;
  work = record w { data_bytes = bytes_of o.data_inout };
})

-- `built` are the algorithms that the program is built with; the assembly routines and the instruction
-- of VIA are parameters, as in the modules of the scans.
module _ (built : Algo → Bool) (calc : Calc) (hash_blocks : Regs → List ℕ → Regs)
    (via_sha256 : Regs → List ℕ → ℕ → Regs) where
  unfoldable pub scan_switch : Algo → Env → ℕ → Work → Switched
  scan_switch algo_c e max_nonce w =
      of_scan w (
        scanhash_c (regs_of w.midstate) (regs_of w.target) max_nonce e.beyond e.restart
          (block_of w))
  scan_switch algo_sse2_64 e max_nonce w =
      if built algo_sse2_64
      then of_batches w (
          scanhash_sse2_64 (regs_of w.target) max_nonce e.restart calc (regs_of w.midstate)
            (max_nonce / 4 + 1) (block_of w) (words_of 16 w.hash1) (regs_of w.hash))
      else unknown_algo
  scan_switch algo_4way e max_nonce w =
      if built algo_4way
      then of_batches w (
          scan_hash_4way_sse2 (regs_of w.midstate) (words_of 16 w.hash1) (regs_of w.target)
            max_nonce e.restart e.fuel (block_of w) (regs_of w.hash))
      else unknown_algo
  scan_switch algo_via e max_nonce w =
      if built algo_via
      then of_via w (
          scanhash_via via_sha256 (regs_of w.target) max_nonce e.restart (words_of 32 w.data_bytes))
      else unknown_algo
  scan_switch algo_cryptopp e max_nonce w = of_scan w (
      scanhash_cryptopp (regs_of w.midstate) (regs_of w.target) max_nonce e.beyond e.restart
        (block_of w))
  scan_switch algo_cryptopp_asm32 e max_nonce w =
      if built algo_cryptopp_asm32
      then of_scan w (
          scanhash_asm32 hash_blocks (regs_of w.midstate) (regs_of w.target) max_nonce e.beyond
            e.restart (block_of w))
      else unknown_algo
