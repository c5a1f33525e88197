-- ===== src/Scan.antt =====
-- The nonce searches `scanhash_c` of sha256_generic.c and `scanhash_cryptopp` of sha256_cryptopp.c.
-- `scan_loop` is the loop of the first, with its transform as a parameter.
pub mod Search
pub mod Digest
use cpuminer.Base.{
  ℕ, zero, suc, ◌+◌, ◌%◌, ◌^◌, ◌==◌, leb, u32, if◌then◌else◌, Bool, true, false, ◌&&◌, ◌||◌, Option,
  none, some, List, ◌++◌, set,
}
use cpuminer.Sha.{Regs, words}
use cpuminer.Sha.Generic
use cpuminer.Sha.Cryptopp
use cpuminer.Target.{fulltest}

-- What is left when a scan returns: its result, `*hashes_done`, the data block with the nonce in
-- its word 3, and the hash buffer.
pub record Outcome : Type 0 where
  pub found : Bool
  pub hashes_done : ℕ
  pub block : List ℕ
  pub hash : Regs

-- `fault` is a read outside a buffer.
pub data Run : Type 0 where
  done : Outcome → Run
  fault out_of_fuel : Run

infixl 5 ◌>>=◌
abbrev pub ◌>>=◌ : Option Regs → (Regs → Run) → Run
none >>= f = fault
some r >>= f = f r

abbrev pub Transform : Type 0
Transform = Regs → List ℕ → Option Regs

-- `memcpy(state, init, 32)`, then the transform in place.
abbrev pub runhash : Transform → List ℕ → Regs → Option Regs
runhash transform input init = transform init input

-- `beyond n` is what stands in memory behind the 32 bytes of `hash1` in round `n`, and `restart n`
-- what that round reads in `work_restart[thr_id].restart`.
module _ (transform : Transform) (midstate target : Regs) (max_nonce : ℕ) (beyond : ℕ → List ℕ)
    (restart : ℕ → Bool) where
  pub scan_loop : ℕ → ℕ → ℕ → List ℕ → Run
  scan_loop zero n stat_ctr block = out_of_fuel
  scan_loop (suc fuel) n stat_ctr block =
      let n' = u32 (n + 1) in
      let block' = set block 3 n' in
      let stat_ctr' = (stat_ctr + 1) % 2 ^ 64 in
      let again = scan_loop fuel n' stat_ctr' block' in
      do
        hash1 ← runhash transform block' midstate
        hash ← runhash transform (words hash1 ++ beyond n') Generic.sha256_init_state
        let stopped : Outcome = record {
          found = false;
          hashes_done = stat_ctr';
          block = block';
          hash = hash;
        }
        let more = if leb max_nonce n' || restart n' then done stopped else again
        if (hash.h == 0) && (fulltest hash target).returned
            then done (record stopped { found = true })
            else more

  -- A round ends the loop once `n` has reached `max_nonce`.
  pub scan : List ℕ → Run
  scan block = scan_loop (suc max_nonce) 0 0 block

pub scanhash_c : Regs → Regs → ℕ → (ℕ → List ℕ) → (ℕ → Bool) → List ℕ → Run
scanhash_c = scan Generic.sha256_transform

-- `runhash` of sha256_cryptopp.c.
abbrev pub runhash_cryptopp : List ℕ → Regs → Option Regs
runhash_cryptopp input init = Cryptopp.sha256_transform init input

module _ (midstate target : Regs) (max_nonce : ℕ) (beyond : ℕ → List ℕ) (restart : ℕ → Bool) where
  -- The loop of `scanhash_cryptopp`.
  unfoldable pub cryptopp_loop : ℕ → ℕ → ℕ → List ℕ → Run
  cryptopp_loop zero n stat_ctr block = out_of_fuel
  cryptopp_loop (suc fuel) n stat_ctr block =
      let n' = u32 (n + 1) in
      let block' = set block 3 n' in
      let stat_ctr' = (stat_ctr + 1) % 2 ^ 64 in
      let again = cryptopp_loop fuel n' stat_ctr' block' in
      do
        hash1 ← runhash_cryptopp block' midstate
        hash ← runhash_cryptopp (words hash1 ++ beyond n') Generic.sha256_init_state
        if (hash.h == 0) && (fulltest hash target).returned
            then done
                (record { found = true; hashes_done = stat_ctr'; block = block'; hash = hash })
            else if leb max_nonce n' || restart n'
            then done
                (record { found = false; hashes_done = stat_ctr'; block = block'; hash = hash })
            else again

  unfoldable pub scanhash_cryptopp : List ℕ → Run
  scanhash_cryptopp block = cryptopp_loop (suc max_nonce) 0 0 block
