-- ===== src/Via.antt =====
-- `scanhash_via` of sha256_via.c. The hash instruction of the processor is a parameter: the state, the
-- words of the buffer and the number of bytes that it hashes.
pub mod Search
use cpuminer.Base.{
  ℕ, zero, suc, ◌+◌, ◌%◌, ◌^◌, ◌==◌, leb, u32, if◌then◌else◌, Bool, true, false, ◌&&◌, ◌||◌, Option,
  none, some, List, map, set,
}
use cpuminer.Sha.{Regs, words}
use cpuminer.Sha.Generic
use cpuminer.Target.{swab32, fulltest}

-- The result, `*hashes_done` and the words of the caller's data.
pub record Scanned : Type 0 where
  pub found : Bool
  pub hashes_done : ℕ
  pub data_inout : List ℕ

module _ (via_sha256 : Regs → List ℕ → ℕ → Regs) (target : Regs) (max_nonce : ℕ)
    (restart : ℕ → Bool) where
  -- Both transforms of a round.
  unfoldable pub double_hash : List ℕ → Regs
  double_hash data32 =
      let tmp_hash1 = via_sha256 Generic.sha256_init_state data32 80 in
      via_sha256 Generic.sha256_init_state (map swab32 (words tmp_hash1)) 32

  -- `none` is the end of the fuel.
  unfoldable pub via_loop : ℕ → ℕ → ℕ → List ℕ → List ℕ → Option Scanned
  via_loop zero n stat_ctr data_inout data32 = none
  via_loop (suc fuel) n stat_ctr data_inout data32 =
      let n' = u32 (n + 1) in
      let data32' = set data32 19 n' in
      let stat_ctr' = (stat_ctr + 1) % 2 ^ 64 in
      let again = via_loop fuel n' stat_ctr' data_inout data32' in
      let tmp_hash = double_hash data32' in
      if (tmp_hash.h == 0) && (fulltest tmp_hash target).returned
      then some (record { found = true; hashes_done = stat_ctr'; data_inout = map swab32 data32' })
      else if leb max_nonce n' || restart n'
      then some (record { found = false; hashes_done = stat_ctr'; data_inout = data_inout })
      else again

  unfoldable pub scanhash_via : List ℕ → Option Scanned
  scanhash_via data_inout = via_loop (suc max_nonce) 0 0 data_inout (map swab32 data_inout)
