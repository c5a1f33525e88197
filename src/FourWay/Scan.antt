-- ===== src/FourWay/Scan.antt =====
-- `ScanHash_4WaySSE2` of sha256_4way.c: batches of 32 nonces.
use cpuminer.Base.{
  ℕ, zero, suc, ◌+◌, ◌-◌, ◌/◌, ◌^◌, ◌==◌, leb, u32, if◌then◌else◌, Bool, ◌||◌, Option, none, some,
  List, get_or, set,
}
use cpuminer.Sha.{Regs}
use cpuminer.Sha.Generic.{sha256_init_state}
use cpuminer.Target.{fulltest}
use cpuminer.Simd.{lane, lane_at}
use cpuminer.FourWay.{Group, zeros, vars_lane, double_block_sha256}

-- `thash` before it is written.
abbrev pub unset : Group
unset = record {
  hash = record {
    a = zeros;
    b = zeros;
    c = zeros;
    d = zeros;
    e = zeros;
    f = zeros;
    g = zeros;
    h = zeros;
  };
  nonce = zeros;
}

-- `thash[0..7][j]` and `thash[8][j]`: word `j % 4` of the vectors of pass `j / 4`.
unfoldable pub thash_at : List Group → ℕ → Regs
thash_at gs j = vars_lane (lane_at j) (get_or gs (j / 4) unset).hash

unfoldable pub nonce_at : List Group → ℕ → ℕ
nonce_at gs j = lane (lane_at j) (get_or gs (j / 4) unset).nonce

-- How the loop over `j` ends, with what stands in `phash`.
pub data Checked : Type 0 where
  hit : ℕ → Regs → Checked
  missed : Regs → Checked

-- The iterations that are left, from `j` on.
unfoldable pub check_loop : ℕ → ℕ → List Group → Regs → Regs → Checked
check_loop zero j gs target phash = missed phash
check_loop (suc left) j gs target phash =
    let thash = thash_at gs j in
    let rest = check_loop left (suc j) gs target (if thash.h == 0 then thash else phash) in
    if thash.h == 0 then if (fulltest thash target).returned then hit j thash else rest else rest

-- What is left when the scan returns: its result, `*nHashesDone`, the data block and `phash`.
pub record Outcome : Type 0 where
  pub returned : ℕ
  pub hashes_done : ℕ
  pub block : List ℕ
  pub hash : Regs

-- `fault` is a read outside a buffer.
pub data Run : Type 0 where
  done : Outcome → Run
  fault out_of_fuel : Run

-- The rest of a batch whose nonces start at `nonce`: -1 is the largest `unsigned int`.
unfoldable pub finish :
    (max_nonce : ℕ) (restart : Bool) (nonce : ℕ) (block : List ℕ) → (Regs → Run) → Checked → Run
finish max_nonce restart nonce block again (hit j phash) = done (record {
  returned = u32 (nonce + j);
  hashes_done = nonce;
  block = set block 3 (u32 (nonce + j));
  hash = phash;
})
finish max_nonce restart nonce block again (missed phash) =
    if leb max_nonce nonce || restart
    then done (record { returned = 2 ^ 32 - 1; hashes_done = nonce; block = block; hash = phash })
    else again phash

infixl 5 ◌>>=◌
abbrev pub ◌>>=◌ : Option (List Group) → (List Group → Run) → Run
none >>= f = fault
some gs >>= f = f gs

-- `restart i` is what batch `i` reads in `work_restart[thr_id].restart`.
module _ (midstate : Regs) (hash1 : List ℕ) (target : Regs) (max_nonce : ℕ)
    (restart : ℕ → Bool) where
  -- The loop before batch `i`, with the nonce of the batch before.
  unfoldable pub batch_loop : ℕ → ℕ → ℕ → List ℕ → Regs → Run
  batch_loop zero i nonce block phash = out_of_fuel
  batch_loop (suc fuel) i nonce block phash =
      let nonce' = u32 (nonce + 32) in
      let block' = set block 3 nonce' in
      let again = batch_loop fuel (suc i) nonce' block' in
      do
        gs ← double_block_sha256 block' hash1 midstate sha256_init_state
        finish max_nonce (restart i) nonce' block' again (check_loop 32 0 gs target phash)

  unfoldable pub scan_hash_4way_sse2 : ℕ → List ℕ → Regs → Run
  scan_hash_4way_sse2 fuel block phash = batch_loop fuel 1 0 block phash
