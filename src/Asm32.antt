-- ===== src/Asm32.antt =====
-- `SHA256_Transform32` and `scanhash_asm32` of sha256_cryptopp.c, which has the text of the other scans.
-- The assembly routine `X86_SHA256_HashBlocks` is a parameter: from the state and the sixteen words
-- that it is given it computes the new state. `none` is a read outside the input, which C leaves
-- undefined.
pub mod Search
use cpuminer.Base.{ℕ, zero, suc, Bool, Option, none, some, List, get_elem?, set, replicate, ◌>>=◌}
use cpuminer.Sha.{Regs}
use cpuminer.Target.{swab32}
use cpuminer.Scan.{Run, Transform, scan}

-- `for (i = 0; i < 16; i++) W[i] = swab32(data[i]);` with the rounds that are left.
unfoldable pub swap_loop : ℕ → ℕ → List ℕ → List ℕ → Option (List ℕ)
swap_loop zero i input w = some w
swap_loop (suc left) i input w = do
  x ← get_elem? input i
  swap_loop left (suc i) input (set w i (swab32 x))

module _ (hash_blocks : Regs → List ℕ → Regs) where
  unfoldable pub sha256_transform32 : Transform
  sha256_transform32 state input = do
    w ← swap_loop 16 0 input (replicate 16 0)
    some (hash_blocks state w)

  pub scanhash_asm32 : Regs → Regs → ℕ → (ℕ → List ℕ) → (ℕ → Bool) → List ℕ → Run
  scanhash_asm32 = scan sha256_transform32
