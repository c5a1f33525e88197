-- ===== src/Tests/Scans.antt =====
-- Scans of a block of zeros.
use cpuminer.Base.{
  some, set, true, ℕ, ◌≡◌, ◌≤◌, refl, Bool, false, List, [], ◌∷◌, replicate, get_or, IsWord, zero,
  suc, arith,
}
use Prim.Native.Nat.{max}
use cpuminer.Sha.{Regs}
use cpuminer.Sha.Generic
use cpuminer.Scan.{fault, scanhash_c, scanhash_cryptopp}
use cpuminer.Target.{swab32, bswap_16, fulltest}
use cpuminer.Via.{scanhash_via, via_loop, double_hash}
use cpuminer.Via.Search.{IsViaSearch, scanhash_via-IsViaSearch}
use cpuminer.Scan.Search.{IsSearch}
use cpuminer.Scan.Digest.{
  AreBuffers, IsDigest, scanhash_c-first-IsDigest, scanhash_cryptopp-eq-scanhash_c,
  scanhash_c_overread,
}

abbrev pub block : List ℕ
block = replicate 32 0

-- The padding words that the server's `hash1` has behind its first 32 bytes.
abbrev pub padding : ℕ → List ℕ
padding n = 0x80000000 ∷ 0 ∷ 0 ∷ 0 ∷ 0 ∷ 0 ∷ 0 ∷ 0x100 ∷ []

abbrev pub never : ℕ → Bool
never n = false

get_or_zeros : (n t : ℕ) → ◌≡◌ {A = ℕ} (get_or (replicate n 0) t 0) 0
get_or_zeros zero t = refl
get_or_zeros (suc n) zero = refl
get_or_zeros (suc n) (suc t) = get_or_zeros n t

pub padding_words : (n t : ℕ) → IsWord (get_or (padding n) t 0)
padding_words n t = ground arith

pub buffers : AreBuffers Generic.sha256_init_state block padding
buffers = record {
  midstate_words = omega arith;
  block_words = λ t. rw (get_or_zeros 32 t) (omega arith);
  block_length = omega arith;
  beyond_words = padding_words;
  beyond_length = λ n. omega arith;
}

scanhash_c-first-IsDigest_example :
    (digest : ℕ → Regs) × ((n : ℕ)
      → n ≤ max 1 5
      → IsDigest Generic.sha256_init_state block (padding n) n (digest n))
    × IsSearch 5 never block digest
        (scanhash_c Generic.sha256_init_state Generic.sha256_init_state 5 padding never block)
scanhash_c-first-IsDigest_example =
    scanhash_c-first-IsDigest Generic.sha256_init_state Generic.sha256_init_state 5 padding never
      block buffers (omega arith)

scanhash_cryptopp-eq-scanhash_c_example :
    scanhash_cryptopp Generic.sha256_init_state Generic.sha256_init_state 5 padding never block
    ≡ scanhash_c Generic.sha256_init_state Generic.sha256_init_state 5 padding never block
scanhash_cryptopp-eq-scanhash_c_example =
    scanhash_cryptopp-eq-scanhash_c Generic.sha256_init_state Generic.sha256_init_state 5 padding
      never block buffers (omega arith)

scanhash_c_overread_example :
    scanhash_c Generic.sha256_init_state Generic.sha256_init_state 5 (λ n. []) never block ≡ fault
scanhash_c_overread_example =
    scanhash_c_overread Generic.sha256_init_state Generic.sha256_init_state 5 (λ n. []) never block
      (omega arith)

-- An instruction whose results all end in a zero word.
abbrev pub zero_hash : Regs → List ℕ → ℕ → Regs
zero_hash state buf len = record state { h = 0 }

abbrev ones : List ℕ
ones = replicate 32 1

scanhash_via-IsViaSearch_example :
    IsViaSearch zero_hash Generic.sha256_init_state 5 never ones
      (omega arith)
      (omega arith)
      (scanhash_via zero_hash Generic.sha256_init_state 5 never ones)
scanhash_via-IsViaSearch_example =
    scanhash_via-IsViaSearch zero_hash Generic.sha256_init_state 5 never ones (omega arith)
      (omega arith)

-- The first nonce counts, and comes back with its bytes swapped.
via_first :
    scanhash_via zero_hash Generic.sha256_init_state 5 never ones
    ≡ some (record { found = true; hashes_done = 1; data_inout = set ones 19 0x01000000 })
unfolding scanhash_via via_loop double_hash swab32 bswap_16 fulltest
via_first = refl
