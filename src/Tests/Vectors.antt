-- ===== src/Tests/Vectors.antt =====
-- `scanhash_sse2_64` with a hash routine in the place of the assembly: the lines of sha256_4way.c.
use cpuminer.Base.{
  ℕ, ◌+◌, ◌/◌, ◌≡◌, refl, ◌∙◌, ap, some, List, drop, map, IsWord, length, ◌<◌, arith, get_or,
}
use cpuminer.Sha.{Regs, AreWords, add_regs}
use cpuminer.Sha.Spec.{rounds, compress, IsSchedule, k_table}
use cpuminer.Sha.Generic.Schedule.{WordsIn}
use cpuminer.Target.{fulltest}
use cpuminer.Scan.Digest.{IsDigest}
use cpuminer.Simd
use cpuminer.Simd.{M128i, Lane, lane, set1_epi32}
use cpuminer.FourWay
use cpuminer.FourWay.{Vars, lines, set1_vars, add_vars, vars_lane, zeros}
use cpuminer.FourWay.Rounds.{lines-rounds}
use cpuminer.FourWay.Digest.{set1_vars_lane, add_vars_lane}
use cpuminer.Amd64.{Calc, find_loop, check, next_round, hash_round, round_loop, scanhash_sse2_64}
use cpuminer.Amd64.Rounds.{IsCompress, start, upper}
use cpuminer.Amd64.Search.{IsRoundSearch, scanhash_sse2_64-IsRoundSearch}
use cpuminer.Tests.Batches
use cpuminer.Tests.Batches.{genesis_block, genesis_midstate, hash1, never, inputs, returned}

abbrev pub calc : Calc
calc k input init = add_vars init (lines 64 input (set1_vars init))

calc-compress :
    (l : Lane) (input : List M128i) (init : Regs) (m : List ℕ) (w : ℕ → ℕ)
    → length input ≡ 16
    → AreWords init
    → WordsIn m
    → IsSchedule m w
    → ((t : ℕ) → t < 16 → lane l (get_or input t zeros) ≡ get_or m t 0)
    → vars_lane l (calc (map set1_epi32 k_table) input init) ≡ compress w init
unfolding compress
calc-compress l input init m w size ok ws s block =
    add_vars_lane l init _
    ∙ ap (add_regs init) (
        lines-rounds l w s ws 48 input (set1_vars init) (omega arith) size block
          (rw (set1_vars_lane l init) ok)
        ∙ ap (rounds w 64 0) (set1_vars_lane l init))

pub calc-IsCompress : IsCompress calc
calc-IsCompress = record { lanes = calc-compress }

scanhash_sse2_64-IsRoundSearch_example :
    (digest : ℕ → Regs) × ((n : ℕ)
      → IsWord n
      → IsDigest genesis_midstate genesis_block (drop 8 hash1) n (digest n))
    × IsRoundSearch 100 never genesis_block digest Batches.zeros (
        scanhash_sse2_64 Batches.zeros 100 never calc genesis_midstate
          (100 / 4 + 1)
          genesis_block
          hash1
          Batches.zeros)
scanhash_sse2_64-IsRoundSearch_example =
    scanhash_sse2_64-IsRoundSearch calc calc-IsCompress genesis_midstate hash1 Batches.zeros 100
      never genesis_block inputs Batches.zeros (omega arith)

-- Two rounds from 0x1dac2b78 on find the nonce of the first block of the chain.
genesis_found :
    returned (
      round_loop Batches.zeros 0xfffffffa never calc genesis_midstate 2 0 0x1dac2b78
        (start genesis_block)
        (upper hash1)
        genesis_block
        Batches.zeros)
    ≡ some 0x1dac2b7c
unfolding returned round_loop hash_round check next_round find_loop fulltest FourWay.add_vars
    FourWay.set1_vars FourWay.lines FourWay.expanding_lines FourWay.plain_lines FourWay.expanded
    FourWay.line FourWay.sha256round FourWay.add5 FourWay.add4 FourWay.sigma1_256 FourWay.sigma0_256
    FourWay.bigsigma0_256 FourWay.bigsigma1_256 FourWay.shr FourWay.rotr FourWay.maj FourWay.ch
    Simd.add_epi32 Simd.xor_si128 Simd.and_si128 Simd.or_si128 Simd.andnot_si128 Simd.srli_epi32
    Simd.slli_epi32
genesis_found = refl
