-- ===== src/Target.antt =====
-- `fulltest` of util.c, with `swab32` and `swap256` of miner.h: the comparison of a hash with the
-- target. A buffer of 32 bytes is its eight `uint32_t` words, on a little-endian host.
pub mod Order
use cpuminer.Base.{
  ℕ, zero, suc, ◌+◌, ◌*◌, ◌/◌, ◌%◌, ◌^◌, bit_and, bit_or, ◌<<<◌, ◌>>>◌, ltb, if◌then◌else◌, Bool,
  true, false, List, [], ◌∷◌, get_or, set,
}
use cpuminer.Sha.{Regs, words}

-- The macros; a 16-bit argument keeps the shift within `int`.
unfoldable pub bswap_16 : ℕ → ℕ
bswap_16 value = bit_or (bit_and value 0xff * 2 ^ 8) (value >>> 8)

unfoldable pub swab32 : ℕ → ℕ
unfolding bswap_16
swab32 value =
    bit_or (bswap_16 (bit_and value 0xffff % 2 ^ 16) <<< 16) (bswap_16 ((value >>> 16) % 2 ^ 16))

unfoldable pub swap256 : Regs → Regs
swap256 src = record {
  a = src.h;
  b = src.g;
  c = src.f;
  d = src.e;
  e = src.d;
  f = src.c;
  g = src.b;
  h = src.a;
}

-- The locals that the loop changes.
pub record Compared : Type 0 where
  pub rc : Bool
  pub target32 : List ℕ

compare_loop : ℕ → ℕ → List ℕ → Compared → Compared
compare_loop zero i hash32 s = s
compare_loop (suc left) i hash32 s =
    let h32tmp = swab32 (get_or hash32 i 0) in
    let t32tmp = get_or s.target32 i 0 in
    let s' = record s { target32 = set s.target32 i (swab32 t32tmp) } in
    let rest = compare_loop left (suc i) hash32 s' in
    if ltb t32tmp h32tmp
    then record s' { rc = false }
    else if ltb h32tmp t32tmp
    then record s' { rc = true }
    else rest

-- The comparison as the debug log prints it.
pub compare : Regs → Regs → Compared
compare hash target =
    let hash_swap = words (swap256 hash) in
    let target_swap = words (swap256 target) in
    compare_loop 8 0 hash_swap (record { rc = true; target32 = target_swap })

-- What the caller gets, and what is logged with `opt_debug`: `rc`, the hash and the target.
pub record Verdict : Type 0 where
  pub returned : Bool
  pub rc : Bool
  pub proof : List ℕ
  pub target : List ℕ

unfoldable pub fulltest : Regs → Regs → Verdict
fulltest hash target =
    let s = compare hash target in
    record { returned = true; rc = s.rc; proof = words (swap256 hash); target = s.target32 }
