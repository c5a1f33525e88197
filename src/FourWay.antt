-- ===== src/FourWay.antt =====
-- sha256_4way.c: the double hash of four nonces at once in SSE2 vectors. The vector variables `w0` to
-- `w15` are a list, and the unrolled lines, whose text repeats with the next constant and the next
-- variables, are loops over the index of the line.
pub mod Words
pub mod Lines
pub mod Rounds
pub mod Digest
pub mod Block
pub mod Scan
pub mod Batch
pub mod Search
pub mod Sound
use cpuminer.Base.{
  ℕ, zero, suc, ◌+◌, ◌-◌, ◌%◌, ◌/◌, leb, if◌then◌else◌, Option, none, some, List, [], ◌∷◌, ◌++◌,
  map, length, get_or, set, take, drop,
}
use cpuminer.Sha.{Regs}
use cpuminer.Simd.{
  M128i, set1_epi32, add_epi32, xor_si128, and_si128, or_si128, andnot_si128, srli_epi32,
  slli_epi32, Lane, lane, lane_at,
}

abbrev pub sha256_consts : List ℕ
sha256_consts =
    0x428a2f98 ∷ 0x71374491 ∷ 0xb5c0fbcf ∷ 0xe9b5dba5 ∷ 0x3956c25b ∷ 0x59f111f1 ∷ 0x923f82a4
    ∷ 0xab1c5ed5 ∷ 0xd807aa98 ∷ 0x12835b01 ∷ 0x243185be ∷ 0x550c7dc3 ∷ 0x72be5d74 ∷ 0x80deb1fe
    ∷ 0x9bdc06a7 ∷ 0xc19bf174 ∷ 0xe49b69c1 ∷ 0xefbe4786 ∷ 0x0fc19dc6 ∷ 0x240ca1cc ∷ 0x2de92c6f
    ∷ 0x4a7484aa ∷ 0x5cb0a9dc ∷ 0x76f988da ∷ 0x983e5152 ∷ 0xa831c66d ∷ 0xb00327c8 ∷ 0xbf597fc7
    ∷ 0xc6e00bf3 ∷ 0xd5a79147 ∷ 0x06ca6351 ∷ 0x14292967 ∷ 0x27b70a85 ∷ 0x2e1b2138 ∷ 0x4d2c6dfc
    ∷ 0x53380d13 ∷ 0x650a7354 ∷ 0x766a0abb ∷ 0x81c2c92e ∷ 0x92722c85 ∷ 0xa2bfe8a1 ∷ 0xa81a664b
    ∷ 0xc24b8b70 ∷ 0xc76c51a3 ∷ 0xd192e819 ∷ 0xd6990624 ∷ 0xf40e3585 ∷ 0x106aa070 ∷ 0x19a4c116
    ∷ 0x1e376c08 ∷ 0x2748774c ∷ 0x34b0bcb5 ∷ 0x391c0cb3 ∷ 0x4ed8aa4a ∷ 0x5b9cca4f ∷ 0x682e6ff3
    ∷ 0x748f82ee ∷ 0x78a5636f ∷ 0x84c87814 ∷ 0x8cc70208 ∷ 0x90befffa ∷ 0xa4506ceb ∷ 0xbef9a3f7
    ∷ 0xc67178f2 ∷ []

unfoldable pub ch : M128i → M128i → M128i → M128i
ch b c d = xor_si128 (and_si128 b c) (andnot_si128 b d)

unfoldable pub maj : M128i → M128i → M128i → M128i
maj b c d = xor_si128 (and_si128 b (xor_si128 c d)) (and_si128 c d)

unfoldable pub rotr : M128i → ℕ → M128i
rotr x n = or_si128 (srli_epi32 x n) (slli_epi32 x (32 - n))

unfoldable pub shr : M128i → ℕ → M128i
shr x n = srli_epi32 x n

unfoldable pub bigsigma0_256 : M128i → M128i
bigsigma0_256 x = xor_si128 (xor_si128 (rotr x 2) (rotr x 13)) (rotr x 22)

unfoldable pub bigsigma1_256 : M128i → M128i
bigsigma1_256 x = xor_si128 (xor_si128 (rotr x 6) (rotr x 11)) (rotr x 25)

unfoldable pub sigma0_256 : M128i → M128i
sigma0_256 x = xor_si128 (xor_si128 (rotr x 7) (rotr x 18)) (shr x 3)

unfoldable pub sigma1_256 : M128i → M128i
sigma1_256 x = xor_si128 (xor_si128 (rotr x 17) (rotr x 19)) (shr x 10)

unfoldable pub add4 : M128i → M128i → M128i → M128i → M128i
add4 x0 x1 x2 x3 = add_epi32 (add_epi32 x0 x1) (add_epi32 x2 x3)

unfoldable pub add5 : M128i → M128i → M128i → M128i → M128i → M128i
add5 x0 x1 x2 x3 x4 = add_epi32 (add4 x0 x1 x2 x3) x4

-- The new values of the arguments `d` and `h` of `SHA256ROUND`.
unfoldable pub sha256round : (a b c d e f g h : M128i) → ℕ → M128i → M128i × M128i
sha256round a b c d e f g h i w =
    let t1 = add5 h (bigsigma1_256 e) (ch e f g) (set1_epi32 (get_or sha256_consts i 0)) w in
    (add_epi32 d t1, add_epi32 t1 (add_epi32 (bigsigma0_256 a) (maj a b c)))

-- The vector variables `a` to `h`.
pub record Vars : Type 0 where
  pub a : M128i
  pub b : M128i
  pub c : M128i
  pub d : M128i
  pub e : M128i
  pub f : M128i
  pub g : M128i
  pub h : M128i

-- The eight lines in turn, by the index of the line modulo 8; each has the constant `i`.
unfoldable pub line : ℕ → ℕ → M128i → Vars → Vars
line zero i w v =
    let new = sha256round v.a v.b v.c v.d v.e v.f v.g v.h i w in record v { d = new.0; h = new.1 }
line (suc zero) i w v =
    let new = sha256round v.h v.a v.b v.c v.d v.e v.f v.g i w in record v { c = new.0; g = new.1 }
line (suc (suc zero)) i w v =
    let new = sha256round v.g v.h v.a v.b v.c v.d v.e v.f i w in record v { b = new.0; f = new.1 }
line (suc (suc (suc zero))) i w v =
    let new = sha256round v.f v.g v.h v.a v.b v.c v.d v.e i w in record v { a = new.0; e = new.1 }
line (suc (suc (suc (suc zero)))) i w v =
    let new = sha256round v.e v.f v.g v.h v.a v.b v.c v.d i w in record v { h = new.0; d = new.1 }
line (suc (suc (suc (suc (suc zero))))) i w v =
    let new = sha256round v.d v.e v.f v.g v.h v.a v.b v.c i w in record v { g = new.0; c = new.1 }
line (suc (suc (suc (suc (suc (suc zero)))))) i w v =
    let new = sha256round v.c v.d v.e v.f v.g v.h v.a v.b i w in record v { f = new.0; b = new.1 }
line (suc (suc (suc (suc (suc (suc (suc n))))))) i w v =
    let new = sha256round v.b v.c v.d v.e v.f v.g v.h v.a i w in record v { e = new.0; a = new.1 }

abbrev pub zeros : M128i
zeros = set1_epi32 0

-- `w0 = add4(SIGMA1_256(w14), w9, SIGMA0_256(w1), w0);` and its like, for the variable `n`.
unfoldable pub expanded : ℕ → List M128i → M128i
expanded n w =
    add4 (sigma1_256 (get_or w ((n + 14) % 16) zeros)) (get_or w ((n + 9) % 16) zeros)
      (sigma0_256 (get_or w ((n + 1) % 16) zeros)) (get_or w n zeros)

-- Lines from `t` on that take the words as they are, and lines that compute each word first.
unfoldable pub plain_lines : ℕ → ℕ → List M128i → Vars → Vars
plain_lines zero t w v = v
plain_lines (suc left) t w v =
    plain_lines left (suc t) w (line (t % 8) t (get_or w (t % 16) zeros) v)

unfoldable pub expanding_lines : ℕ → ℕ → List M128i → Vars → Vars
expanding_lines zero t w v = v
expanding_lines (suc left) t w v =
    let x = expanded (t % 16) w in
    expanding_lines left (suc t) (set w (t % 16) x) (line (t % 8) t x v)

-- `n` lines, of which the first sixteen take the words of the block.
unfoldable pub lines : ℕ → List M128i → Vars → Vars
lines n w v = expanding_lines (n - 16) 16 w (plain_lines 16 0 w v)

-- `a = _mm_set1_epi32(hPre[0]); …`
unfoldable pub set1_vars : Regs → Vars
set1_vars r = record {
  a = set1_epi32 r.a;
  b = set1_epi32 r.b;
  c = set1_epi32 r.c;
  d = set1_epi32 r.d;
  e = set1_epi32 r.e;
  f = set1_epi32 r.f;
  g = set1_epi32 r.g;
  h = set1_epi32 r.h;
}

-- `store_load` and `store_2` for each of the eight variables: a word of memory plus the variable.
unfoldable pub add_vars : Regs → Vars → Vars
add_vars r v = record {
  a = add_epi32 (set1_epi32 r.a) v.a;
  b = add_epi32 (set1_epi32 r.b) v.b;
  c = add_epi32 (set1_epi32 r.c) v.c;
  d = add_epi32 (set1_epi32 r.d) v.d;
  e = add_epi32 (set1_epi32 r.e) v.e;
  f = add_epi32 (set1_epi32 r.f) v.f;
  g = add_epi32 (set1_epi32 r.g) v.g;
  h = add_epi32 (set1_epi32 r.h) v.h;
}

abbrev pub vars_list : Vars → List M128i
vars_list v = v.a ∷ v.b ∷ v.c ∷ v.d ∷ v.e ∷ v.f ∷ v.g ∷ v.h ∷ []

-- What one pass of the loop over `k` writes: `thash[0..7][k .. k+3]` and `thash[8][k .. k+3]`.
pub record Group : Type 0 where
  pub hash : Vars
  pub nonce : M128i

-- `_mm_set_epi32` takes the highest word first.
abbrev pub offset : M128i
offset = record { r0 = 0; r1 = 1; r2 = 2; r3 = 3 }

-- The words `w0` to `w15` of the first hash, with the nonces in `w3`.
unfoldable pub first_words : List ℕ → M128i → List M128i
first_words input nonce = set (map set1_epi32 (take 16 input)) 3 nonce

-- The first hash of a pass.
unfoldable pub first_hash : List ℕ → Regs → M128i → Vars
first_hash input pre nonce = add_vars pre (lines 64 (first_words input nonce) (set1_vars pre))

-- The second hash, without the last three lines.
unfoldable pub second_hash : List ℕ → Regs → Vars → Vars
second_hash pad init first =
    add_vars init
      (lines 61 (vars_list first ++ map set1_epi32 (take 8 (drop 8 pad))) (set1_vars init))

unfoldable pub group : List ℕ → List ℕ → Regs → Regs → ℕ → Group
group input pad pre init k =
    let pre_nonce = add_epi32 (set1_epi32 (get_or input 3 0)) offset in
    let nonce = add_epi32 pre_nonce (set1_epi32 k) in
    record { hash = second_hash pad init (first_hash input pre nonce); nonce = nonce }

-- The passes that are left, from `k` on.
unfoldable pub groups : ℕ → List ℕ → List ℕ → Regs → Regs → ℕ → List Group
groups zero input pad pre init k = []
groups (suc left) input pad pre init k =
    group input pad pre init k ∷ groups left input pad pre init (k + 4)

-- `none` is a read outside the sixteen words of `pin` and of `pad`.
unfoldable pub double_block_sha256 : List ℕ → List ℕ → Regs → Regs → Option (List Group)
double_block_sha256 input pad pre init =
    if leb 16 (length input)
    then if leb 16 (length pad) then some (groups 8 input pad pre init 0) else none
    else none

-- The words of eight vectors at one index.
abbrev pub vars_lane : Lane → Vars → Regs
vars_lane l v = record {
  a = lane l v.a;
  b = lane l v.b;
  c = lane l v.c;
  d = lane l v.d;
  e = lane l v.e;
  f = lane l v.f;
  g = lane l v.g;
  h = lane l v.h;
}
