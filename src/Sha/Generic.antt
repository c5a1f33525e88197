-- ===== src/Sha/Generic.antt =====
-- `sha256_transform` of sha256_generic.c: the unrolled rounds, in which the roles of the eight locals
-- rotate from line to line.
pub mod Functions
pub mod Schedule
pub mod Lines
pub mod Eight
pub mod Rounds
pub mod Correct
use cpuminer.Base.{
  ℕ, zero, suc, ◌+◌, ◌-◌, ◌*◌, ◌/◌, ◌%◌, ◌^◌, bit_and, bit_or, bit_xor, ◌⊞◌, ◌<<<◌, ◌>>>◌, Option,
  none, some, List, [], ◌∷◌, get_elem?, get_or, set, replicate,
}
use cpuminer.Sha.{Regs, add_regs}

unfoldable pub ror32 : ℕ → ℕ → ℕ
ror32 word shift = bit_or (word >>> shift) (word <<< (32 - shift))

unfoldable pub ch : ℕ → ℕ → ℕ → ℕ
ch x y z = bit_xor z (bit_and x (bit_xor y z))

unfoldable pub maj : ℕ → ℕ → ℕ → ℕ
maj x y z = bit_or (bit_and x y) (bit_and z (bit_or x y))

unfoldable pub e0 : ℕ → ℕ
unfolding ror32
e0 x = bit_xor (bit_xor (ror32 x 2) (ror32 x 13)) (ror32 x 22)

unfoldable pub e1 : ℕ → ℕ
unfolding ror32
e1 x = bit_xor (bit_xor (ror32 x 6) (ror32 x 11)) (ror32 x 25)

unfoldable pub s0 : ℕ → ℕ
unfolding ror32
s0 x = bit_xor (bit_xor (ror32 x 7) (ror32 x 18)) (x >>> 3)

unfoldable pub s1 : ℕ → ℕ
unfolding ror32
s1 x = bit_xor (bit_xor (ror32 x 17) (ror32 x 19)) (x >>> 10)

-- `none` is a read outside the input, which C leaves undefined.
infixl 5 ◌>>=◌
abbrev pub ◌>>=◌ {ℓ κ} : {A : Type ℓ} {B : Type κ} → Option A → (A → Option B) → Option B
none >>= f = none
some a >>= f = f a

unfoldable pub load_op : ℕ → List ℕ → List ℕ → Option (List ℕ)
load_op i w input = do x ← get_elem? input i; some (set w i x)

unfoldable pub blend_op : ℕ → List ℕ → List ℕ
blend_op i w =
    set w i (
      s1 (get_or w (i - 2) 0) ⊞ get_or w (i - 7) 0 ⊞ s0 (get_or w (i - 15) 0) ⊞ get_or w (i - 16) 0)

-- The two loops, with the rounds that are left and the index.
unfoldable pub load_loop : ℕ → ℕ → List ℕ → List ℕ → Option (List ℕ)
load_loop zero i w input = some w
load_loop (suc left) i w input = do w' ← load_op i w input; load_loop left (suc i) w' input

unfoldable pub blend_loop : ℕ → ℕ → List ℕ → List ℕ
blend_loop zero i w = w
blend_loop (suc left) i w = blend_loop left (suc i) (blend_op i w)

-- One line of the unrolled code for each local that the line ends in.
unfoldable pub step_h : ℕ → ℕ → Regs → Regs
step_h k w v =
    let t1 = v.h ⊞ e1 v.e ⊞ ch v.e v.f v.g ⊞ k ⊞ w in
    let t2 = e0 v.a ⊞ maj v.a v.b v.c in record v { d = v.d ⊞ t1; h = t1 ⊞ t2 }

unfoldable pub step_g : ℕ → ℕ → Regs → Regs
step_g k w v =
    let t1 = v.g ⊞ e1 v.d ⊞ ch v.d v.e v.f ⊞ k ⊞ w in
    let t2 = e0 v.h ⊞ maj v.h v.a v.b in record v { c = v.c ⊞ t1; g = t1 ⊞ t2 }

unfoldable pub step_f : ℕ → ℕ → Regs → Regs
step_f k w v =
    let t1 = v.f ⊞ e1 v.c ⊞ ch v.c v.d v.e ⊞ k ⊞ w in
    let t2 = e0 v.g ⊞ maj v.g v.h v.a in record v { b = v.b ⊞ t1; f = t1 ⊞ t2 }

unfoldable pub step_e : ℕ → ℕ → Regs → Regs
step_e k w v =
    let t1 = v.e ⊞ e1 v.b ⊞ ch v.b v.c v.d ⊞ k ⊞ w in
    let t2 = e0 v.f ⊞ maj v.f v.g v.h in record v { a = v.a ⊞ t1; e = t1 ⊞ t2 }

unfoldable pub step_d : ℕ → ℕ → Regs → Regs
step_d k w v =
    let t1 = v.d ⊞ e1 v.a ⊞ ch v.a v.b v.c ⊞ k ⊞ w in
    let t2 = e0 v.e ⊞ maj v.e v.f v.g in record v { h = v.h ⊞ t1; d = t1 ⊞ t2 }

unfoldable pub step_c : ℕ → ℕ → Regs → Regs
step_c k w v =
    let t1 = v.c ⊞ e1 v.h ⊞ ch v.h v.a v.b ⊞ k ⊞ w in
    let t2 = e0 v.d ⊞ maj v.d v.e v.f in record v { g = v.g ⊞ t1; c = t1 ⊞ t2 }

unfoldable pub step_b : ℕ → ℕ → Regs → Regs
step_b k w v =
    let t1 = v.b ⊞ e1 v.g ⊞ ch v.g v.h v.a ⊞ k ⊞ w in
    let t2 = e0 v.c ⊞ maj v.c v.d v.e in record v { f = v.f ⊞ t1; b = t1 ⊞ t2 }

unfoldable pub step_a : ℕ → ℕ → Regs → Regs
step_a k w v =
    let t1 = v.a ⊞ e1 v.f ⊞ ch v.f v.g v.h ⊞ k ⊞ w in
    let t2 = e0 v.b ⊞ maj v.b v.c v.d in record v { e = v.e ⊞ t1; a = t1 ⊞ t2 }

-- Eight lines, after which each local has its first role again.
unfoldable pub eight : (k0 k1 k2 k3 k4 k5 k6 k7 : ℕ) → List ℕ → ℕ → Regs → Regs
eight k0 k1 k2 k3 k4 k5 k6 k7 w i v =
    let v1 = step_h k0 (get_or w i 0) v in
    let v2 = step_g k1 (get_or w (1 + i) 0) v1 in
    let v3 = step_f k2 (get_or w (2 + i) 0) v2 in
    let v4 = step_e k3 (get_or w (3 + i) 0) v3 in
    let v5 = step_d k4 (get_or w (4 + i) 0) v4 in
    let v6 = step_c k5 (get_or w (5 + i) 0) v5 in
    let v7 = step_b k6 (get_or w (6 + i) 0) v6 in step_a k7 (get_or w (7 + i) 0) v7

unfoldable pub iterate : List ℕ → Regs → Regs
iterate w v0 =
    let v1 =
      eight 0x428a2f98 0x71374491 0xb5c0fbcf 0xe9b5dba5 0x3956c25b 0x59f111f1 0x923f82a4 0xab1c5ed5
        w 0 v0 in
    let v2 =
      eight 0xd807aa98 0x12835b01 0x243185be 0x550c7dc3 0x72be5d74 0x80deb1fe 0x9bdc06a7 0xc19bf174
        w 8 v1 in
    let v3 =
      eight 0xe49b69c1 0xefbe4786 0x0fc19dc6 0x240ca1cc 0x2de92c6f 0x4a7484aa 0x5cb0a9dc 0x76f988da
        w 16 v2 in
    let v4 =
      eight 0x983e5152 0xa831c66d 0xb00327c8 0xbf597fc7 0xc6e00bf3 0xd5a79147 0x06ca6351 0x14292967
        w 24 v3 in
    let v5 =
      eight 0x27b70a85 0x2e1b2138 0x4d2c6dfc 0x53380d13 0x650a7354 0x766a0abb 0x81c2c92e 0x92722c85
        w 32 v4 in
    let v6 =
      eight 0xa2bfe8a1 0xa81a664b 0xc24b8b70 0xc76c51a3 0xd192e819 0xd6990624 0xf40e3585 0x106aa070
        w 40 v5 in
    let v7 =
      eight 0x19a4c116 0x1e376c08 0x2748774c 0x34b0bcb5 0x391c0cb3 0x4ed8aa4a 0x5b9cca4f 0x682e6ff3
        w 48 v6 in
    eight 0x748f82ee 0x78a5636f 0x84c87814 0x8cc70208 0x90befffa 0xa4506ceb 0xbef9a3f7 0xc67178f2 w
      56 v7

unfoldable pub sha256_transform : Regs → List ℕ → Option Regs
sha256_transform state input = do
  w ← load_loop 16 0 (replicate 64 0) input
  some (add_regs state (iterate (blend_loop 48 16 w) state))

abbrev pub sha256_init_state : Regs
sha256_init_state = record {
  a = 0x6a09e667;
  b = 0xbb67ae85;
  c = 0x3c6ef372;
  d = 0xa54ff53a;
  e = 0x510e527f;
  f = 0x9b05688c;
  g = 0x1f83d9ab;
  h = 0x5be0cd19;
}
