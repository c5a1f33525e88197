-- ===== src/Sha/Cryptopp.antt =====
-- `SHA256_Transform` of sha256_cryptopp.c: the schedule in a ring of 16 words, the working words in
-- an array `T` whose roles rotate by index.
pub mod Functions
pub mod Registers
pub mod Ring
pub mod Correct
use cpuminer.Base.{
  ℕ, zero, suc, ◌+◌, ◌-◌, ◌*◌, ◌/◌, ◌%◌, ◌^◌, bit_and, bit_or, bit_xor, ◌⊞◌, ◌<<<◌, ◌>>>◌, ◌==◌,
  if◌then◌else◌, Option, none, some, List, [], ◌∷◌, get_elem?, get_or, set, replicate,
}
use cpuminer.Sha.{Regs, words, add_regs}

unfoldable pub rotr_fixed : ℕ → ℕ → ℕ
rotr_fixed word shift = bit_or (word >>> shift) (word <<< (32 - shift))

abbrev pub sha256_k : List ℕ
sha256_k =
    0x428a2f98 ∷ 0x71374491 ∷ 0xb5c0fbcf ∷ 0xe9b5dba5 ∷ 0x3956c25b ∷ 0x59f111f1 ∷ 0x923f82a4
    ∷ 0xab1c5ed5 ∷ 0xd807aa98 ∷ 0x12835b01 ∷ 0x243185be ∷ 0x550c7dc3 ∷ 0x72be5d74 ∷ 0x80deb1fe
    ∷ 0x9bdc06a7 ∷ 0xc19bf174 ∷ 0xe49b69c1 ∷ 0xefbe4786 ∷ 0x0fc19dc6 ∷ 0x240ca1cc ∷ 0x2de92c6f
    ∷ 0x4a7484aa ∷ 0x5cb0a9dc ∷ 0x76f988da ∷ 0x983e5152 ∷ 0xa831c66d ∷ 0xb00327c8 ∷ 0xbf597fc7
    ∷ 0xc6e00bf3 ∷ 0xd5a79147 ∷ 0x06ca6351 ∷ 0x14292967 ∷ 0x27b70a85 ∷ 0x2e1b2138 ∷ 0x4d2c6dfc
    ∷ 0x53380d13 ∷ 0x650a7354 ∷ 0x766a0abb ∷ 0x81c2c92e ∷ 0x92722c85 ∷ 0xa2bfe8a1 ∷ 0xa81a664b
    ∷ 0xc24b8b70 ∷ 0xc76c51a3 ∷ 0xd192e819 ∷ 0xd6990624 ∷ 0xf40e3585 ∷ 0x106aa070 ∷ 0x19a4c116
    ∷ 0x1e376c08 ∷ 0x2748774c ∷ 0x34b0bcb5 ∷ 0x391c0cb3 ∷ 0x4ed8aa4a ∷ 0x5b9cca4f ∷ 0x682e6ff3
    ∷ 0x748f82ee ∷ 0x78a5636f ∷ 0x84c87814 ∷ 0x8cc70208 ∷ 0x90befffa ∷ 0xa4506ceb ∷ 0xbef9a3f7
    ∷ 0xc67178f2 ∷ []

unfoldable pub ch : ℕ → ℕ → ℕ → ℕ
ch x y z = bit_xor z (bit_and x (bit_xor y z))

unfoldable pub maj : ℕ → ℕ → ℕ → ℕ
maj x y z = bit_xor y (bit_and (bit_xor x y) (bit_xor y z))

unfoldable pub big_s0 : ℕ → ℕ
unfolding rotr_fixed
big_s0 x = bit_xor (bit_xor (rotr_fixed x 2) (rotr_fixed x 13)) (rotr_fixed x 22)

unfoldable pub big_s1 : ℕ → ℕ
unfolding rotr_fixed
big_s1 x = bit_xor (bit_xor (rotr_fixed x 6) (rotr_fixed x 11)) (rotr_fixed x 25)

unfoldable pub small_s0 : ℕ → ℕ
unfolding rotr_fixed
small_s0 x = bit_xor (bit_xor (rotr_fixed x 7) (rotr_fixed x 18)) (x >>> 3)

unfoldable pub small_s1 : ℕ → ℕ
unfolding rotr_fixed
small_s1 x = bit_xor (bit_xor (rotr_fixed x 17) (rotr_fixed x 19)) (x >>> 10)

-- `W[(i - k) & 15]` for `i` from 0 to 15; 16 is added first since `-` stops at 0.
abbrev pub ring_at : List ℕ → ℕ → ℕ → ℕ
ring_at w i k = get_or w ((i + 16 - k) % 16) 0

-- `W[i & 15] += …`: the new word, which is also stored.
unfoldable pub blk2 : ℕ → List ℕ → ℕ
blk2 i w = ring_at w i 0 ⊞ (small_s1 (ring_at w i 2) ⊞ ring_at w i 7 ⊞ small_s0 (ring_at w i 15))

-- The index `(x - i) & 7` of the word with role `x`.
abbrev pub role : ℕ → ℕ → ℕ
role x i = (x + 16 - i) % 8

-- The three updates of `R(i)`, with the constant and the schedule's word.
unfoldable pub update : ℕ → ℕ → ℕ → List ℕ → List ℕ
update i k x t =
    let at = λ (l : List ℕ) (n : ℕ). get_or l (role n i) 0 in
    let t1 =
      set t (role 7 i) (at t 7 ⊞ (big_s1 (at t 4) ⊞ ch (at t 4) (at t 5) (at t 6) ⊞ k ⊞ x)) in
    let t2 = set t1 (role 3 i) (at t1 3 ⊞ at t1 7) in
    set t2 (role 7 i) (at t2 7 ⊞ (big_s0 (at t2 0) ⊞ maj (at t2 0) (at t2 1) (at t2 2)))

pub record Work : Type 0 where
  pub w : List ℕ
  pub t : List ℕ

-- `none` is a read outside `data`, which C leaves undefined.
infixl 5 ◌>>=◌
abbrev pub ◌>>=◌ {ℓ κ} : {A : Type ℓ} {B : Type κ} → Option A → (A → Option B) → Option B
none >>= f = none
some a >>= f = f a

-- `j ? blk2(i) : blk0(i)`
unfoldable pub schedule_word : ℕ → ℕ → List ℕ → List ℕ → Option ℕ
schedule_word i j input w = if j == 0 then get_elem? input i else some (blk2 i w)

unfoldable pub r : ℕ → ℕ → List ℕ → Work → Option Work
r i j input s = do
  x ← schedule_word i j input s.w
  some (record { w = set s.w (i % 16) x; t = update i (get_or sha256_k (i + j) 0) x s.t })

-- `R( 0); …; R(15);` with the rounds that are left.
unfoldable pub r_loop : ℕ → ℕ → ℕ → List ℕ → Work → Option Work
r_loop zero i j input s = some s
r_loop (suc left) i j input s = do s' ← r i j input s; r_loop left (suc i) j input s'

unfoldable pub j_loop : ℕ → ℕ → List ℕ → Work → Option Work
j_loop zero j input s = some s
j_loop (suc left) j input s = do s' ← r_loop 16 0 j input s; j_loop left (j + 16) input s'

-- `a(0)` to `h(0)`
unfoldable pub registers : List ℕ → Regs
registers t =
    let at = λ (n : ℕ). get_or t (role n 0) 0 in
    record { a = at 0; b = at 1; c = at 2; d = at 3; e = at 4; f = at 5; g = at 6; h = at 7 }

unfoldable pub sha256_transform : Regs → List ℕ → Option Regs
sha256_transform state input = do
  s ← j_loop 4 0 input (record { w = replicate 16 0; t = words state })
  some (add_regs state (registers s.t))
