-- ===== src/Sha/Spec.antt =====
-- The compression function of SHA-256 as FIPS 180-4 defines it: the reference for the
-- implementations. A message schedule is any sequence of words that meets the standard's recurrence.
use cpuminer.Base.{
  ℕ, zero, suc, ◌+◌, ◌*◌, ◌/◌, ◌%◌, ◌-◌, ◌^◌, ◌<◌, ◌≤◌, ◌≡◌, refl, sym, ◌∙◌, List, [], ◌∷◌, ◌⊞◌,
  bit_xor, get_or, IsWord, arith,
}
use native.Mathlib.Decide.{dec_lt}
use cpuminer.Bits.{choose, majority}
use cpuminer.Sha.{Regs, AreWords, add_regs, add_regs-AreWords}

-- ROTR, as arithmetic: the low `n` bits move to the top.
abbrev pub rotr : ℕ → ℕ → ℕ
rotr n x = x % 2 ^ n * 2 ^ (32 - n) + x / 2 ^ n

unfoldable pub big_sigma0 : ℕ → ℕ
big_sigma0 x = bit_xor (bit_xor (rotr 2 x) (rotr 13 x)) (rotr 22 x)

unfoldable pub big_sigma1 : ℕ → ℕ
big_sigma1 x = bit_xor (bit_xor (rotr 6 x) (rotr 11 x)) (rotr 25 x)

unfoldable pub sigma0 : ℕ → ℕ
sigma0 x = bit_xor (bit_xor (rotr 7 x) (rotr 18 x)) (x / 2 ^ 3)

unfoldable pub sigma1 : ℕ → ℕ
sigma1 x = bit_xor (bit_xor (rotr 17 x) (rotr 19 x)) (x / 2 ^ 10)

-- The round constants: the first 32 bits of the fractional parts of the cube roots of the first
-- 64 primes.
abbrev pub k_table : List ℕ
k_table =
    0x428a2f98 ∷ 0x71374491 ∷ 0xb5c0fbcf ∷ 0xe9b5dba5 ∷ 0x3956c25b ∷ 0x59f111f1 ∷ 0x923f82a4
    ∷ 0xab1c5ed5 ∷ 0xd807aa98 ∷ 0x12835b01 ∷ 0x243185be ∷ 0x550c7dc3 ∷ 0x72be5d74 ∷ 0x80deb1fe
    ∷ 0x9bdc06a7 ∷ 0xc19bf174 ∷ 0xe49b69c1 ∷ 0xefbe4786 ∷ 0x0fc19dc6 ∷ 0x240ca1cc ∷ 0x2de92c6f
    ∷ 0x4a7484aa ∷ 0x5cb0a9dc ∷ 0x76f988da ∷ 0x983e5152 ∷ 0xa831c66d ∷ 0xb00327c8 ∷ 0xbf597fc7
    ∷ 0xc6e00bf3 ∷ 0xd5a79147 ∷ 0x06ca6351 ∷ 0x14292967 ∷ 0x27b70a85 ∷ 0x2e1b2138 ∷ 0x4d2c6dfc
    ∷ 0x53380d13 ∷ 0x650a7354 ∷ 0x766a0abb ∷ 0x81c2c92e ∷ 0x92722c85 ∷ 0xa2bfe8a1 ∷ 0xa81a664b
    ∷ 0xc24b8b70 ∷ 0xc76c51a3 ∷ 0xd192e819 ∷ 0xd6990624 ∷ 0xf40e3585 ∷ 0x106aa070 ∷ 0x19a4c116
    ∷ 0x1e376c08 ∷ 0x2748774c ∷ 0x34b0bcb5 ∷ 0x391c0cb3 ∷ 0x4ed8aa4a ∷ 0x5b9cca4f ∷ 0x682e6ff3
    ∷ 0x748f82ee ∷ 0x78a5636f ∷ 0x84c87814 ∷ 0x8cc70208 ∷ 0x90befffa ∷ 0xa4506ceb ∷ 0xbef9a3f7
    ∷ 0xc67178f2 ∷ []

abbrev pub k_at : ℕ → ℕ
k_at t = get_or k_table t 0

unfoldable pub round : ℕ → ℕ → Regs → Regs
round k w r =
    let t1 = r.h ⊞ big_sigma1 r.e ⊞ choose 32 r.e r.f r.g ⊞ k ⊞ w in
    let t2 = big_sigma0 r.a ⊞ majority r.a r.b r.c in
    record { a = t1 ⊞ t2; b = r.a; c = r.b; d = r.c; e = r.d ⊞ t1; f = r.e; g = r.f; h = r.g }

-- `n` rounds from round `t` on, over the schedule `w`.
unfoldable pub rounds : (ℕ → ℕ) → ℕ → ℕ → Regs → Regs
rounds w zero t r = r
rounds w (suc n) t r = rounds w n (suc t) (round (k_at t) (w t) r)

-- `w` is the message schedule of the block `m`.
pub record IsSchedule (m : List ℕ) (w : ℕ → ℕ) : Type 0 where
  pub block : (t : ℕ) → t < 16 → w t ≡ get_or m t 0
  pub expand :
      (t : ℕ) → t < 48 → w (t + 16) ≡ sigma1 (w (t + 14)) ⊞ w (t + 9) ⊞ sigma0 (w (t + 1)) ⊞ w t

unfoldable pub compress : (ℕ → ℕ) → Regs → Regs
compress w r = add_regs r (rounds w 64 0 r)

pub round-AreWords : (k w : ℕ) (r : Regs) → AreWords r → AreWords (round k w r)
unfolding round
round-AreWords k w r v = omega arith

-- A block has one schedule: two sequences that meet the recurrence agree on the 64 rounds.
module _ {m : List ℕ} {v w : ℕ → ℕ} (p : IsSchedule m v) (q : IsSchedule m w) where
  agree_below : (n t : ℕ) → n ≤ 64 → t < n → v t ≡ w t
  agree_below zero t small lt = absurd (omega arith)
  agree_below (suc n) t small lt = elim (dec_lt t 16) [
    | yes first ↦ p.block t first ∙ sym (q.block t first)
    | no late ↦
        let s = t - 16 in
        let e : s + 16 ≡ t = omega arith in
        let v-expand = p.expand s (omega arith) in
        let w-expand = q.expand s (omega arith) in
        rw (← e) (
          v-expand
          ∙ rw
              (
                agree_below n (s + 14) (omega arith) (omega arith),
                agree_below n (s + 9) (omega arith) (omega arith),
                agree_below n (s + 1) (omega arith) (omega arith),
                agree_below n s (omega arith) (omega arith),
              )
              (sym w-expand))
  ]

  rounds_agree : (n t : ℕ) (r : Regs) → t + n ≤ 64 → rounds v n t r ≡ rounds w n t r
  unfolding rounds
  rounds_agree zero t r h = refl
  rounds_agree (suc n) t r h =
      rw (agree_below 64 t (omega arith) (omega arith))
        (rounds_agree n (suc t) (round (k_at t) (w t) r) (omega arith))

  pub compress_unique : (r : Regs) → compress v r ≡ compress w r
  unfolding compress
  compress_unique r = rw (rounds_agree 64 0 r (omega arith)) refl

-- The words of a schedule fit 32 bits where the block's do.
pub schedule-IsWord :
    {m : List ℕ} {w : ℕ → ℕ}
    → IsSchedule m w
    → ((t : ℕ) → IsWord (get_or m t 0))
    → (t : ℕ) → t < 64
    → IsWord (w t)
schedule-IsWord s ok t small = elim (dec_lt t 16) [
  | yes first ↦ rw (s.block t first) (ok t)
  | no late ↦
      let e : t - 16 + 16 ≡ t = omega arith in
      rw (← e, s.expand (t - 16) (omega arith)) (omega arith)
]

pub compress-AreWords : (w : ℕ → ℕ) (r : Regs) → AreWords (compress w r)
unfolding compress
compress-AreWords w r = add_regs-AreWords r (rounds w 64 0 r)
