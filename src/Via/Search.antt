-- ===== src/Via/Search.antt =====
-- The scan ends, with the first nonce that counts, and gives the caller's data back with that nonce.
use Prim.Native.Nat.{max}
use native.Mathlib.Decide.{dec_lt}
use cpuminer.Base.{
  ℕ, zero, suc, ◌+◌, ◌%◌, ◌^◌, ◌≤◌, ◌<◌, ◌≡◌, ◌≢◌, refl, ◌∙◌, ap, ◌⊎◌, inl, inr, ◌==◌, leb,
  if◌then◌else◌, Bool, true, false, ◌||◌, Bool-cases, Option, some, List, [], ◌∷◌, map, set, IsWord,
  All, arith,
}
use cpuminer.Sha.{Regs}
use cpuminer.Target.{swab32}
use cpuminer.Target.Order.{swab32_bytes, fulltest-true}
use cpuminer.Scan.Search.{set-set}
use cpuminer.Via.{Scanned, double_hash, via_loop, scanhash_via}

pub swab32-swab32 : (v : ℕ) → IsWord v → swab32 (swab32 v) ≡ v
swab32-swab32 v h =
    let once = swab32_bytes v h in
    let fits : IsWord (swab32 v) = rw once (omega arith) in
    swab32_bytes (swab32 v) fits ∙ rw once (omega arith)

pub swapped_twice : (xs : List ℕ) → All IsWord xs → map swab32 (map swab32 xs) ≡ xs
swapped_twice [] h = refl
swapped_twice (x ∷ xs) h = rw (swab32-swab32 x h.0, swapped_twice xs h.1) refl

pub map-set : (f : ℕ → ℕ) (xs : List ℕ) (i v : ℕ) → map f (set xs i v) ≡ set (map f xs) i (f v)
map-set f [] i v = refl
map-set f (x ∷ xs) zero v = refl
map-set f (x ∷ xs) (suc i) v = ap (λ l. f x ∷ l) (map-set f xs i v)

-- Swapping back a block in which word 19 was set.
swapped_back :
    (xs : List ℕ) (n : ℕ)
    → All IsWord xs
    → map swab32 (set (map swab32 xs) 19 n) ≡ set xs 19 (swab32 n)
swapped_back xs n h =
    map-set swab32 (map swab32 xs) 19 n ∙ ap (λ l. set l 19 (swab32 n)) (swapped_twice xs h)

module _ (via_sha256 : Regs → List ℕ → ℕ → Regs) (target : Regs) (max_nonce : ℕ)
    (restart : ℕ → Bool) (data_inout : List ℕ) (fits : max_nonce < 2 ^ 32)
    (ok : All IsWord data_inout) where
  abbrev swapped : List ℕ
  swapped = map swab32 data_inout

  -- The last word of the double hash with nonce `n`.
  abbrev pub last_word : ℕ → ℕ
  last_word n =
      (double_hash via_sha256 target max_nonce restart (set (map swab32 data_inout) 19 n)).h

  -- What the scan returns when round `n` is its last.
  abbrev pub ends_at : ℕ → Scanned
  ends_at n = record {
    found = last_word n == 0;
    hashes_done = n;
    data_inout = if last_word n == 0 then set data_inout 19 (swab32 n) else data_inout;
  }

  pub record IsViaSearch (run : Option Scanned) : Type 0 where
    pub last : ℕ
    pub tried : 1 ≤ last
    pub bounded : last ≤ max 1 max_nonce
    pub earlier : (n : ℕ) → 1 ≤ n → n < last → (last_word n ≢ 0) × (restart n ≡ false)
    pub stops : (last_word last ≡ 0) ⊎ (max_nonce ≤ last) ⊎ (restart last ≡ true)
    pub returns : run ≡ some (ends_at last)

  abbrev run_from : ℕ → ℕ → List ℕ → Option Scanned
  run_from fuel n data32 = via_loop via_sha256 target max_nonce restart fuel n n data_inout data32

  loop-suc :
      (fuel n : ℕ) (b : List ℕ)
      → n < max 1 max_nonce
      → set b 19 (n + 1) ≡ set swapped 19 (n + 1)
      → run_from (suc fuel) n b ≡ (
          if (last_word (n + 1) == 0) || (leb max_nonce (n + 1) || restart (n + 1))
          then some (ends_at (n + 1))
          else run_from fuel (n + 1) (set swapped 19 (n + 1)))
  unfolding via_loop
  loop-suc fuel n b below same =
      let e : (n + 1) % 2 ^ 32 ≡ n + 1 = omega arith in
      let e' : (n + 1) % 2 ^ 64 ≡ n + 1 = omega arith in
      rw (e, e', same, swapped_back data_inout (n + 1) ok)
        (ground (
          arith,
          fulltest-true (double_hash via_sha256 target max_nonce restart (set swapped 19 (n + 1)))
              target,
        ))

  loop-IsViaSearch :
      (fuel n : ℕ) (b : List ℕ)
      → n < max 1 max_nonce
      → max 1 max_nonce ≤ n + fuel
      → ((k : ℕ) → set b 19 k ≡ set swapped 19 k)
      → ((k : ℕ) → 1 ≤ k → k ≤ n → (last_word k ≢ 0) × (restart k ≡ false))
      → IsViaSearch (run_from fuel n b)
  loop-IsViaSearch zero n b below enough same quiet = absurd (omega arith)
  loop-IsViaSearch (suc fuel) n b below enough same quiet =
      let step = loop-suc fuel n b below (same (n + 1)) in
      elim (Bool-cases ((last_word (n + 1) == 0) || (leb max_nonce (n + 1) || restart (n + 1)))) [
        | inl ends ↦ record {
          last = n + 1;
          tried = omega arith;
          bounded = omega arith;
          earlier = λ k low lt. quiet k low (omega arith);
          stops = reason (n + 1) ends;
          returns = step ∙ rw ends refl;
        }
        | inr go ↦
            let rest =
              loop-IsViaSearch fuel (n + 1) (set swapped 19 (n + 1)) (going (n + 1) go).1
                (omega arith) (λ k. set-set swapped 19 (n + 1) k)
                (λ k low high. elim (dec_lt k (n + 1)) [
                  | yes lt ↦ quiet k low (omega arith)
                  | no ge ↦ let e : n + 1 ≡ k = omega arith in rw (← e) (going (n + 1) go).0
                ]) in
            record {
              last = rest.last;
              tried = rest.tried;
              bounded = rest.bounded;
              earlier = rest.earlier;
              stops = rest.stops;
              returns = step ∙ rw go rest.returns;
            }
      ]
    where
      reason :
          (m : ℕ)
          → ((last_word m == 0) || (leb max_nonce m || restart m)) ≡ true
          → (last_word m ≡ 0) ⊎ (max_nonce ≤ m) ⊎ (restart m ≡ true)
      reason m h = ground arith

      going :
          (m : ℕ)
          → ((last_word m == 0) || (leb max_nonce m || restart m)) ≡ false
          → ((last_word m ≢ 0) × (restart m ≡ false)) × (m < max 1 max_nonce)
      going m h = (ground arith, ground arith)

  -- `scanhash_via` tries the nonces from 1 to `max_nonce`, at least one, and returns after finitely
  -- many rounds: with the first nonce whose double hash ends in a zero word, or at the limit or a
  -- restart with no nonce. With a nonce the caller's data comes back with that nonce, its bytes
  -- swapped, in word 19 and is otherwise unchanged; without one it is unchanged. The data is words of
  -- 32 bits.
  pub scanhash_via-IsViaSearch :
      IsViaSearch (scanhash_via via_sha256 target max_nonce restart data_inout)
  unfolding scanhash_via
  scanhash_via-IsViaSearch =
      loop-IsViaSearch (suc max_nonce) 0 swapped (omega arith) (omega arith) (λ k. refl)
        (λ k low high. absurd (omega arith))
