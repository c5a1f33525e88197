-- ===== src/Scan/Search.antt =====
-- The search loop over any transform: it returns, and it returns the first nonce that counts.
use cpuminer.Base.{
  ℕ, zero, suc, ◌+◌, ◌%◌, ◌^◌, ◌≤◌, ◌<◌, ◌≡◌, ◌≢◌, refl, ◌⊎◌, inl, inr, ◌==◌, leb, if◌then◌else◌,
  Bool, true, false, ◌||◌, sym, ◌∙◌, some, List, [], ◌∷◌, ◌++◌, set, ap, arith, Bool-cases, ==_iff,
}
use Prim.Native.Nat.{max}
use cpuminer.Sha.{Regs, words}
use cpuminer.Sha.Generic
use native.Mathlib.Decide.{dec_lt}
use cpuminer.Target.Order.{fulltest-true}
use cpuminer.Scan.{Transform, Run, done, Outcome, scan_loop, scan}

pub set-set {ℓ} : {A : Type ℓ} (xs : List A) (i : ℕ) (u v : A) → set (set xs i u) i v ≡ set xs i v
set-set [] i u v = refl
set-set (x ∷ xs) zero u v = refl
set-set (x ∷ xs) (suc i) u v = ap (λ l. x ∷ l) (set-set xs i u v)

-- The outcome of a scan over the hashes `hash_of`, of the nonces from 1 on.
pub record IsSearch (max_nonce : ℕ) (restart : ℕ → Bool) (block : List ℕ) (hash_of : ℕ → Regs)
    (run : Run) : Type 0 where
  -- The last nonce tried, the only one that can have counted.
  pub last : ℕ
  pub tried : 1 ≤ last
  pub bounded : last ≤ max 1 max_nonce
  pub earlier : (n : ℕ) → 1 ≤ n → n < last → ((hash_of n).h ≢ 0) × (restart n ≡ false)
  pub stops : ((hash_of last).h ≡ 0) ⊎ (max_nonce ≤ last) ⊎ (restart last ≡ true)
  pub returns :
      run
      ≡ done (record {
        found = (hash_of last).h == 0;
        hashes_done = last;
        block = set block 3 last;
        hash = hash_of last;
      })

module _ (transform : Transform) (midstate target : Regs) (max_nonce : ℕ) (beyond : ℕ → List ℕ)
    (restart : ℕ → Bool) (block : List ℕ) (first hash_of : ℕ → Regs) (fits : max_nonce < 2 ^ 32)
    (first_run : (n : ℕ)
      → 1 ≤ n
      → n ≤ max 1 max_nonce
      → transform midstate (set block 3 n) ≡ some (first n))
    (second_run : (n : ℕ)
      → 1 ≤ n
      → n ≤ max 1 max_nonce
      → transform Generic.sha256_init_state (words (first n) ++ beyond n) ≡ some (hash_of n)) where
  -- What the code does in round `n` once the hash is there.
  round_result : ℕ → Run → Run
  round_result n again =
      let stopped : Outcome = record {
        found = false;
        hashes_done = n;
        block = set block 3 n;
        hash = hash_of n;
      } in
      if (hash_of n).h == 0
      then done (record stopped { found = true })
      else if leb max_nonce n || restart n
      then done stopped
      else again

  abbrev again_from : ℕ → ℕ → Run
  again_from fuel n =
      scan_loop transform midstate target max_nonce beyond restart fuel n n (set block 3 n)

  loop-suc :
      (fuel n : ℕ) (b : List ℕ)
      → n < max 1 max_nonce
      → set b 3 (n + 1) ≡ set block 3 (n + 1)
      → scan_loop transform midstate target max_nonce beyond restart (suc fuel) n n b
        ≡ round_result (n + 1) (again_from fuel (n + 1))
  unfolding scan_loop round_result
  loop-suc fuel n b below same =
      let e : (n + 1) % 2 ^ 32 ≡ n + 1 = omega arith in
      let e' : (n + 1) % 2 ^ 64 ≡ n + 1 = omega arith in
      rw
        (
          e,
          e',
          same,
          first_run (n + 1) (omega arith) (omega arith),
          second_run (n + 1) (omega arith) (omega arith),
        )
        (ground (arith, fulltest-true (hash_of (n + 1)) target))

  -- The end of the search in round `n`.
  end-IsSearch :
      (n : ℕ) (found : Bool) (run : Run)
      → 1 ≤ n
      → n ≤ max 1 max_nonce
      → ((k : ℕ) → 1 ≤ k → k < n → ((hash_of k).h ≢ 0) × (restart k ≡ false))
      → ((hash_of n).h ≡ 0) ⊎ (max_nonce ≤ n) ⊎ (restart n ≡ true)
      → ((hash_of n).h == 0) ≡ found
      → run
        ≡ done (record { found = found; hashes_done = n; block = set block 3 n; hash = hash_of n })
      → IsSearch max_nonce restart block hash_of run
  end-IsSearch n found run low high quiet why e returns = record {
    last = n;
    tried = low;
    bounded = high;
    earlier = quiet;
    stops = why;
    returns = rw e returns;
  }

  round_result-again :
      (n : ℕ) (again : Run)
      → ((hash_of n).h == 0) ≡ false
      → (leb max_nonce n || restart n) ≡ false
      → round_result n again ≡ again
  unfolding round_result
  round_result-again n again miss go = rw (miss, go) refl

  loop-IsSearch :
      (fuel n : ℕ) (b : List ℕ)
      → n < max 1 max_nonce
      → max 1 max_nonce ≤ n + fuel
      → ((k : ℕ) → set b 3 k ≡ set block 3 k)
      → ((k : ℕ) → 1 ≤ k → k ≤ n → ((hash_of k).h ≢ 0) × (restart k ≡ false))
      → IsSearch max_nonce restart block hash_of
          (scan_loop transform midstate target max_nonce beyond restart fuel n n b)
  loop-IsSearch zero n b below enough same quiet = absurd (omega arith)
  loop-IsSearch (suc fuel) n b below enough same quiet =
      rw (loop-suc fuel n b below (same (n + 1))) (elim (Bool-cases ((hash_of (n + 1)).h == 0)) [
        | inl hit ↦
            end-IsSearch (n + 1) true _ (omega arith) (omega arith) before
              (inl ((==_iff _ 0).0 hit)) hit (unfold round_result in rw hit refl)
        | inr miss ↦ elim (Bool-cases (leb max_nonce (n + 1) || restart (n + 1))) [
          | inl stop ↦
              end-IsSearch (n + 1) false _ (omega arith) (omega arith) before (ground arith) miss
                (unfold round_result in rw (miss, stop) refl)
          | inr go ↦ rw (round_result-again (n + 1) (again_from fuel (n + 1)) miss go) (
              loop-IsSearch fuel (n + 1) (set block 3 (n + 1)) (ground arith) (omega arith)
                (λ k. set-set block 3 (n + 1) k)
                λ k low high. elim (dec_lt k (n + 1)) [
                  | yes lt ↦ before k low lt
                  | no ge ↦ let e : n + 1 ≡ k = omega arith in rw (← e) (ground arith, ground arith)
                ])
        ]
      ])
    where
      before : (k : ℕ) → 1 ≤ k → k < n + 1 → ((hash_of k).h ≢ 0) × (restart k ≡ false)
      before k low lt = quiet k low (omega arith)

  pub scan-IsSearch :
      IsSearch max_nonce restart block hash_of
        (scan transform midstate target max_nonce beyond restart block)
  unfolding scan
  scan-IsSearch =
      loop-IsSearch (suc max_nonce) 0 block (omega arith) (omega arith) (λ k. refl)
        (λ k low high. absurd (omega arith))

-- The hashes and the flag fix the outcome.
pub IsSearch-unique :
    {max_nonce : ℕ} {restart : ℕ → Bool} {block : List ℕ} {hash_of : ℕ → Regs} {run run' : Run}
    → IsSearch max_nonce restart block hash_of run
    → IsSearch max_nonce restart block hash_of run'
    → run ≡ run'
IsSearch-unique {max_nonce} {restart} {block} {hash_of} p q =
    p.returns
    ∙ ap
        (λ n. done (record {
          found = (hash_of n).h == 0;
          hashes_done = n;
          block = set block 3 n;
          hash = hash_of n;
        }))
        same
    ∙ sym q.returns
  where
    not_before :
        (a b : ℕ)
        → 1 ≤ a
        → b ≤ max 1 max_nonce
        → (((hash_of a).h ≡ 0) ⊎ (max_nonce ≤ a) ⊎ (restart a ≡ true))
        → (a < b → ((hash_of a).h ≢ 0) × (restart a ≡ false))
        → ¬ (a < b)
    not_before a b low high stops quiet lt = ground (arith, quiet lt)

    same : p.last ≡ q.last
    same =
        let pq = not_before p.last q.last p.tried q.bounded p.stops (q.earlier p.last p.tried) in
        let qp = not_before q.last p.last q.tried p.bounded q.stops (p.earlier q.last q.tried) in
        omega arith
