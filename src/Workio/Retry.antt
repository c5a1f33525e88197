-- ===== src/Workio/Retry.antt =====
-- How many attempts the loops make, and what they return.
use cpuminer.Base.{
  ℕ, zero, suc, ◌+◌, ◌≤◌, ◌<◌, ◌≡◌, refl, ap, ◌∙◌, sym, ◌⊎◌, inl, inr, if◌then◌else◌, Bool,
  Bool-cases, if◌then◌else◌, true, false, arith,
}
use native.Mathlib.Decide.{ℕ_discrete}
use cpuminer.Base.Int.{ℤ, pos, negsuc, ltb_ℤ, ◌≤ℤ◌, ◌<ℤ◌}
use cpuminer.Workio.{Ended, finished, gave_up, exhausted, retry_loop}

module _ {A : Type 0} (attempt : ℕ → A → Bool × A) where
  -- The state before attempt `i`, and whether that attempt succeeds.
  abbrev pub before : ℕ → A → A
  before zero a = a
  before (suc i) a = (attempt i (before i a)).1

  abbrev pub succeeds : ℕ → A → Bool
  succeeds i a = (attempt i (before i a)).0

-- The value of `failures` before attempt `i`.
abbrev failures_at : ℤ → ℕ → ℕ
failures_at opt_retries i = if ltb_ℤ opt_retries (pos 0) then 0 else i

-- The limit allows attempt `i`.
abbrev pub Allows : ℤ → ℕ → Type 0
Allows opt_retries i = (opt_retries <ℤ pos 0) ⊎ (pos i ≤ℤ opt_retries)

failures_at_start : (opt_retries : ℤ) → failures_at opt_retries 0 ≡ 0
failures_at_start (pos r) = ground arith
failures_at_start (negsuc n) = ground arith

exhausted_lem :
    (opt_retries : ℤ) (i : ℕ)
    → Allows opt_retries (suc i)
    → exhausted opt_retries (failures_at opt_retries i) ≡ (false, failures_at opt_retries (suc i))
unfolding exhausted
exhausted_lem (pos r) i h = ground arith
exhausted_lem (negsuc n) i h = ground arith

exhausted_last : (r i : ℕ) → i ≡ r → (exhausted (pos r) (failures_at (pos r) i)).0 ≡ true
unfolding exhausted
exhausted_last r i e = ground arith

Allows-le : (opt_retries : ℤ) (i k : ℕ) → i ≤ k → Allows opt_retries k → Allows opt_retries i
Allows-le opt_retries i k h (inl no_limit) = inl no_limit
Allows-le opt_retries i k h (inr below) = inr (omega arith)

module _ {A : Type 0} (opt_retries : ℤ) (attempt : ℕ → A → Bool × A) (a : A) where
  abbrev run_from : ℕ → ℕ → Ended A
  run_from fuel i =
      retry_loop opt_retries attempt fuel i (failures_at opt_retries i) (before attempt i a)

  failed_step :
      (fuel i : ℕ)
      → succeeds attempt i a ≡ false
      → Allows opt_retries (suc i)
      → run_from (suc fuel) i ≡ run_from fuel (suc i)
  unfolding retry_loop
  failed_step fuel i failed allowed = rw (failed, exhausted_lem opt_retries i allowed) refl

  -- `d` attempts fail from `i` on, and the next one succeeds.
  finished_from :
      (d i k fuel : ℕ)
      → i + d ≡ k
      → ((j : ℕ) → j < k → succeeds attempt j a ≡ false)
      → succeeds attempt k a ≡ true
      → Allows opt_retries k
      → d < fuel
      → run_from fuel i ≡ finished (suc k) (before attempt (suc k) a)
  finished_from d i k zero e failed good allowed small = absurd (omega arith)
  finished_from zero i k (suc fuel) e failed good allowed small =
      let same : k ≡ i = omega arith in
      rw same (
        unfold retry_loop in
        (let good' : succeeds attempt i a ≡ true = rw (← same) good in rw good' refl))
  finished_from (suc d) i k (suc fuel) e failed good allowed small =
      failed_step fuel i (failed i (omega arith))
        (Allows-le opt_retries (suc i) k (omega arith) allowed)
      ∙ finished_from d (suc i) k fuel (omega arith) failed good allowed (omega arith)

module _ {A : Type 0} (r : ℕ) (attempt : ℕ → A → Bool × A) (a : A) where
  gave_up_from :
      (d i fuel : ℕ)
      → i + d ≡ r
      → ((j : ℕ) → j ≤ r → succeeds attempt j a ≡ false)
      → d < fuel
      → run_from (pos r) attempt a fuel i ≡ gave_up (suc r)
  gave_up_from d i zero e failed small = absurd (omega arith)
  gave_up_from zero i (suc fuel) e failed small =
      let same : i ≡ r = omega arith in
      unfold retry_loop in rw (failed i (omega arith), exhausted_last r i same, same) refl
  gave_up_from (suc d) i (suc fuel) e failed small =
      failed_step (pos r) attempt a fuel i (failed i (omega arith)) (inr (omega arith))
      ∙ gave_up_from d (suc i) fuel (omega arith) failed (omega arith)

start_lem :
    {A : Type 0} (opt_retries : ℤ) (attempt : ℕ → A → Bool × A) (a : A) (fuel : ℕ)
    → retry_loop opt_retries attempt fuel 0 0 a ≡ run_from opt_retries attempt a fuel 0
start_lem opt_retries attempt a fuel =
    ap (λ failures. retry_loop opt_retries attempt fuel 0 failures a)
      (sym (failures_at_start opt_retries))

all_failed :
    {A : Type 0} (attempt : ℕ → A → Bool × A) (a : A) (k : ℕ)
    → ((j : ℕ) → j < k → succeeds attempt j a ≡ false)
    → succeeds attempt k a ≡ false
    → (j : ℕ) → j ≤ k
    → succeeds attempt j a ≡ false
all_failed attempt a k failed last j h = elim (ℕ_discrete j k) [
  | yes same ↦ rw same last
  | no other ↦ failed j (omega arith)
]

-- Attempt `k`, after `k` that failed, ends the loop if it succeeds or is the last one that the limit
-- allows: the loop finishes with the state that it leaves, or gives up after `k + 1` attempts. With
-- `opt_retries` below 0 there is no limit, and else it allows `opt_retries` attempts after the first.
pub retry_loop_lem :
    {A : Type 0} (opt_retries : ℤ) (attempt : ℕ → A → Bool × A) (a : A) (k fuel : ℕ)
    → k < fuel
    → Allows opt_retries k
    → ((j : ℕ) → j < k → succeeds attempt j a ≡ false)
    → (succeeds attempt k a ≡ true) ⊎ (opt_retries ≡ pos k)
    → retry_loop opt_retries attempt fuel 0 0 a ≡ (
        if succeeds attempt k a
        then finished (suc k) (before attempt (suc k) a)
        else gave_up (suc k))
retry_loop_lem opt_retries attempt a k fuel small allowed failed ends =
    elim (Bool-cases (succeeds attempt k a)) [
      | inl good ↦ rw good (
          start_lem opt_retries attempt a fuel
          ∙ finished_from opt_retries attempt a k 0 k fuel (omega arith) failed good allowed small)
      | inr bad ↦ elim ends [
        | inl good ↦ absurd cc
        | inr limit ↦
            rw (bad, limit)
              (start_lem (pos k) attempt a fuel
                ∙ gave_up_from k attempt a k 0 fuel (omega arith)
                    (all_failed attempt a k failed bad) small)
      ]
    ]
