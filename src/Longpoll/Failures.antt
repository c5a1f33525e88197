-- ===== src/Longpoll/Failures.antt =====
-- When the thread ends, and whom an answer restarts.
use Prim.Native.Nat.{max}
use native.Mathlib.Decide.{ℕ_discrete}
use cpuminer.Base.{
  if◌then◌else◌, Bool-cases, inl, inr, ltb, ltb_lt, ltb_le, ℕ, zero, suc, ◌+◌, ◌≤◌, ◌<◌, ◌≡◌, ◌↔◌,
  refl, ◌∙◌, Bool, true, false, List, [], ◌∷◌, set, get_or, length, ltb-lt, length-set,
  get_or-set_self, get_or-set_ne, arith,
}
use cpuminer.Longpoll.{restart_loop, restart_threads, Polled, polling, ended, poll_loop}

abbrev pub has_ended : Polled → Bool
has_ended (polling failures flags) = false
has_ended (ended flags) = true

-- The longest run of failed answers, where `n` have failed just before.
abbrev pub longest_run : ℕ → List Bool → ℕ
longest_run n [] = n
longest_run n (true ∷ answers) = max n (longest_run 0 answers)
longest_run n (false ∷ answers) = longest_run (n + 1) answers

longest_run-le : (n : ℕ) (answers : List Bool) → n ≤ longest_run n answers
longest_run-le n [] = omega arith
longest_run-le n (true ∷ answers) = omega arith
longest_run-le n (false ∷ answers) = omega (arith, longest_run-le (n + 1) answers)

poll_from :
    (threads : ℕ) (answers : List Bool) (failures : ℕ) (flags : List ℕ)
    → failures ≤ 10
    → (has_ended (poll_loop threads answers failures flags) ≡ true)
      ↔ (11 ≤ longest_run failures answers)
unfolding poll_loop
poll_from threads [] failures flags h = ((λ e. absurd cc), (λ l. absurd (omega arith)))
poll_from threads (true ∷ answers) failures flags h =
    let rest = poll_from threads answers 0 (restart_threads threads flags) (omega arith) in
    ((λ e. let l = rest.0 e in omega arith), (λ l. rest.1 (omega arith)))
poll_from threads (false ∷ answers) failures flags h = elim (ℕ_discrete failures 10) [
  | yes e ↦ rw e ((λ l. longest_run-le 11 answers), (λ l. refl))
  | no ne ↦
      let test = ltb-lt failures 10 (omega arith) in
      rw test (poll_from threads answers (failures + 1) flags (omega arith))
]

-- The thread ends with the eleventh failure in a row, and for no other sequence of answers.
pub poll_loop_iff :
    (threads : ℕ) (answers : List Bool) (flags : List ℕ)
    → (has_ended (poll_loop threads answers 0 flags) ≡ true) ↔ (11 ≤ longest_run 0 answers)
poll_loop_iff threads answers flags = poll_from threads answers 0 flags (omega arith)

restart_from :
    (left i : ℕ) (flags : List ℕ) (j : ℕ)
    → i + left ≤ length flags
    → (i ≤ j → j < i + left → get_or (restart_loop left i flags) j 0 ≡ 1)
      × (j < i → get_or (restart_loop left i flags) j 0 ≡ get_or flags j 0)
      × (i + left ≤ j → get_or (restart_loop left i flags) j 0 ≡ get_or flags j 0)
      × (length (restart_loop left i flags) ≡ length flags)
unfolding restart_loop
restart_from zero i flags j h = ((λ p q. absurd (omega arith)), (λ p. refl), (λ p. refl), refl)
restart_from (suc left) i flags j h =
    let kept = length-set flags i 1 in
    let rest = restart_from left (suc i) (set flags i 1) j (omega arith) in
    (
      λ p q. elim (ℕ_discrete i j) [
        | yes e ↦ rest.1 (omega arith) ∙ rw e (get_or-set_self flags j 1 0 (omega arith))
        | no ne ↦ rest.0 (omega arith) (omega arith)
      ],
      λ p. rest.1 (omega arith) ∙ get_or-set_ne flags i j 1 0 (λ e. absurd (omega arith)),
      λ p. rest.2 (omega arith) ∙ get_or-set_ne flags i j 1 0 (λ e. absurd (omega arith)),
      rest.3 ∙ kept,
    )

-- With a flag for each thread `restart_threads` sets the flags of all threads and no other.
restart_threads_lem :
    (threads : ℕ) (flags : List ℕ) (j : ℕ)
    → threads ≤ length flags
    → (get_or (restart_threads threads flags) j 0 ≡ (if ltb j threads then 1 else get_or flags j 0))
      × (length (restart_threads threads flags) ≡ length flags)
unfolding restart_threads
restart_threads_lem threads flags j h =
    let all = restart_from threads 0 flags j (omega arith) in
    (
      elim (Bool-cases (ltb j threads)) [
        | inl e ↦ let below = ltb_lt _ _ e in rw e (all.0 (omega arith) (omega arith))
        | inr e ↦ let above = ltb_le _ _ e in rw e (all.2 (omega arith))
      ],
      all.3,
    )
