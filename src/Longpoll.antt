-- ===== src/Longpoll.antt =====
-- The request loop of `longpoll_thread` of cpu-miner.c, and `restart_threads`. The answers of the server
-- are a parameter: for each request whether `json_rpc_call` returns a value.
pub mod Failures
use cpuminer.Base.{ℕ, zero, suc, ◌+◌, ltb, if◌then◌else◌, Bool, true, false, List, [], ◌∷◌, set}

-- The loop over the threads from `i` on, with the threads that are left. The list is the flags
-- `work_restart[i].restart`.
unfoldable pub restart_loop : ℕ → ℕ → List ℕ → List ℕ
restart_loop zero i flags = flags
restart_loop (suc left) i flags = restart_loop left (suc i) (set flags i 1)

unfoldable pub restart_threads : ℕ → List ℕ → List ℕ
restart_threads opt_n_threads flags = restart_loop opt_n_threads 0 flags

-- Where the thread is after these answers, and the flags.
pub data Polled : Type 0 where
  polling : ℕ → List ℕ → Polled
  ended : List ℕ → Polled

unfoldable pub poll_loop : ℕ → List Bool → ℕ → List ℕ → Polled
poll_loop opt_n_threads [] failures flags = polling failures flags
poll_loop opt_n_threads (true ∷ answers) failures flags =
    poll_loop opt_n_threads answers 0 (restart_threads opt_n_threads flags)
poll_loop opt_n_threads (false ∷ answers) failures flags =
    let rest = poll_loop opt_n_threads answers (failures + 1) flags in
    if ltb failures 10 then rest else ended flags
