-- ===== src/Main.antt =====
-- `main` of cpu-miner.c: from the command line to the wait for the work thread. What the allocations and
-- `pthread_create` return are parameters, the ones for a thread by its number. The log and the pause
-- of a second after each thread are left out.
pub mod Started
use cpuminer.Base.{
  ℕ, zero, suc, ◌+◌, ltb, if◌then◌else◌, Bool, true, false, ◌&&◌, Option, none, some, List, [], ◌∷◌,
}
use cpuminer.Base.Int.{ℤ, pos, negsuc}
use cpuminer.Options.{Text, Algo, Reader, Settings, parse_cmdline, start_settings, login}

-- The function that a thread runs.
pub data Role : Type 0 where
  workio_thread longpoll_thread miner_thread : Role

-- An entry of `thr_info` whose thread runs: its index and `id`.
pub record ThrInfo : Type 0 where
  pub role : Role
  pub id : ℕ

pub record Resources : Type 0 where
  pub login_ok : Bool
  pub work_restart_ok : Bool
  pub thr_info_ok : Bool
  pub queue_ok : ℕ → Bool
  pub create_ok : ℕ → Bool

-- `main` has returned 1, or waits in `pthread_join`; with the threads that it has started, in order.
-- `fault` is an access outside `thr_info`.
pub data Outcome : Type 0 where
  failed : List ThrInfo → Outcome
  joining : List ThrInfo → Outcome
  fault : Outcome

-- How many entries the arrays have that `calloc` has given.
pub record Arrays : Type 0 where
  pub work_restart : ℕ
  pub thr_info : ℕ

abbrev pub allocated : ℕ → Arrays
allocated opt_n_threads = record { work_restart = opt_n_threads; thr_info = opt_n_threads + 2 }

-- The threads that are started before the rest of `main`.
abbrev pub after : ThrInfo → Outcome → Outcome
after t (failed ts) = failed (t ∷ ts)
after t (joining ts) = joining (t ∷ ts)
after t fault = fault

module _ (resources : Resources) where
  module _ (arrays : Arrays) where
    -- `thr = &thr_info[…]; … thr->q = tq_new(); … pthread_create(…)` for the thread `t`, and then the
    -- rest.
    unfoldable pub start_thread : ThrInfo → Outcome → Outcome
    start_thread t rest =
        if ltb t.id arrays.thr_info
        then if resources.queue_ok t.id
          then if resources.create_ok t.id then after t rest else failed []
          else failed []
        else fault

    -- The iterations that are left, from `i` on.
    unfoldable pub miners_loop : ℕ → ℕ → Outcome
    miners_loop zero i = joining []
    miners_loop (suc left) i =
        let rest = miners_loop left (suc i) in
        start_thread (record { role = miner_thread; id = i }) rest

    unfoldable pub start_longpoll : ℕ → Bool → Outcome → Outcome
    start_longpoll n want_longpoll rest =
        if want_longpoll
        then start_thread (record { role = longpoll_thread; id = n + 1 }) rest
        else rest

  unfoldable pub start_threads : ℕ → Bool → Outcome
  start_threads n want_longpoll =
      let arrays = allocated n in
      if resources.work_restart_ok && resources.thr_info_ok
      then start_thread arrays (record { role = workio_thread; id = n })
          (start_longpoll arrays n want_longpoll (miners_loop arrays n 0))
      else failed []

  -- The limit of the loop over the mining threads.
  abbrev pub loop_limit : ℤ → ℕ
  loop_limit (pos n) = n
  loop_limit (negsuc n) = 0

  -- `main` behind the test of the login.
  abbrev pub with_login : {Value : Type 0} → Settings Value → Option Text → Outcome
  with_login s none = failed []
  with_login s (some rpc_userpass) = start_threads (loop_limit s.opt_n_threads) s.want_longpoll

  module _ (json : Reader) (built : Algo → Bool) (strdup : Text → Option Text) (sysconf : ℤ) where
    -- `main` behind `parse_cmdline`, which may end the program.
    abbrev pub with_settings : Option (Settings json.Value) → Outcome
    with_settings none = failed []
    with_settings (some s) = with_login s (login json built strdup sysconf resources.login_ok s)

    -- `found` is what `getopt_long` returns in turn.
    unfoldable pub main : List (ℕ × Text) → Outcome
    main found =
        with_settings
          (parse_cmdline json built strdup sysconf found (start_settings json built strdup sysconf))
