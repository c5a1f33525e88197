-- ===== src/Main/Started.antt =====
-- Which threads `main` has started when it waits, and when it gives up.
use cpuminer.Base.{
  ℕ, zero, suc, ◌+◌, ◌<◌, ◌≤◌, ◌≡◌, ◌≢◌, ◌⊎◌, refl, ltb-lt, if◌then◌else◌, Bool, true, false, ◌&&◌,
  Option, none, some, List, [], ◌∷◌, ◌++◌, map, All, Bool-cases, inl, inr, arith,
}
use cpuminer.Base.Int.{ℤ, pos, negsuc, ◌≤ℤ◌}
use cpuminer.Elist.Ring.{◌∉◌, Distinct}
use cpuminer.Options.{Text, Algo, algo_c, Reader, Settings, parse_cmdline, start_settings, login}
use cpuminer.Options.Holds.{Holds}
use cpuminer.Options.Ready.{IsLogin, IsConfigured, parse_cmdline-IsSane}
use cpuminer.Main.{
  workio_thread, longpoll_thread, miner_thread, ThrInfo, Resources, Outcome, failed, joining, fault,
  Arrays, allocated, after, start_thread, miners_loop, start_longpoll, start_threads, with_login,
  with_settings, main,
}

abbrev pub started : Outcome → List ThrInfo
started (failed ts) = ts
started (joining ts) = ts
started fault = []

abbrev pub ids : List ThrInfo → List ℕ
ids ts = map (λ (t : ThrInfo). t.id) ts

-- `left` mining threads from number `i` on.
abbrev pub miners : ℕ → ℕ → List ThrInfo
miners zero i = []
miners (suc left) i = record { role = miner_thread; id = i } ∷ miners left (suc i)

abbrev pub longpolls : ℕ → Bool → List ThrInfo
longpolls n want = if want then record { role = longpoll_thread; id = n + 1 } ∷ [] else []

-- The threads of the program with `n` mining threads.
abbrev pub all_threads : ℕ → Bool → List ThrInfo
all_threads n want = record { role = workio_thread; id = n } ∷ longpolls n want ++ miners n 0

module _ (resources : Resources) where
  abbrev pub Lacks : ThrInfo → Type 0
  Lacks t = (resources.queue_ok t.id ≡ false) ⊎ (resources.create_ok t.id ≡ false)

  -- The threads are started in this order until one cannot be.
  pub data IsStart : List ThrInfo → Outcome → Type 0 where
    gave_up : (t : ThrInfo) (ts : List ThrInfo) → Lacks t → IsStart (t ∷ ts) (failed [])
    went_on : IsStart [] (joining [])
    next :
        (t : ThrInfo) (ts : List ThrInfo) (o : Outcome)
        → resources.queue_ok t.id ≡ true
        → resources.create_ok t.id ≡ true
        → IsStart ts o
        → IsStart (t ∷ ts) (after t o)

  module _ (arrays : Arrays) where
    start_thread-IsStart :
        (t : ThrInfo) (ts : List ThrInfo) (rest : Outcome)
        → t.id < arrays.thr_info
        → IsStart ts rest
        → IsStart (t ∷ ts) (start_thread resources arrays t rest)
    unfolding start_thread
    start_thread-IsStart t ts rest lt v =
        let inside = ltb-lt _ _ lt in
        elim (Bool-cases (resources.queue_ok t.id)) [
          | inl queue ↦ elim (Bool-cases (resources.create_ok t.id)) [
            | inl create ↦ rw (inside, queue, create) (next t ts rest queue create v)
            | inr no_thread ↦ rw (inside, queue, no_thread) (gave_up t ts (inr no_thread))
          ]
          | inr no_queue ↦ rw (inside, no_queue) (gave_up t ts (inl no_queue))
        ]

    miners_loop-IsStart :
        (left i : ℕ)
        → i + left ≤ arrays.thr_info
        → IsStart (miners left i) (miners_loop resources arrays left i)
    unfolding miners_loop
    miners_loop-IsStart zero i h = went_on
    miners_loop-IsStart (suc left) i h =
        start_thread-IsStart _ (miners left (suc i)) _ (omega arith)
          (miners_loop-IsStart left (suc i) (omega arith))

  -- `calloc` fails, or the threads are started.
  abbrev pub AreInOrder : ℕ → Bool → Outcome → Type 0
  AreInOrder n want o =
      (((resources.work_restart_ok && resources.thr_info_ok) ≡ false) × (o ≡ failed []))
      ⊎ IsStart (all_threads n want) o

  start_threads-AreInOrder :
      (n : ℕ) (want : Bool) → AreInOrder n want (start_threads resources n want)
  unfolding start_threads start_longpoll
  start_threads-AreInOrder n want =
      elim (Bool-cases (resources.work_restart_ok && resources.thr_info_ok)) [
        | inl memory ↦ rw memory (inr (by_longpoll want))
        | inr none_left ↦ rw none_left (inl (refl, refl))
      ]
    where
      by_longpoll :
          (b : Bool)
          → IsStart (all_threads n b) (
              start_thread resources
                (allocated n)
                (record { role = workio_thread; id = n })
                (start_longpoll resources
                  (allocated n)
                  n
                  b
                  (miners_loop resources (allocated n) n 0)))
      by_longpoll true = start_thread-IsStart (allocated n) _ _ _ (omega arith) (
          start_thread-IsStart (allocated n) _ _ _ (omega arith)
            (miners_loop-IsStart (allocated n) n 0 (omega arith)))
      by_longpoll false =
          start_thread-IsStart (allocated n) _ _ _ (omega arith)
            (miners_loop-IsStart (allocated n) n 0 (omega arith))

  IsStart-safe : {ts : List ThrInfo} {o : Outcome} → IsStart ts o → o ≢ fault
  IsStart-safe (gave_up t ts l) e = absurd cc
  IsStart-safe went_on e = absurd cc
  IsStart-safe (next t ts (failed us) q c v) e = absurd cc
  IsStart-safe (next t ts (joining us) q c v) e = absurd cc
  IsStart-safe (next t ts fault q c v) e = IsStart-safe v refl

  IsStart-All :
      (P : ThrInfo → Type 0) {ts : List ThrInfo} {o : Outcome}
      → IsStart ts o
      → All P ts
      → All P (started o)
  IsStart-All P (gave_up t ts l) h = tt
  IsStart-All P went_on h = tt
  IsStart-All P (next t ts (failed us) q c v) h = (h.0, IsStart-All P v h.1)
  IsStart-All P (next t ts (joining us) q c v) h = (h.0, IsStart-All P v h.1)
  IsStart-All P (next t ts fault q c v) h = tt

  IsStart-apart :
      (a : ℕ) {ts : List ThrInfo} {o : Outcome} → IsStart ts o → a ∉ ids ts → a ∉ ids (started o)
  IsStart-apart a (gave_up t ts l) h = refl
  IsStart-apart a went_on h = refl
  IsStart-apart a (next t ts (failed us) q c v) h =
      let rest : a ∉ ids ts = ground arith in ground (arith, IsStart-apart a v rest)
  IsStart-apart a (next t ts (joining us) q c v) h =
      let rest : a ∉ ids ts = ground arith in ground (arith, IsStart-apart a v rest)
  IsStart-apart a (next t ts fault q c v) h = refl

  IsStart-Distinct :
      {ts : List ThrInfo} {o : Outcome}
      → IsStart ts o
      → Distinct (ids ts)
      → Distinct (ids (started o))
  IsStart-Distinct (gave_up t ts l) h = tt
  IsStart-Distinct went_on h = tt
  IsStart-Distinct (next t ts (failed us) q c v) h =
      (IsStart-apart t.id v h.0, IsStart-Distinct v h.1)
  IsStart-Distinct (next t ts (joining us) q c v) h =
      (IsStart-apart t.id v h.0, IsStart-Distinct v h.1)
  IsStart-Distinct (next t ts fault q c v) h = tt

  IsStart-joining :
      {ts : List ThrInfo} {o : Outcome}
      → IsStart ts o
      → (us : List ThrInfo) → o ≡ joining us
      → us ≡ ts
  IsStart-joining (gave_up t ts l) us e = absurd cc
  IsStart-joining went_on us e = cc
  IsStart-joining (next t ts (failed us') q c v) us e = absurd cc
  IsStart-joining (next t ts fault q c v) us e = absurd cc
  IsStart-joining (next t ts (joining us') q c v) us e = let rest = IsStart-joining v us' refl in cc

-- A mining thread also has a number within `work_restart`.
abbrev pub IsIndex : ℕ → ThrInfo → Type 0
IsIndex n t =
    (t.id < (allocated n).thr_info)
    × ((t.role ≢ miner_thread) ⊎ (t.id < (allocated n).work_restart))

miners-range : (left i n : ℕ) → i + left ≤ n → All (IsIndex n) (miners left i)
miners-range zero i n h = tt
miners-range (suc left) i n h =
    ((omega arith, inr (omega arith)), miners-range left (suc i) n (omega arith))

miners-below : (left i a : ℕ) → a < i → a ∉ ids (miners left i)
miners-below zero i a h = refl
miners-below (suc left) i a h = ground (arith, miners-below left (suc i) a (omega arith))

miners-above : (left i a : ℕ) → i + left ≤ a → a ∉ ids (miners left i)
miners-above zero i a h = refl
miners-above (suc left) i a h = ground (arith, miners-above left (suc i) a (omega arith))

miners-Distinct : (left i : ℕ) → Distinct (ids (miners left i))
miners-Distinct zero i = tt
miners-Distinct (suc left) i =
    (miners-below left (suc i) i (omega arith), miners-Distinct left (suc i))

all_threads-range : (n : ℕ) (want : Bool) → All (IsIndex n) (all_threads n want)
all_threads-range n true = (
  (omega arith, inl (λ e. absurd cc)),
  ((omega arith, inl (λ e. absurd cc)), miners-range n 0 n (omega arith)),
)
all_threads-range n false = ((omega arith, inl (λ e. absurd cc)), miners-range n 0 n (omega arith))

all_threads-Distinct : (n : ℕ) (want : Bool) → Distinct (ids (all_threads n want))
all_threads-Distinct n true = (
  ground (arith, miners-above n 0 n (omega arith)),
  (miners-above n 0 (n + 1) (omega arith), miners-Distinct n 0),
)
all_threads-Distinct n false = (miners-above n 0 n (omega arith), miners-Distinct n 0)

-- What `main` comes to with that many mining threads: the threads that run have numbers of their own
-- within the arrays, they are all of the program's where `main` waits for the work thread, and it
-- gives up only where something is lacking.
pub record AreStarted (resources : Resources) (n : ℕ) (want : Bool) (o : Outcome) : Type 0 where
  pub in_order : AreInOrder resources n want o
  pub safe : o ≢ fault
  pub in_range : All (IsIndex n) (started o)
  pub distinct : Distinct (ids (started o))
  pub complete : (ts : List ThrInfo) → o ≡ joining ts → ts ≡ all_threads n want

AreStarted-of_AreInOrder :
    (resources : Resources) (n : ℕ) (want : Bool) (o : Outcome)
    → AreInOrder resources n want o
    → AreStarted resources n want o
AreStarted-of_AreInOrder resources n want o (inl v) = record {
  in_order = inl v;
  safe = λ e. absurd (let same = v.1 in cc);
  in_range = rw v.1 tt;
  distinct = rw v.1 tt;
  complete = λ ts e. absurd (let same = v.1 in cc);
}
AreStarted-of_AreInOrder resources n want o (inr v) = record {
  in_order = inr v;
  safe = IsStart-safe resources v;
  in_range = IsStart-All resources (IsIndex n) v (all_threads-range n want);
  distinct = IsStart-Distinct resources v (all_threads-Distinct n want);
  complete = λ ts e. IsStart-joining resources v ts e;
}

-- With those settings `main` starts the threads that they ask for.
pub record Goes (resources : Resources) {Value : Type 0} (s : Settings Value) (o : Outcome)
    : Type 0 where
  pub count : ℕ
  pub threads : s.opt_n_threads ≡ pos count
  pub at_least : 1 ≤ count
  pub are_started : AreStarted resources count s.want_longpoll o

at_least_one : (z : ℤ) → pos 1 ≤ℤ z → (n : ℕ) × (z ≡ pos n) × (1 ≤ n)
at_least_one (pos n) h = (n, refl, omega arith)
at_least_one (negsuc n) h = absurd (omega arith)

module _ (resources : Resources) (json : Reader) (built : Algo → Bool) (strdup : Text → Option Text)
    (sysconf : ℤ) where
  -- `main` behind the login, and behind the command line: where there is none it returns 1 at once.
  abbrev pub IsLoggedIn : Settings json.Value → Option Text → Outcome → Type 0
  IsLoggedIn s none o = o ≡ failed []
  IsLoggedIn s (some userpass) o = Goes resources s o

  abbrev pub IsMain : Option (Settings json.Value) → Outcome → Type 0
  IsMain none o = o ≡ failed []
  IsMain (some s) o = IsLoggedIn s (login json built strdup sysconf resources.login_ok s) o

  module _ (copies : (t u : Text) → strdup t ≡ some u → u ≡ t) (counts : pos 1 ≤ℤ sysconf) where
    login-IsLoggedIn :
        (s : Settings json.Value) (l : Option Text)
        → Holds (IsLogin json built strdup sysconf copies counts s) l
        → IsLoggedIn s l (with_login resources s l)
    login-IsLoggedIn s none h = refl
    login-IsLoggedIn s (some userpass) h =
        let (n, same, enough) = at_least_one s.opt_n_threads h.0.1 in
        record {
          count = n;
          threads = same;
          at_least = enough;
          are_started = rw same (
              AreStarted-of_AreInOrder resources n s.want_longpoll _
                (start_threads-AreInOrder resources n s.want_longpoll));
        }

    settings-IsMain :
        (o : Option (Settings json.Value))
        → Holds (IsConfigured json built strdup sysconf copies counts) o
        → IsMain o (with_settings resources json built strdup sysconf o)
    settings-IsMain none h = refl
    settings-IsMain (some s) h = login-IsLoggedIn s _ (h.1 resources.login_ok)

    -- Whatever the command line and the configuration file are and whatever fails: without settings
    -- from `parse_cmdline`, or without a login, `main` returns before any thread runs. With both it
    -- goes by the settings: for the `n` of `opt_n_threads`, at least one, it starts the work thread
    -- with number `n`, then the long-polling thread with `n + 1` exactly if `want_longpoll` is set,
    -- then mining threads from 0 to `n - 1`, each after the ones before it, and returns 1 before
    -- the first one without a queue or a thread, or at once without memory for the arrays. No number
    -- is used twice or lies outside the `n + 2` entries of `thr_info`, those of mining threads also
    -- lie within the `n` entries of `work_restart`, and where `main` waits for the work thread all
    -- of them have been started. The build has the plain C scan, `strdup` copies its argument or
    -- fails, and the system counts at least one processor.
    pub main-IsMain :
        (found : List (ℕ × Text))
        → built algo_c ≡ true
        → IsMain
            (parse_cmdline json built strdup sysconf found
              (start_settings json built strdup sysconf))
            (main resources json built strdup sysconf found)
    unfolding main
    main-IsMain found has_c =
        settings-IsMain
          (parse_cmdline json built strdup sysconf found (start_settings json built strdup sysconf))
          (parse_cmdline-IsSane json built strdup sysconf copies counts found has_c)
