-- ===== src/Threads/Outstanding.antt =====
-- Each request for work is on its way once: as a command, in the hands of the work thread or as a reply.
use cpuminer.Base.{
  ℕ, ◌+◌, ◌≤◌, ◌≡◌, ◌≢◌, ◌==◌, ◌⊎◌, if◌then◌else◌, Bool, true, false, not, refl, Option, none, some,
  List, [], ◌∷◌, ◌++◌, length, length-append, arith, Bool-cases, inl, inr,
}
use cpuminer.Base.Int.{ℤ}
use mathlib.Core.Path.{subst}
use native.Mathlib.Decide.{ℕ_discrete}
use cpuminer.Work.{Work, Json}
use cpuminer.Workio.{workio_get_work, Ended, finished, gave_up, out_of_fuel, sent}
use cpuminer.Threads.{
  WorkioCmd, get_cmd, submit_cmd, MinerPc, unborn, asking, waiting, scanning, solved, leaving,
  ended, WorkioPc, starting, popping, handling, System, Switched, MinerStep, create, ask,
  ask_failed, receive, woken, scan_done, no_algo, submit, submit_failed, leave, WorkioStep,
  curl_ready, no_curl, get_unsent, take, take_none, get_handled, submit_handled, stop, miner,
  workio, Reach, here, later,
}

-- How many requests of thread `i` are among commands.
abbrev pub asks : ℕ → WorkioCmd → ℕ
asks i (get_cmd j) = if j == i then 1 else 0
asks i (submit_cmd j w) = 0

abbrev pub requests : ℕ → List WorkioCmd → ℕ
requests i [] = 0
requests i (c ∷ cs) = asks i c + requests i cs

requests-append :
    (i : ℕ) (xs ys : List WorkioCmd) → requests i (xs ++ ys) ≡ requests i xs + requests i ys
requests-append i [] ys = omega arith
requests-append i (c ∷ xs) ys = omega (arith, requests-append i xs ys)

abbrev pub in_hand : ℕ → WorkioPc → ℕ
in_hand i (handling c) = asks i c
in_hand i other = 0

abbrev pub outstanding : ℕ → System → ℕ
outstanding i s = requests i s.commands.items + in_hand i s.workio + length (s.replies i).items

abbrev pub is_running : WorkioPc → Bool
is_running starting = true
is_running popping = true
is_running (handling c) = true
is_running other = false

-- What is on its way for a thread at that point.
abbrev pub Accounted : MinerPc → Bool → ℕ → Type 0
Accounted (waiting n) running out = if running then out ≡ 1 else out ≤ 1
Accounted leaving running out = out ≤ 1
Accounted ended running out = out ≤ 1
Accounted unborn running out = out ≡ 0
Accounted (asking n) running out = out ≡ 0
Accounted (scanning n w) running out = out ≡ 0
Accounted (solved n w) running out = out ≡ 0

pub record Inv (i : ℕ) (s : System) : Type 0 where
  pub accounted : Accounted (s.pc i) (is_running s.workio) (outstanding i s)
  pub open_queue : (s.pc i ≡ ended) ⊎ ((s.replies i).frozen ≡ false)

module _ {E : Type 0} (scan : E → ℕ → Work → Switched) (opt_n_threads : ℕ) where
  own-Inv : (i : ℕ) {s t : System} → MinerStep scan opt_n_threads i s t → Inv i s → Inv i t
  own-Inv i {s} (create e small) v = ground arith
  own-Inv i {s} (ask n e free) v =
      ground (arith, requests-append i s.commands.items (get_cmd i ∷ []))
  own-Inv i {s} (ask_failed n e) v = ground arith
  own-Inv i {s} (receive n w ws e got) v = ground arith
  own-Inv i {s} (woken n e none_left) v = ground arith
  own-Inv i {s} (scan_done n w f out diff opt_scantime e run) v = elim (Bool-cases out.rc) [
    | inl found ↦ rw found (ground arith)
    | inr nothing ↦ rw nothing (ground arith)
  ]
  own-Inv i {s} (no_algo n w f e run) v = ground arith
  own-Inv i {s} (submit n w e free) v =
      ground (arith, requests-append i s.commands.items (submit_cmd i w ∷ []))
  own-Inv i {s} (submit_failed n w e) v = ground arith
  own-Inv i {s} (leave e) v = ground arith

  others-Inv :
      (i j : ℕ) {s t : System} → j ≢ i → MinerStep scan opt_n_threads j s t → Inv i s → Inv i t
  others-Inv i j {s} other (create e small) v = ground arith
  others-Inv i j {s} other (ask n e free) v =
      ground (arith, requests-append i s.commands.items (get_cmd j ∷ []))
  others-Inv i j {s} other (ask_failed n e) v = ground arith
  others-Inv i j {s} other (receive n w ws e got) v = ground arith
  others-Inv i j {s} other (woken n e none_left) v = ground arith
  others-Inv i j {s} other (scan_done n w f out diff opt_scantime e run) v = ground arith
  others-Inv i j {s} other (no_algo n w f e run) v = ground arith
  others-Inv i j {s} other (submit n w e free) v =
      ground (arith, requests-append i s.commands.items (submit_cmd j w ∷ []))
  others-Inv i j {s} other (submit_failed n w e) v = ground arith
  others-Inv i j {s} other (leave e) v = ground arith

  MinerStep-Inv : (i j : ℕ) {s t : System} → MinerStep scan opt_n_threads j s t → Inv i s → Inv i t
  MinerStep-Inv i j {s} {t} m v = elim (ℕ_discrete j i) [
    | yes same ↦ own-Inv i (subst (λ k. MinerStep scan opt_n_threads k s t) same m) v
    | no other ↦ others-Inv i j other m v
  ]

-- What `workio_get_work` sends follows from what it returns.
abbrev Sends : Bool → Bool → Option Work → Type 0
Sends pushed true none = pushed ≡ false
Sends pushed true (some w) = pushed ≡ true
Sends pushed false reply = reply ≡ none

module _ (json : Json) where
  sent-Sends :
      (pushed : Bool) (e : Ended Work) (ok : Bool) (reply : Option Work)
      → sent json pushed e ≡ some (ok, reply)
      → Sends pushed ok reply
  unfolding sent
  sent-Sends pushed (finished n w) ok reply h = ground arith
  sent-Sends pushed (gave_up n) ok reply h = ground arith
  sent-Sends pushed out_of_fuel ok reply h = absurd cc

  pub workio_get_work-Sends :
      (fuel : ℕ) (opt_retries : ℤ) (calloc_ok pushed : Bool) (rpc : ℕ → Option json.Value)
      (ok : Bool) (reply : Option Work)
      → workio_get_work json fuel opt_retries calloc_ok pushed rpc ≡ some (ok, reply)
      → Sends pushed ok reply
  unfolding workio_get_work
  workio_get_work-Sends fuel opt_retries true pushed rpc ok reply h = sent-Sends pushed _ ok reply h
  workio_get_work-Sends fuel opt_retries false pushed rpc ok reply h = ground arith

module _ {E : Type 0} (scan : E → ℕ → Work → Switched) (opt_n_threads : ℕ) (json : Json)
    (opt_retries : ℤ) where
  WorkioStep-Inv :
      (i : ℕ) {s t : System}
      → WorkioStep scan opt_n_threads json opt_retries true s t
      → Inv i s
      → Inv i t
  WorkioStep-Inv i {s} (curl_ready e) v = ground arith
  WorkioStep-Inv i {s} (no_curl e) v = ground arith
  WorkioStep-Inv i {s} (take c cs e got) v = ground arith
  WorkioStep-Inv i {s} (take_none e got) v = ground arith
  WorkioStep-Inv i {s} (get_handled j true none fuel calloc_ok rpc e run) v =
      let sends =
        workio_get_work-Sends json fuel opt_retries calloc_ok (not (s.replies j).frozen) rpc true
          none run in
      ground arith
  WorkioStep-Inv i {s} (get_handled j true (some w) fuel calloc_ok rpc e run) v =
      let sends =
        workio_get_work-Sends json fuel opt_retries calloc_ok (not (s.replies j).frozen) rpc true
          (some w) run in
      let more = length-append (s.replies j).items (w ∷ []) in ground arith
  WorkioStep-Inv i {s} (get_handled j false none fuel calloc_ok rpc e run) v = ground arith
  WorkioStep-Inv i {s} (get_handled j false (some w) fuel calloc_ok rpc e run) v =
      let sends =
        workio_get_work-Sends json fuel opt_retries calloc_ok (not (s.replies j).frozen) rpc false
          (some w) run in
      absurd cc
  WorkioStep-Inv i (get_unsent j ok reply fuel calloc_ok rpc e no_memory run) v = absurd cc
  WorkioStep-Inv i {s} (submit_handled j w true fuel malloc_ok rpc e run) v = ground arith
  WorkioStep-Inv i {s} (submit_handled j w false fuel malloc_ok rpc e run) v = ground arith
  WorkioStep-Inv i {s} (stop e) v = ground arith

  pub Reach-Inv : (i : ℕ) {s : System} → Reach scan opt_n_threads json opt_retries true s → Inv i s
  Reach-Inv i here = record { accounted = omega arith; open_queue = inr refl }
  Reach-Inv i (later r (miner j m)) = MinerStep-Inv scan opt_n_threads i j m (Reach-Inv i r)
  Reach-Inv i (later r (workio w)) = WorkioStep-Inv i w (Reach-Inv i r)

  -- In every state that the threads can reach, a mining thread that waits for work has exactly one
  -- request on its way while the work thread runs, and at most one else: as a command, in the hands
  -- of the work thread or as a reply. Before it asks and while it works it has none, so a reply
  -- answers the last request. The replies do not lack memory for their queue entries.
  pub Reach-Accounted :
      (i : ℕ) {s : System}
      → Reach scan opt_n_threads json opt_retries true s
      → Accounted (s.pc i) (is_running s.workio) (outstanding i s)
  Reach-Accounted i r = (Reach-Inv i r).accounted
