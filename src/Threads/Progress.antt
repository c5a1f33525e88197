-- ===== src/Threads/Progress.antt =====
-- The work thread does not hang: with a limit on the retries, every call that it makes returns.
use cpuminer.Base.{
  ℕ, zero, suc, ◌+◌, ◌≤◌, ◌<◌, ◌≡◌, ◌≢◌, refl, ltb, ltb_le, if◌then◌else◌, Bool, true, false, not,
  Bool-cases, inl, inr, Option, none, some, List, [], ◌∷◌, arith,
}
use cpuminer.Base.Int.{pos}
use cpuminer.Work.{Work, Json}
use cpuminer.Workio.{
  Ended, finished, gave_up, out_of_fuel, exhausted, retry_loop, get_upstream_work, zero_work, sent,
  workio_get_work, submit_upstream_work, submitted, workio_submit_work,
}
use cpuminer.Queue.Fifo.{freeze_queue}
use cpuminer.Threads.{
  WorkioCmd, get_cmd, submit_cmd, WorkioPc, starting, popping, handling, stopping, stopped, System,
  Switched, WorkioStep, curl_ready, no_curl, deliver, take, take_none, get_handled, submit_handled,
  stop,
}

abbrev HasEnded : {A : Type 0} → Ended A → Type 0
HasEnded (finished n a) = Unit
HasEnded (gave_up n) = Unit
HasEnded out_of_fuel = ⊥

exhausted-pos : (r failures : ℕ) → exhausted (pos r) failures ≡ (ltb r (failures + 1), failures + 1)
unfolding exhausted
exhausted-pos r failures = ground arith

-- After at most `r + 1` attempts the loop is left.
retry_loop-HasEnded :
    {A : Type 0} (r : ℕ) (attempt : ℕ → A → Bool × A) (fuel i failures : ℕ) (a : A)
    → r < failures + fuel
    → failures ≤ r
    → HasEnded (retry_loop (pos r) attempt fuel i failures a)
unfolding retry_loop
retry_loop-HasEnded r attempt zero i failures a enough few = absurd (omega arith)
retry_loop-HasEnded r attempt (suc fuel) i failures a enough few =
    elim (Bool-cases (attempt i a).0) [
      | inl good ↦ rw good tt
      | inr bad ↦ elim (Bool-cases (ltb r (failures + 1))) [
        | inl last ↦ rw (bad, exhausted-pos r failures, last) tt
        | inr more ↦
            rw (bad, exhausted-pos r failures, more)
              (retry_loop-HasEnded r attempt fuel (suc i) (failures + 1) (attempt i a).1
                (omega arith) (ltb_le r (failures + 1) more))
      ]
    ]

module _ (json : Json) where
  sent-returns :
      (pushed : Bool) (e : Ended Work)
      → HasEnded e
      → (ok : Bool) × (reply : Option Work) × (sent json pushed e ≡ some (ok, reply))
  unfolding sent
  sent-returns pushed (finished n w) h = (true, if pushed then some w else none, refl)
  sent-returns pushed (gave_up n) h = (false, none, refl)
  sent-returns pushed out_of_fuel h = absurd h

  workio_get_work-returns :
      (r : ℕ) (calloc_ok pushed : Bool) (rpc : ℕ → Option json.Value)
      → (ok : Bool) × (reply : Option Work) × (workio_get_work json
            (suc r)
            (pos r)
            calloc_ok
            pushed
            rpc
          ≡ some (ok, reply))
  unfolding workio_get_work
  workio_get_work-returns r true pushed rpc = sent-returns pushed _ (
      retry_loop-HasEnded r (λ i. get_upstream_work json (rpc i)) (suc r) 0 0 (zero_work json)
        (omega arith) (omega arith))
  workio_get_work-returns r false pushed rpc = (false, none, refl)

submitted-returns :
    (json : Json) (e : Ended (Unit {0})) → HasEnded e → (ok : Bool) × (submitted json e ≡ some ok)
unfolding submitted
submitted-returns json (finished n u) h = (true, refl)
submitted-returns json (gave_up n) h = (false, refl)
submitted-returns json out_of_fuel h = absurd h

workio_submit_work-returns :
    (json : Json) (r : ℕ) (malloc_ok : ℕ → Bool) (rpc : ℕ → List ℕ → Option json.Value) (w : Work)
    → (ok : Bool) × (workio_submit_work json (suc r) (pos r) malloc_ok rpc w ≡ some ok)
unfolding workio_submit_work
workio_submit_work-returns json r malloc_ok rpc w = submitted-returns json _ (
    retry_loop-HasEnded r (λ i u. (submit_upstream_work json (malloc_ok i) (rpc i) w, tt)) (suc r) 0
      0 tt (omega arith) (omega arith))

-- After `tq_pop` of the queue with these commands.
abbrev pub after_pop : List WorkioCmd → System → System
after_pop [] s = record s { workio = stopping }
after_pop (c ∷ cs) s = record s { workio = handling c; commands = record s.commands { items = cs } }

-- What surrounds the work thread: whether the allocations succeed, by the attempt for those of a
-- submission, and what the server answers to each attempt.
pub record Surroundings (json : Json) : Type 0 where
  pub curl_ok : Bool
  pub calloc_ok : Bool
  pub malloc_ok : ℕ → Bool
  pub get : ℕ → Option json.Value
  pub put : ℕ → List ℕ → Option json.Value

-- What the work thread comes to from that point: a request has returned, with `r + 1` attempts as fuel,
-- and its result says what the queue of the thread gets and whether the loop goes on.
abbrev pub IsNext : (json : Json) → ℕ → Surroundings json → WorkioPc → System → System → Type 0
IsNext json r a starting s t = t ≡ record s { workio = if a.curl_ok then popping else stopped }
IsNext json r a popping s t = t ≡ after_pop s.commands.items s
IsNext json r a (handling (get_cmd i)) s t =
    (ok : Bool) × (reply : Option Work) × (workio_get_work json (suc r) (pos r) a.calloc_ok
        (not (s.replies i).frozen) a.get
      ≡ some (ok, reply))
    × (t ≡ record (deliver i reply s) { workio = if ok then popping else stopping })
IsNext json r a (handling (submit_cmd i w)) s t =
    (ok : Bool) × (workio_submit_work json (suc r) (pos r) a.malloc_ok a.put w ≡ some ok)
    × (t ≡ record s { workio = if ok then popping else stopping })
IsNext json r a stopping s t = t ≡ record s { workio = stopped; commands = freeze_queue s.commands }
IsNext json r a stopped s t = ⊥

module _ {E : Type 0} (scan : E → ℕ → Work → Switched) (opt_n_threads : ℕ) (json : Json) (r : ℕ)
    (entries_ok : Bool) where
  -- Until it has returned, the work thread always has a next step, and with a limit of `r` retries
  -- every request to the server comes to an end after at most `r + 1` attempts: whatever the server
  -- answers to each attempt and whichever allocations fail, there is the step in which the request
  -- has returned, with the reply in the queue of the thread that asked, if there is one, and the
  -- thread at `tq_pop` again or behind its loop. Otherwise the step takes the first command, or
  -- leaves the loop when there is none, or freezes the queue, or starts with or without CURL.
  pub workio_thread-WorkioStep :
      (s : System) (a : Surroundings json)
      → s.workio ≢ stopped
      → (t : System) × WorkioStep scan opt_n_threads json (pos r) entries_ok s t
        × IsNext json r a s.workio s t
  workio_thread-WorkioStep s a live = next s.workio refl
    where
      by_curl :
          (b : Bool)
          → s.workio ≡ starting
          → WorkioStep scan opt_n_threads json
              (pos r)
              entries_ok
              s
              (record s { workio = if b then popping else stopped })
      by_curl true e = curl_ready e
      by_curl false e = no_curl e

      from_queue :
          (items : List WorkioCmd)
          → s.commands.items ≡ items
          → s.workio ≡ popping
          → WorkioStep scan opt_n_threads json (pos r) entries_ok s (after_pop items s)
      from_queue [] got e = take_none e got
      from_queue (c ∷ cs) got e = take c cs e got

      next :
          (at : WorkioPc)
          → s.workio ≡ at
          → (t : System) × WorkioStep scan opt_n_threads json (pos r) entries_ok s t
            × IsNext json r a at s t
      next starting e = (_, by_curl a.curl_ok e, refl)
      next popping e = (_, from_queue s.commands.items refl e, refl)
      next (handling (get_cmd i)) e =
          let (ok, reply, run) =
            workio_get_work-returns json r a.calloc_ok (not (s.replies i).frozen) a.get in
          (_, get_handled i ok reply (suc r) a.calloc_ok a.get e run, (ok, reply, run, refl))
      next (handling (submit_cmd i w)) e =
          let (ok, run) = workio_submit_work-returns json r a.malloc_ok a.put w in
          (_, submit_handled i w ok (suc r) a.malloc_ok a.put e run, (ok, run, refl))
      next stopping e = (_, stop e, refl)
      next stopped e = absurd (live e)
