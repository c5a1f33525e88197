-- ===== src/Threads/Served.antt =====
-- The work thread serves the mining threads in the order of their requests.
use cpuminer.Base.{
  true, ℕ, ◌+◌, ◌-◌, ◌≤◌, ◌<◌, ◌≡◌, ◌≢◌, false, refl, none, some, length, arith, inl, inr,
}
use mathlib.Core.Path.{subst}
use native.Mathlib.Decide.{dec_lt}
use cpuminer.Base.Int.{ℤ}
use cpuminer.Work.{Work, Json}
use cpuminer.Threads.{
  waiting, System, Switched, MinerStep, create, ask, ask_failed, receive, woken, scan_done, no_algo,
  submit, submit_failed, leave, WorkioStep, curl_ready, no_curl, get_unsent, take, take_none,
  get_handled, submit_handled, stop, Reach,
}
use cpuminer.Threads.Due.{
  Answered, Due, takes, waiting-Due, MinerStep-Due, WorkioStep-Answered, WorkioStep-Due,
}
use cpuminer.Threads.Outstanding.{Reach-Inv}

module _ {E : Type 0} (scan : E → ℕ → Work → Switched) (opt_n_threads : ℕ) (json : Json)
    (opt_retries : ℤ) where
  -- A run of steps of all threads but `i`, in which the work thread takes that many commands.
  pub data Others (i : ℕ) : System → ℕ → System → Type 0 where
    nothing : {s : System} → Others i s 0 s
    by_miner :
        {s t u : System} {p : ℕ} (j : ℕ)
        → j ≢ i
        → MinerStep scan opt_n_threads j s t
        → Others i t p u
        → Others i s p u
    by_workio :
        {s t u : System} {p q : ℕ} (w : WorkioStep scan opt_n_threads json opt_retries true s t)
        → q ≡ takes scan opt_n_threads json opt_retries w + p
        → Others i t p u
        → Others i s q u

  MinerStep-open :
      (i j : ℕ) {s t : System}
      → j ≢ i
      → MinerStep scan opt_n_threads j s t
      → (s.replies i).frozen ≡ false
      → (t.replies i).frozen ≡ false
  MinerStep-open i j other (create e small) v = v
  MinerStep-open i j other (ask n e free) v = v
  MinerStep-open i j other (ask_failed n e) v = v
  MinerStep-open i j other (receive n w ws e got) v = ground arith
  MinerStep-open i j other (woken n e none_left) v = v
  MinerStep-open i j other (scan_done n w f out diff opt_scantime e run) v = v
  MinerStep-open i j other (no_algo n w f e run) v = v
  MinerStep-open i j other (submit n w e free) v = v
  MinerStep-open i j other (submit_failed n w e) v = v
  MinerStep-open i j other (leave e) v = ground arith

  WorkioStep-open :
      (i : ℕ) {s t : System}
      → WorkioStep scan opt_n_threads json opt_retries true s t
      → (s.replies i).frozen ≡ false
      → (t.replies i).frozen ≡ false
  WorkioStep-open i (curl_ready e) v = v
  WorkioStep-open i (no_curl e) v = v
  WorkioStep-open i (take c cs e got) v = v
  WorkioStep-open i (take_none e got) v = v
  WorkioStep-open i (get_handled j ok none fuel calloc_ok rpc e run) v = v
  WorkioStep-open i (get_handled j ok (some w) fuel calloc_ok rpc e run) v = ground arith
  WorkioStep-open i (get_unsent j ok reply fuel calloc_ok rpc e no_memory run) v = absurd cc
  WorkioStep-open i (submit_handled j w ok fuel malloc_ok rpc e run) v = v
  WorkioStep-open i (stop e) v = v

  MinerStep-Answered :
      (i j : ℕ) {s t : System}
      → j ≢ i
      → MinerStep scan opt_n_threads j s t
      → Answered i s
      → Answered i t
  MinerStep-Answered i j other (create e small) a = a
  MinerStep-Answered i j other (ask n e free) a = a
  MinerStep-Answered i j other (ask_failed n e) a = a
  MinerStep-Answered i j other (receive n w ws e got) a = ground arith
  MinerStep-Answered i j other (woken n e none_left) a = a
  MinerStep-Answered i j other (scan_done n w f out diff opt_scantime e run) a = a
  MinerStep-Answered i j other (no_algo n w f e run) a = a
  MinerStep-Answered i j other (submit n w e free) a = a
  MinerStep-Answered i j other (submit_failed n w e) a = a
  MinerStep-Answered i j other (leave e) a = ground arith

  Others-kept : (i : ℕ) {s u : System} {p : ℕ} → Others i s p u → Answered i s → Answered i u
  Others-kept i nothing a = a
  Others-kept i (by_miner j other st rest) a =
      Others-kept i rest (MinerStep-Answered i j other st a)
  Others-kept i (by_workio w e rest) a =
      Others-kept i rest (WorkioStep-Answered scan opt_n_threads json opt_retries i w a)

  -- The work thread takes a command only when it has none in hand.
  free_hands :
      (i : ℕ) {s t : System} (w : WorkioStep scan opt_n_threads json opt_retries true s t)
      → 0 < takes scan opt_n_threads json opt_retries w
      → Due i 0 s
      → Answered i s
  free_hands i w lt (inl a) = a
  free_hands i (take c cs e got) lt (inr (inl h)) = absurd (ground arith)
  free_hands i w lt (inr (inr (k, low, at))) = absurd (omega arith)
  free_hands i (curl_ready e) lt (inr (inl h)) = absurd (omega arith)
  free_hands i (no_curl e) lt (inr (inl h)) = absurd (omega arith)
  free_hands i (take_none e got) lt (inr (inl h)) = inr cc
  free_hands i (get_handled j ok reply fuel calloc_ok rpc e run) lt (inr (inl h)) =
      absurd (omega arith)
  free_hands i (get_unsent j ok reply fuel calloc_ok rpc e no_memory run) lt (inr (inl h)) =
      absurd (omega arith)
  free_hands i (submit_handled j w ok fuel malloc_ok rpc e run) lt (inr (inl h)) =
      absurd (omega arith)
  free_hands i (stop e) lt (inr (inl h)) = absurd (omega arith)

  takes-le :
      {s t : System} (w : WorkioStep scan opt_n_threads json opt_retries true s t)
      → takes scan opt_n_threads json opt_retries w ≤ 1
  takes-le (take c cs e got) = omega arith
  takes-le (curl_ready e) = omega arith
  takes-le (no_curl e) = omega arith
  takes-le (take_none e got) = omega arith
  takes-le (get_handled j ok reply fuel calloc_ok rpc e run) = omega arith
  takes-le (get_unsent j ok reply fuel calloc_ok rpc e no_memory run) = omega arith
  takes-le (submit_handled j w ok fuel malloc_ok rpc e run) = omega arith
  takes-le (stop e) = omega arith

  Others-Answered :
      (i m p : ℕ) {s u : System}
      → (s.replies i).frozen ≡ false
      → Due i m s
      → m < p
      → Others i s p u
      → Answered i u
  Others-Answered i m p v d lt nothing = absurd (omega arith)
  Others-Answered i m p v d lt (by_miner j other st rest) =
      Others-Answered i m p (MinerStep-open i j other st v)
        (MinerStep-Due scan opt_n_threads json opt_retries i j m other st d) lt rest
  Others-Answered i m p {s} v d lt (by_workio {p = p'} w e rest) =
      elim (dec_lt m (takes scan opt_n_threads json opt_retries w)) [
        | yes first ↦
            let none_ahead : m ≡ 0 = omega (arith, takes-le w) in
            Others-kept i rest (
              WorkioStep-Answered scan opt_n_threads json opt_retries i w
                (free_hands i w (omega arith) (subst (λ k. Due i k s) none_ahead d)))
        | no later ↦
            let same : takes scan opt_n_threads json opt_retries w
                  + (m - takes scan opt_n_threads json opt_retries w)
                ≡ m =
              omega arith in
            Others-Answered i (m - takes scan opt_n_threads json opt_retries w) p'
              (WorkioStep-open i w v)
              (WorkioStep-Due scan opt_n_threads json opt_retries i
                (m - takes scan opt_n_threads json opt_retries w) w v (rw same d))
              (omega arith) rest
      ]

  -- A mining thread that waits for work gets it: in every state that the threads can reach, once the
  -- work thread has taken more commands than were in its queue when thread `i` was waiting, there is
  -- a reply in the queue of `i`, or the work thread has left its loop. The other threads may do
  -- what they like meanwhile, and thread `i` does nothing. The replies do not
  -- lack memory for their queue entries.
  pub Reach-Answered :
      (i n p : ℕ) {s u : System}
      → Reach scan opt_n_threads json opt_retries true s
      → s.pc i ≡ waiting n
      → length s.commands.items < p
      → Others i s p u
      → Answered i u
  Reach-Answered i n p {s} r e lt run =
      let v = Reach-Inv scan opt_n_threads json opt_retries i r in
      Others-Answered i (length s.commands.items) p (ground arith)
        (waiting-Due i n s s.workio refl e v) lt run
