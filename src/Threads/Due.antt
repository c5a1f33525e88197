-- ===== src/Threads/Due.antt =====
-- Where the request of a waiting thread is, and how the steps of the other threads move it.
use cpuminer.Base.{
  ℕ, zero, suc, ◌+◌, ◌≤◌, ◌<◌, ◌≡◌, ◌≢◌, ◌⊎◌, true, false, not, refl, ◌∙◌, ap, none, some, List, [],
  ◌∷◌, ◌++◌, length, length-append, get_elem?, arith, Bool-cases, inl, inr,
}
use mathlib.Core.Path.{subst}
use native.Mathlib.Decide.{ℕ_discrete, dec_lt}
use cpuminer.Base.Int.{ℤ}
use cpuminer.Elist.{update}
use cpuminer.Work.{Work, Json}
use cpuminer.Queue.Fifo.{Fifo, enqueue, freeze_queue}
use cpuminer.Threads.{
  WorkioCmd, get_cmd, submit_cmd, MinerPc, asking, waiting, scanning, ended, WorkioPc, starting,
  popping, handling, stopping, stopped, System, Switched, MinerStep, create, ask, ask_failed,
  receive, woken, scan_done, no_algo, submit, submit_failed, leave, WorkioStep, curl_ready, no_curl,
  get_unsent, take, take_none, get_handled, submit_handled, stop,
}
use cpuminer.Threads.Outstanding.{asks, requests, is_running, Inv, workio_get_work-Sends}

-- The request of thread `i` has led to a reply, or the work thread has left its loop.
abbrev pub Answered : ℕ → System → Type 0
Answered i s = (0 < length (s.replies i).items) ⊎ (is_running s.workio ≡ false)

-- It is answered, in hand, or among the first `m` commands.
abbrev pub Due : ℕ → ℕ → System → Type 0
Due i m s =
    Answered i s
    ⊎ (s.workio ≡ handling (get_cmd i))
    ⊎ (k : ℕ) × (k < m) × (get_elem? s.commands.items k ≡ some (get_cmd i))

get_elem?-append :
    {A : Type 0} (xs ys : List A) (k : ℕ) (a : A)
    → get_elem? xs k ≡ some a
    → get_elem? (xs ++ ys) k ≡ some a
get_elem?-append [] ys k a h = absurd cc
get_elem?-append (x ∷ xs) ys zero a h = h
get_elem?-append (x ∷ xs) ys (suc k) a h = get_elem?-append xs ys k a h

find_request :
    (i : ℕ) (cs : List WorkioCmd)
    → 0 < requests i cs
    → (k : ℕ) × (k < length cs) × (get_elem? cs k ≡ some (get_cmd i))
find_request i [] h = absurd (omega arith)
find_request i (submit_cmd j w ∷ cs) h =
    let (k, lt, at) = find_request i cs (omega arith) in (suc k, omega arith, at)
find_request i (get_cmd j ∷ cs) h = elim (ℕ_discrete j i) [
  | yes same ↦ (0, omega arith, ap (λ k. some (get_cmd k)) same)
  | no other ↦ let (k, lt, at) = find_request i cs (ground arith) in (suc k, omega arith, at)
]

-- Where the request of a waiting thread is.
reply_or_request :
    (i len : ℕ) (cs : List WorkioCmd)
    → 1 ≤ requests i cs + len
    → (0 < len) ⊎ (k : ℕ) × (k < length cs) × (get_elem? cs k ≡ some (get_cmd i))
reply_or_request i len cs h = elim (dec_lt 0 len) [
  | yes some_reply ↦ inl some_reply
  | no no_reply ↦ inr (find_request i cs (omega arith))
]

pub waiting-Due :
    (i n : ℕ) (s : System) (workio : WorkioPc)
    → s.workio ≡ workio
    → s.pc i ≡ waiting n
    → Inv i s
    → Due i (length s.commands.items) s
waiting-Due i n s (handling c) e at v = elim (dec_lt 0 (asks i c)) [
  | yes here ↦ inr (inl (e ∙ own_request c here))
  | no elsewhere ↦
      elim (reply_or_request i (length (s.replies i).items) s.commands.items (ground arith)) [
        | inl a ↦ inl (inl a)
        | inr d ↦ inr (inr d)
      ]
]
  where
    own_request : (c' : WorkioCmd) → 0 < asks i c' → handling c' ≡ handling (get_cmd i)
    own_request (get_cmd j) h = let same : j ≡ i = ground arith in rw same refl
    own_request (submit_cmd j w) h = absurd (omega arith)
waiting-Due i n s starting e at v =
    elim (reply_or_request i (length (s.replies i).items) s.commands.items (ground arith)) [
      | inl a ↦ inl (inl a)
      | inr d ↦ inr (inr d)
    ]
waiting-Due i n s popping e at v =
    elim (reply_or_request i (length (s.replies i).items) s.commands.items (ground arith)) [
      | inl a ↦ inl (inl a)
      | inr d ↦ inr (inr d)
    ]
waiting-Due i n s stopping e at v = inl (inr (rw e refl))
waiting-Due i n s stopped e at v = inl (inr (rw e refl))

module _ {E : Type 0} (scan : E → ℕ → Work → Switched) (opt_n_threads : ℕ) (json : Json)
    (opt_retries : ℤ) where
  -- How many commands a step takes from the queue.
  abbrev pub takes : {s t : System} → WorkioStep scan opt_n_threads json opt_retries true s t → ℕ
  takes (take c cs e got) = 1
  takes other = 0

  -- The commands stay in front of those that come later.
  enqueued :
      (i m : ℕ) (c : WorkioCmd) (s : System) (p : ℕ → MinerPc)
      → Due i m s
      → Due i m (record s { commands = enqueue c s.commands; pc = p })
  enqueued i m c s p (inl a) = inl a
  enqueued i m c s p (inr (inl h)) = inr (inl h)
  enqueued i m c s p (inr (inr (k, lt, at))) = inr (
      inr (
        k,
        lt,
        elim (Bool-cases s.commands.frozen) [
          | inl frozen ↦ rw frozen at
          | inr free ↦ rw free (get_elem?-append s.commands.items (c ∷ []) k (get_cmd i) at)
        ],
      ))

  -- Only the queue of another thread changes.
  others_queue :
      (i m j : ℕ) (s : System) (q : Fifo Work) (p : ℕ → MinerPc)
      → j ≢ i
      → Due i m s
      → Due i m (record s { replies = update s.replies j q; pc = p })
  others_queue i m j s q p other (inl a) = inl (ground arith)
  others_queue i m j s q p other (inr d) = inr d

  pub MinerStep-Due :
      (i j m : ℕ) {s t : System}
      → j ≢ i
      → MinerStep scan opt_n_threads j s t
      → Due i m s
      → Due i m t
  MinerStep-Due i j m other (create e small) d = d
  MinerStep-Due i j m {s} other (ask n e free) d =
      enqueued i m (get_cmd j) s (update s.pc j (waiting n)) d
  MinerStep-Due i j m other (ask_failed n e) d = d
  MinerStep-Due i j m {s} other (receive n w ws e got) d =
      others_queue i m j s (record (s.replies j) { items = ws }) (update s.pc j (scanning n w))
        other d
  MinerStep-Due i j m other (woken n e none_left) d = d
  MinerStep-Due i j m other (scan_done n w f out diff opt_scantime e run) d = d
  MinerStep-Due i j m other (no_algo n w f e run) d = d
  MinerStep-Due i j m {s} other (submit n w e free) d =
      enqueued i m (submit_cmd j w) s (update s.pc j (asking n)) d
  MinerStep-Due i j m other (submit_failed n w e) d = d
  MinerStep-Due i j m {s} other (leave e) d =
      others_queue i m j s (freeze_queue (s.replies j)) (update s.pc j ended) other d

  -- A step of the work thread that takes a command brings the others forward.
  take-Due :
      (i m : ℕ) (c : WorkioCmd) (cs : List WorkioCmd) (s : System)
      → s.workio ≡ popping
      → s.commands.items ≡ c ∷ cs
      → Due i (suc m) s
      → Due i m (record s { workio = handling c; commands = record s.commands { items = cs } })
  take-Due i m c cs s e got (inl (inl a)) = inl (inl a)
  take-Due i m c cs s e got (inl (inr h)) = absurd (ground arith)
  take-Due i m c cs s e got (inr (inl h)) = absurd (ground arith)
  take-Due i m c cs s e got (inr (inr (zero, lt, at))) = inr (inl (ground arith))
  take-Due i m c cs s e got (inr (inr (suc k, lt, at))) = inr (
      inr (
        k,
        omega arith,
        let at' : get_elem? (c ∷ cs) (suc k) ≡ some (get_cmd i) =
              subst (λ (l : List WorkioCmd). get_elem? l (suc k) ≡ some (get_cmd i)) got at in
            at',
      ))

  pub WorkioStep-Answered :
      (i : ℕ) {s t : System}
      → WorkioStep scan opt_n_threads json opt_retries true s t
      → Answered i s
      → Answered i t
  WorkioStep-Answered i (curl_ready e) a = ground arith
  WorkioStep-Answered i (no_curl e) a = inr refl
  WorkioStep-Answered i (take c cs e got) a = ground arith
  WorkioStep-Answered i (take_none e got) a = inr refl
  WorkioStep-Answered i (get_handled j true none fuel calloc_ok rpc e run) a = ground arith
  WorkioStep-Answered i {s} (get_handled j true (some w) fuel calloc_ok rpc e run) a =
      let more = length-append (s.replies j).items (w ∷ []) in ground arith
  WorkioStep-Answered i (get_handled j false reply fuel calloc_ok rpc e run) a = inr refl
  WorkioStep-Answered i (get_unsent j ok reply fuel calloc_ok rpc e no_memory run) a = absurd cc
  WorkioStep-Answered i (submit_handled j w true fuel malloc_ok rpc e run) a = ground arith
  WorkioStep-Answered i (submit_handled j w false fuel malloc_ok rpc e run) a = inr refl
  WorkioStep-Answered i (stop e) a = inr refl

  -- The commands that a step does not take stay.
  pub WorkioStep-Due :
      (i m : ℕ) {s t : System} (w : WorkioStep scan opt_n_threads json opt_retries true s t)
      → (s.replies i).frozen ≡ false
      → Due i (takes w + m) s
      → Due i m t
  WorkioStep-Due i m w v (inl a) = inl (WorkioStep-Answered i w a)
  WorkioStep-Due i m (curl_ready e) v (inr (inl h)) = absurd cc
  WorkioStep-Due i m (curl_ready e) v (inr (inr (k, lt, at))) = inr (inr (k, omega arith, at))
  WorkioStep-Due i m (no_curl e) v (inr d) = inl (inr refl)
  WorkioStep-Due i m {s} (take c cs e got) v (inr d) =
      let one : 1 + m ≡ suc m = omega arith in take-Due i m c cs s e got (rw (← one) (inr d))
  WorkioStep-Due i m (take_none e got) v (inr d) = inl (inr refl)
  WorkioStep-Due i m {s} (get_handled j true none fuel calloc_ok rpc e run) v (inr (inl h)) =
      let sends =
        workio_get_work-Sends json fuel opt_retries calloc_ok (not (s.replies j).frozen) rpc true
          none run in
      absurd (ground arith)
  WorkioStep-Due i m {s} (get_handled j true (some w) fuel calloc_ok rpc e run) v (inr (inl h)) =
      let more = length-append (s.replies j).items (w ∷ []) in inl (inl (ground arith))
  WorkioStep-Due i m (get_handled j true none fuel calloc_ok rpc e run) v (inr (inr (k, lt, at))) =
      inr (inr (k, omega arith, at))
  WorkioStep-Due i m (get_handled j true (some w) fuel calloc_ok rpc e run) v
        (inr (inr (k, lt, at))) =
      inr (inr (k, omega arith, at))
  WorkioStep-Due i m (get_handled j false reply fuel calloc_ok rpc e run) v (inr d) = inl (inr refl)
  WorkioStep-Due i m (get_unsent j ok reply fuel calloc_ok rpc e no_memory run) v (inr d) =
      absurd cc
  WorkioStep-Due i m (submit_handled j w true fuel malloc_ok rpc e run) v (inr (inl h)) = absurd cc
  WorkioStep-Due i m (submit_handled j w true fuel malloc_ok rpc e run) v (inr (inr (k, lt, at))) =
      inr (inr (k, omega arith, at))
  WorkioStep-Due i m (submit_handled j w false fuel malloc_ok rpc e run) v (inr d) = inl (inr refl)
  WorkioStep-Due i m (stop e) v (inr d) = inl (inr refl)
