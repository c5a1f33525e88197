-- ===== src/Threads/Submitted.antt =====
-- What the mining threads submit is what their scans have found.
use cpuminer.Base.{
  ℕ, ◌==◌, ◌≡◌, refl, ap, ◌∙◌, if◌then◌else◌, Bool, true, false, not, ◌≤◌, Option, none, some, List,
  [], ◌∷◌, ◌++◌, All, Bool-cases, inl, inr, arith,
}
use mathlib.Core.Path.{subst}
use cpuminer.Base.Int.{ℤ}
use cpuminer.Elist.{update}
use cpuminer.Work.{Work, Json}
use cpuminer.Workio.{workio_get_work}
use cpuminer.Queue.Fifo.{Fifo, enqueue, freeze_queue}
use cpuminer.TimeVal.{Timeval, adjust_max_nonce}
use cpuminer.TimeVal.Limit.{adjust_max_nonce-le}
use cpuminer.Threads.{
  WorkioCmd, get_cmd, submit_cmd, MinerPc, asking, waiting, scanning, solved, leaving, ended,
  WorkioPc, popping, handling, stopping, stopped, System, Scanned, Switched, scanned, MinerStep,
  create, ask, ask_failed, receive, woken, scan_done, no_algo, submit, submit_failed, leave,
  WorkioStep, take, curl_ready, no_curl, get_unsent, take_none, get_handled, submit_handled, stop,
  miner, workio, Reach, here, later, first_max_nonce, move, deliver,
}

All-append {ℓ κ} :
    {A : Type ℓ} (P : A → Type κ) (xs ys : List A) → All P xs → All P ys → All P (xs ++ ys)
All-append P [] ys ps qs = qs
All-append P (x ∷ xs) ys ps qs = (ps.0, All-append P xs ys ps.1 qs)

abbrev pub max_limit : ℕ
max_limit = 0xfffffffa

-- The work unit of a command, where it has one, was found.
abbrev pub IsFoundCmd : (Work → Type 0) → WorkioCmd → Type 0
IsFoundCmd Found (get_cmd j) = Unit
IsFoundCmd Found (submit_cmd j w) = Found w

abbrev pub IsFoundIn : (Work → Type 0) → WorkioPc → Type 0
IsFoundIn Found (handling c) = IsFoundCmd Found c
IsFoundIn Found other = Unit

-- `Fresh` is what the work thread sends, and `Found` what a scan finds in such a work unit.
module _ {E : Type 0} (scan : E → ℕ → Work → Switched) (Fresh Found : Work → Type 0)
    (finds : (e : E) (n : ℕ) (w : Work) (out : Scanned)
      → n ≤ max_limit
      → Fresh w
      → scan e n w ≡ scanned out
      → out.rc ≡ true
      → Found out.work) where
  abbrev IsFoundAt : MinerPc → Type 0
  IsFoundAt (asking n) = n ≤ max_limit
  IsFoundAt (waiting n) = n ≤ max_limit
  IsFoundAt (scanning n w) = (n ≤ max_limit) × Fresh w
  IsFoundAt (solved n w) = (n ≤ max_limit) × Found w
  IsFoundAt other = Unit

  pub record AreFound (s : System) : Type 0 where
    pub queued : All (IsFoundCmd Found) s.commands.items
    pub in_hand : IsFoundIn Found s.workio
    pub at_miners : (i : ℕ) → IsFoundAt (s.pc i)
    pub delivered : (i : ℕ) → All Fresh (s.replies i).items

  moved : (j : ℕ) (s : System) (p : MinerPc) → AreFound s → IsFoundAt p → AreFound (move j p s)
  moved j s p v new = record {
    queued = v.queued;
    in_hand = v.in_hand;
    at_miners = λ i. elim (Bool-cases (i == j)) [
      | inl same ↦ rw same new
      | inr other ↦ rw other (v.at_miners i)
    ];
    delivered = v.delivered;
  }

  refilled :
      (j : ℕ) (s : System) (q : Fifo Work)
      → AreFound s
      → All Fresh q.items
      → AreFound (record s { replies = update s.replies j q })
  refilled j s q v new = record {
    queued = v.queued;
    in_hand = v.in_hand;
    at_miners = v.at_miners;
    delivered = λ i. elim (Bool-cases (i == j)) [
      | inl same ↦ rw same new
      | inr other ↦ rw other (v.delivered i)
    ];
  }

  taken :
      (s : System) (p : WorkioPc)
      → AreFound s
      → IsFoundIn Found p
      → AreFound (record s { workio = p })
  taken s p v new = record {
    queued = v.queued;
    in_hand = new;
    at_miners = v.at_miners;
    delivered = v.delivered;
  }

  commanded :
      (s : System) (q : Fifo WorkioCmd)
      → AreFound s
      → All (IsFoundCmd Found) q.items
      → AreFound (record s { commands = q })
  commanded s q v new = record {
    queued = new;
    in_hand = v.in_hand;
    at_miners = v.at_miners;
    delivered = v.delivered;
  }

  enqueued :
      (w : Work) (q : Fifo Work) → Fresh w → All Fresh q.items → All Fresh (enqueue w q).items
  enqueued w q new at = elim (Bool-cases q.frozen) [
    | inl frozen ↦ rw frozen at
    | inr free ↦ rw free (All-append Fresh q.items (w ∷ []) at (new, tt))
  ]

  sent_command :
      (c : WorkioCmd) (s : System)
      → s.commands.frozen ≡ false
      → AreFound s
      → IsFoundCmd Found c
      → AreFound (record s { commands = enqueue c s.commands })
  sent_command c s free v new =
      commanded s (enqueue c s.commands) v
        (rw free (All-append (IsFoundCmd Found) s.commands.items (c ∷ []) v.queued (new, tt)))

  replied :
      (j : ℕ) (reply : Option Work) (s : System) (p : WorkioPc)
      → ((w : Work) → reply ≡ some w → Fresh w)
      → AreFound s
      → IsFoundIn Found p
      → AreFound (record (deliver j reply s) { workio = p })
  replied j none s p new v at = taken s p v at
  replied j (some w) s p new v at =
      taken (deliver j (some w) s) p
        (refilled j s (enqueue w (s.replies j)) v
          (enqueued w (s.replies j) (new w refl) (v.delivered j)))
        at

  module _ (opt_n_threads : ℕ) where
    -- The new point of the scan's thread.
    after_scan :
        (n : ℕ) (w : Work) (f : E) (out : Scanned) (diff : Timeval) (opt_scantime : ℕ)
        → IsFoundAt (scanning n w)
        → scan f n w ≡ scanned out
        → IsFoundAt (
            if out.rc
            then solved (adjust_max_nonce out.hashes_done opt_scantime diff n) out.work
            else asking (adjust_max_nonce out.hashes_done opt_scantime diff n))
    after_scan n w f out diff opt_scantime at q =
        let limit = adjust_max_nonce-le out.hashes_done opt_scantime diff n at.0 in
        elim (Bool-cases out.rc) [
          | inl found ↦ rw found ((limit, finds f n w out at.0 at.1 q found))
          | inr nothing ↦ rw nothing limit
        ]

    MinerStep-AreFound :
        (j : ℕ) {s t : System} → MinerStep scan opt_n_threads j s t → AreFound s → AreFound t
    MinerStep-AreFound j {s} (create e small) v = moved j s (asking first_max_nonce) v (omega arith)
    MinerStep-AreFound j {s} (ask n e free) v =
        moved j _ (waiting n) (sent_command (get_cmd j) s free v tt)
          (subst IsFoundAt e (v.at_miners j))
    MinerStep-AreFound j {s} (ask_failed n e) v = moved j s leaving v tt
    MinerStep-AreFound j {s} (receive n w ws e got) v =
        let all = subst (All Fresh) got (v.delivered j) in
        moved j _ (scanning n w) (refilled j s (record (s.replies j) { items = ws }) v all.1)
          (subst IsFoundAt e (v.at_miners j), all.0)
    MinerStep-AreFound j {s} (woken n e none_left) v = moved j s leaving v tt
    MinerStep-AreFound j {s} (scan_done n w f out diff opt_scantime e run) v =
        moved j s _ v
          (after_scan n w f out diff opt_scantime (subst IsFoundAt e (v.at_miners j)) run)
    MinerStep-AreFound j {s} (no_algo n w f e run) v = moved j s leaving v tt
    MinerStep-AreFound j {s} (submit n w e free) v =
        let at = subst IsFoundAt e (v.at_miners j) in
        moved j _ (asking n) (sent_command (submit_cmd j w) s free v at.1) at.0
    MinerStep-AreFound j {s} (submit_failed n w e) v = moved j s leaving v tt
    MinerStep-AreFound j {s} (leave e) v =
        moved j _ ended (refilled j s (freeze_queue (s.replies j)) v (v.delivered j)) tt

    no_hand : (ok : Bool) → IsFoundIn Found (if ok then popping else stopping)
    no_hand true = tt
    no_hand false = tt

    module _ (json : Json) (opt_retries : ℤ) (entries_ok : Bool)
        (sends : (fuel : ℕ) (calloc_ok pushed ok : Bool) (rpc : ℕ → Option json.Value) (w : Work)
          → workio_get_work json fuel opt_retries calloc_ok pushed rpc ≡ some (ok, some w)
          → Fresh w) where
      WorkioStep-AreFound :
          {s t : System}
          → WorkioStep scan opt_n_threads json opt_retries entries_ok s t
          → AreFound s
          → AreFound t
      WorkioStep-AreFound {s} (curl_ready e) v = taken s popping v tt
      WorkioStep-AreFound {s} (no_curl e) v = taken s stopped v tt
      WorkioStep-AreFound {s} (take c cs e got) v =
          let all = subst (All (IsFoundCmd Found)) got v.queued in
          taken _ (handling c) (commanded s (record s.commands { items = cs }) v all.1) all.0
      WorkioStep-AreFound {s} (take_none e got) v = taken s stopping v tt
      WorkioStep-AreFound {s} (get_handled j ok reply fuel calloc_ok rpc e run) v =
          replied j reply s _
            (λ w r.
              sends fuel calloc_ok (not (s.replies j).frozen) ok rpc w
                (run ∙ ap (λ a. some (ok, a)) r))
            v (no_hand ok)
      WorkioStep-AreFound {s} (get_unsent j ok reply fuel calloc_ok rpc e no_memory run) v =
          replied j reply s _
            (λ w r. sends fuel calloc_ok false ok rpc w (run ∙ ap (λ a. some (ok, a)) r)) v
            (no_hand ok)
      WorkioStep-AreFound {s} (submit_handled j w ok fuel malloc_ok rpc e run) v =
          taken s _ v (no_hand ok)
      WorkioStep-AreFound {s} (stop e) v =
          taken _ stopped (commanded s (freeze_queue s.commands) v v.queued) tt

      pub Reach-AreFound :
          {s : System} → Reach scan opt_n_threads json opt_retries entries_ok s → AreFound s
      Reach-AreFound here = record {
        queued = tt;
        in_hand = tt;
        at_miners = λ i. tt;
        delivered = λ i. tt;
      }
      Reach-AreFound (later r (miner j m)) = MinerStep-AreFound j m (Reach-AreFound r)
      Reach-AreFound (later r (workio w)) = WorkioStep-AreFound w (Reach-AreFound r)
