-- ===== src/Threads.antt =====
-- The mining threads and the work thread of cpu-miner.c, which run beside each other and meet at their
-- queues. A step is one call on a queue, or one piece of work between two calls. The queues keep the
-- contract of Queue/Fifo, with the messages in place of the pointers to them.
pub mod Outstanding
pub mod Due
pub mod Served
pub mod Submitted
pub mod Progress
use cpuminer.Base.{
  ℕ, zero, suc, ◌+◌, ◌<◌, ◌≡◌, ◌==◌, if◌then◌else◌, Bool, true, false, not, Option, none, some,
  List, [], ◌∷◌, ◌⊎◌,
}
use cpuminer.Base.Int.{ℤ}
use cpuminer.Elist.{update}
use cpuminer.Work.{Work, Json}
use cpuminer.Workio.{workio_get_work, workio_submit_work}
use cpuminer.Queue.Fifo.{Fifo, enqueue, freeze_queue}
use cpuminer.TimeVal.{Timeval, adjust_max_nonce}

-- `struct workio_cmd`: the thread, and the copy of the work unit.
pub data WorkioCmd : Type 0 where
  get_cmd : ℕ → WorkioCmd
  submit_cmd : ℕ → Work → WorkioCmd

-- Where `miner_thread` is, with `max_nonce` and the work unit where it has one: before `pthread_create`,
-- at the top of the loop, in `tq_pop` of `get_work`, before the scan, before `submit_work`, at `out`,
-- and returned.
pub data MinerPc : Type 0 where
  unborn : MinerPc
  asking : ℕ → MinerPc
  waiting : ℕ → MinerPc
  scanning : ℕ → Work → MinerPc
  solved : ℕ → Work → MinerPc
  leaving ended : MinerPc

-- Where `workio_thread` is: before `curl_easy_init`, in `tq_pop`, with a command, behind the loop, and
-- returned.
pub data WorkioPc : Type 0 where
  starting popping : WorkioPc
  handling : WorkioCmd → WorkioPc
  stopping stopped : WorkioPc

pub record System : Type 0 where
  pub commands : Fifo WorkioCmd
  pub workio : WorkioPc
  pub replies : ℕ → Fifo Work
  pub pc : ℕ → MinerPc

-- What a scan returns, counts and leaves in the work unit.
pub record Scanned : Type 0 where
  pub rc : Bool
  pub hashes_done : ℕ
  pub work : Work

-- What the `switch` over the algorithms comes to: a scan that returns, an algorithm that the program
-- was built without, or a scan that does not return or reads out of bounds.
pub data Switched : Type 0 where
  scanned : Scanned → Switched
  unknown_algo undefined : Switched

abbrev pub move : ℕ → MinerPc → System → System
move i p s = record s { pc = update s.pc i p }

-- `max_nonce` at the start of a mining thread.
abbrev pub first_max_nonce : ℕ
first_max_nonce = 0xffffff

-- The reply of `workio_get_work`, which the queue of the thread takes unless it is frozen.
abbrev pub deliver : ℕ → Option Work → System → System
deliver i none s = s
deliver i (some w) s = record s { replies = update s.replies i (enqueue w (s.replies i)) }

-- `main` after it has started the work thread.
abbrev pub start : System
start = record {
  commands = record { items = []; frozen = false };
  workio = starting;
  replies = λ i. record { items = []; frozen = false };
  pc = λ i. unborn;
}

-- `scan e max_nonce work` is what the scan of the chosen algorithm does, where `e` stands for what
-- else it depends on.
module _ {E : Type 0} (scan : E → ℕ → Work → Switched) (opt_n_threads : ℕ) where
  -- One step of mining thread `i`. A call of `tq_pop` on an empty queue returns NULL after a wait in
  -- which nothing came.
  pub data MinerStep (i : ℕ) (s : System) : System → Type 0 where
    create : s.pc i ≡ unborn → i < opt_n_threads → MinerStep i s (move i (asking first_max_nonce) s)
    ask :
        (n : ℕ)
        → s.pc i ≡ asking n
        → s.commands.frozen ≡ false
        → MinerStep i s
            (move i (waiting n) (record s { commands = enqueue (get_cmd i) s.commands }))
    -- No memory for the message, or the queue refuses it.
    ask_failed : (n : ℕ) → s.pc i ≡ asking n → MinerStep i s (move i leaving s)
    receive :
        (n : ℕ) (w : Work) (ws : List Work)
        → s.pc i ≡ waiting n
        → (s.replies i).items ≡ w ∷ ws
        → MinerStep i s (
            move i
              (scanning n w)
              (record s { replies = update s.replies i (record (s.replies i) { items = ws }) }))
    woken :
        (n : ℕ) → s.pc i ≡ waiting n → (s.replies i).items ≡ [] → MinerStep i s (move i leaving s)
    -- `opt_scantime` is what the variable holds then: the work thread changes it when it activates long
    -- polling.
    scan_done :
        (n : ℕ) (w : Work) (e : E) (out : Scanned) (diff : Timeval) (opt_scantime : ℕ)
        → s.pc i ≡ scanning n w
        → scan e n w ≡ scanned out
        → MinerStep i s (
            move i
              (if out.rc
                then solved (adjust_max_nonce out.hashes_done opt_scantime diff n) out.work
                else asking (adjust_max_nonce out.hashes_done opt_scantime diff n))
              s)
    no_algo :
        (n : ℕ) (w : Work) (e : E)
        → s.pc i ≡ scanning n w
        → scan e n w ≡ unknown_algo
        → MinerStep i s (move i leaving s)
    submit :
        (n : ℕ) (w : Work)
        → s.pc i ≡ solved n w
        → s.commands.frozen ≡ false
        → MinerStep i s
            (move i (asking n) (record s { commands = enqueue (submit_cmd i w) s.commands }))
    submit_failed : (n : ℕ) (w : Work) → s.pc i ≡ solved n w → MinerStep i s (move i leaving s)
    leave :
        s.pc i ≡ leaving
        → MinerStep i s
            (move i ended (record s { replies = update s.replies i (freeze_queue (s.replies i)) }))

  -- `entries_ok` is whether `tq_push` always gets the memory for its entry when the work thread replies.
  module _ (json : Json) (opt_retries : ℤ) (entries_ok : Bool) where
    -- One step of the work thread, with the work that the call in hand does.
    pub data WorkioStep (s : System) : System → Type 0 where
      curl_ready : s.workio ≡ starting → WorkioStep s (record s { workio = popping })
      -- Without a CURL handle it returns at once, and leaves the queue open.
      no_curl : s.workio ≡ starting → WorkioStep s (record s { workio = stopped })
      take :
          (c : WorkioCmd) (cs : List WorkioCmd)
          → s.workio ≡ popping
          → s.commands.items ≡ c ∷ cs
          → WorkioStep s
              (record s { workio = handling c; commands = record s.commands { items = cs } })
      take_none :
          s.workio ≡ popping → s.commands.items ≡ [] → WorkioStep s (record s { workio = stopping })
      get_handled :
          (i : ℕ) (ok : Bool) (reply : Option Work) (fuel : ℕ) (calloc_ok : Bool)
          (rpc : ℕ → Option json.Value)
          → s.workio ≡ handling (get_cmd i)
          → workio_get_work json fuel opt_retries calloc_ok (not (s.replies i).frozen) rpc
            ≡ some (ok, reply)
          → WorkioStep s (record (deliver i reply s) { workio = if ok then popping else stopping })
      -- `tq_push` fails for want of memory.
      get_unsent :
          (i : ℕ) (ok : Bool) (reply : Option Work) (fuel : ℕ) (calloc_ok : Bool)
          (rpc : ℕ → Option json.Value)
          → s.workio ≡ handling (get_cmd i)
          → entries_ok ≡ false
          → workio_get_work json fuel opt_retries calloc_ok false rpc ≡ some (ok, reply)
          → WorkioStep s (record (deliver i reply s) { workio = if ok then popping else stopping })
      submit_handled :
          (i : ℕ) (w : Work) (ok : Bool) (fuel : ℕ) (malloc_ok : ℕ → Bool)
          (rpc : ℕ → List ℕ → Option json.Value)
          → s.workio ≡ handling (submit_cmd i w)
          → workio_submit_work json fuel opt_retries malloc_ok rpc w ≡ some ok
          → WorkioStep s (record s { workio = if ok then popping else stopping })
      stop :
          s.workio ≡ stopping
          → WorkioStep s (record s { workio = stopped; commands = freeze_queue s.commands })

    -- One step of the system.
    pub data Step (s t : System) : Type 0 where
      miner : (i : ℕ) → MinerStep i s t → Step s t
      workio : WorkioStep s t → Step s t

    pub data Reach : System → Type 0 where
      here : Reach start
      later : {s t : System} → Reach s → Step s t → Reach t
