-- ===== src/Tests/Runs.antt =====
-- The threads beside each other: one mining thread that asks, is answered at the third attempt, scans
-- with an instruction whose results all end in a zero word, and submits.
use cpuminer.Base.{List, ℕ, ◌≡◌, refl, Bool, true, inr, none, some, [], set, All, arith}
use cpuminer.Base.Int.{pos}
use cpuminer.Elist.{update}
use cpuminer.Work.{Work}
use cpuminer.Workio.{workio_get_work}
use cpuminer.Workio.Fresh.{IsFresh, workio_get_work-IsFresh}
use cpuminer.Workio.Request.{received, workio_get_work_lem}
use cpuminer.Target.{swab32, bswap_16, fulltest}
use cpuminer.Via.{scanhash_via, via_loop, double_hash}
use cpuminer.TimeVal.{Timeval, adjust_max_nonce}
use cpuminer.Options.{Algo, algo_via}
use cpuminer.Threads.{
  get_cmd, submit_cmd, asking, waiting, scanning, solved, popping, handling, System, Scanned,
  Switched, scanned, create, ask, receive, scan_done, submit, take, get_handled, curl_ready,
  WorkioStep, miner, workio, Reach, here, later, move, start, first_max_nonce, deliver,
}
use cpuminer.Threads.Outstanding.{Accounted, is_running, outstanding, Reach-Accounted}
use cpuminer.Threads.Due.{Answered}
use cpuminer.Threads.Served.{nothing, by_miner, by_workio, Reach-Answered}
use cpuminer.Threads.Progress.{Surroundings, IsNext, workio_thread-WorkioStep}
use cpuminer.Threads.Submitted.{IsFoundCmd, IsFoundIn}
use cpuminer.Queue.Fifo.{enqueue}
use cpuminer.Miner.{words_of, bytes_of, scan_switch, of_via}
use cpuminer.Miner.Submits.{EnvIn, scan_in, IsFound, Reach-IsSolution}
use cpuminer.Tests.Requests.{server, calls, unit, first_fail, third_answer}
use cpuminer.Tests.Scans.{zero_hash, padding, padding_words, never}
use cpuminer.Tests.Vectors.{calc, calc-IsCompress}
use cpuminer.Tests.Blocks.{hash_blocks, hash_blocks-IsHashBlocks}

abbrev every : Algo → Bool
every a = true

-- The padding stands behind `hash1`, in every round.
abbrev IsPadding : (ℕ → List ℕ) → Type 0
IsPadding beyond = (n : ℕ) → beyond n ≡ padding n

abbrev scan : EnvIn IsPadding → ℕ → Work → Switched
scan = scan_in every calc hash_blocks zero_hash IsPadding algo_via

abbrev Runs : System → Type 0
Runs = Reach scan 2 server (pos 10) true

abbrev env : EnvIn IsPadding
env = record {
  stack = λ n. refl;
  env = record {
    beyond = padding;
    beyond_words = padding_words;
    beyond_length = λ n. omega arith;
    restart = never;
    fuel = 1;
  };
}

abbrev received_work : Work
received_work = received server calls unit

abbrev solved_work : Work
solved_work = record received_work {
  data_bytes = bytes_of (set (words_of 32 received_work.data_bytes) 19 0x01000000);
}

abbrev found : Scanned
found = record { rc = true; hashes_done = 1; work = solved_work }

scan_finds : scan env first_max_nonce received_work ≡ scanned found
unfolding scan_switch of_via scanhash_via via_loop double_hash swab32 bswap_16 fulltest
scan_finds = refl

abbrev one_minute : Timeval
one_minute = record { tv_sec = pos 60; tv_usec = pos 0 }

abbrev created : System
created = move 0 (asking first_max_nonce) (record start { workio = popping })

abbrev asked : System
asked =
    move 0 (waiting first_max_nonce)
      (record created { commands = enqueue (get_cmd 0) created.commands })

abbrev taken : System
taken = record asked {
  workio = handling (get_cmd 0);
  commands = record asked.commands { items = [] };
}

abbrev answered : System
answered = record (deliver 0 (some received_work) taken) { workio = popping }

abbrev working : System
working = move 0 (scanning first_max_nonce received_work) (record answered {
  replies = update answered.replies 0 (record (answered.replies 0) { items = [] });
})

abbrev done : System
done = move 0 (solved (adjust_max_nonce 1 5 one_minute first_max_nonce) solved_work) working

abbrev submitted : System
submitted =
    move 0 (asking (adjust_max_nonce 1 5 one_minute first_max_nonce))
      (record done { commands = enqueue (submit_cmd 0 solved_work) done.commands })

third_reply : workio_get_work server 3 (pos 10) true true calls ≡ some (true, some received_work)
third_reply =
    workio_get_work_lem server calls (pos 10) true 2 3 (omega arith) (inr (omega arith)) first_fail
      unit third_answer

asked-Runs : Runs asked
asked-Runs =
    later (later (later here (workio (curl_ready refl))) (miner 0 (create refl (omega arith))))
      (miner 0 (ask first_max_nonce refl refl))

abbrev take_step : WorkioStep scan 2 server (pos 10) true asked taken
take_step = take (get_cmd 0) [] refl refl

abbrev answer_step : WorkioStep scan 2 server (pos 10) true taken answered
answer_step = get_handled 0 true (some received_work) 3 true calls refl third_reply

answered-Runs : Runs answered
answered-Runs = later (later asked-Runs (workio take_step)) (workio answer_step)

submitted-Runs : Runs submitted
submitted-Runs =
    later
      (later (later answered-Runs (miner 0 (receive first_max_nonce received_work [] refl refl)))
        (miner 0 (scan_done first_max_nonce received_work env found one_minute 5 refl scan_finds)))
      (miner 0 (submit (adjust_max_nonce 1 5 one_minute first_max_nonce) solved_work refl refl))

abbrev Found : Work → Type 0
Found = IsFound every calc hash_blocks zero_hash IsPadding algo_via

Reach-IsSolution_example :
    All (IsFoundCmd Found) submitted.commands.items × IsFoundIn Found submitted.workio
Reach-IsSolution_example =
    Reach-IsSolution every calc calc-IsCompress hash_blocks hash_blocks-IsHashBlocks zero_hash
      IsPadding algo_via 2 server (pos 10) true submitted-Runs

Reach-Accounted_example : Accounted (asked.pc 0) (is_running asked.workio) (outstanding 0 asked)
Reach-Accounted_example = Reach-Accounted scan 2 server (pos 10) 0 asked-Runs

abbrev other_created : System
other_created = move 1 (asking first_max_nonce) answered

abbrev other_asked : System
other_asked =
    move 1 (waiting first_max_nonce)
      (record other_created { commands = enqueue (get_cmd 1) other_created.commands })

abbrev other_taken : System
other_taken = record other_asked {
  workio = handling (get_cmd 1);
  commands = record other_asked.commands { items = [] };
}

-- The work thread takes the request and one command more, of a second mining thread.
Reach-Answered_example : Answered 0 other_taken
Reach-Answered_example =
    Reach-Answered scan 2 server (pos 10) 0 first_max_nonce 2 asked-Runs refl (omega arith) (
      by_workio take_step refl (
        by_workio answer_step refl (
          by_miner 1 (omega arith) (create refl (omega arith)) (
            by_miner 1 (omega arith) (ask first_max_nonce refl refl)
              (by_workio (take (get_cmd 1) [] refl refl) refl nothing)))))

abbrev answering : Surroundings server
answering = record {
  curl_ok = true;
  calloc_ok = true;
  malloc_ok = λ i. true;
  get = calls;
  put = λ i text. none;
}

-- It has the request of thread 0 in hand, which the server answers at the third attempt.
workio_thread-WorkioStep_example :
    (t : System) × WorkioStep scan 2 server (pos 10) true taken t
    × IsNext server 10 answering taken.workio taken t
workio_thread-WorkioStep_example =
    workio_thread-WorkioStep scan 2 server 10 true taken answering (λ e. absurd cc)

workio_get_work-IsFresh_example : IsFresh received_work
workio_get_work-IsFresh_example =
    workio_get_work-IsFresh server 3 (pos 10) true true true calls received_work third_reply
