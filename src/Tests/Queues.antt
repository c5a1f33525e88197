-- ===== src/Tests/Queues.antt =====
-- Lists and queues at small addresses.
use cpuminer.Base.{
  ◌==◌, ◌≡◌, refl, Bool, true, false, if◌then◌else◌, some, List, [], ◌∷◌, arith, ◌||◌,
}
use cpuminer.Elist.{Heap}
use cpuminer.Elist.Ring.{IsRing}
use cpuminer.Queue.{ThreadQ, tq_push, tq_pop, tq_free, tq_freeze}
use cpuminer.Queue.Entries.{IsQueue}
use cpuminer.Queue.Push.{tq_push_lem}
use cpuminer.Queue.Pop.{IsPopped, tq_pop-cons, tq_pop-nil}
use cpuminer.Queue.Free.{Freed, tq_free_lem}
use cpuminer.Queue.Fifo.{
  push, pop, freeze, Call, Answer, accepted, taken, nothing, Run, next, here, pushed, popped, froze,
  Refines, Run-Refines, answers, final, timed_out,
}

-- A queue at 1 with an entry at 2 that points to 7; 3 is a live entry in no list.
abbrev one_heap : Heap
one_heap = record {
  alive = λ a. a == 1 || a == 2 || a == 3;
  next = λ a. if a == 1 then 2 else 1;
  prev = λ a. if a == 1 then 2 else 1;
  payload = λ a. 7;
}

one-IsRing : IsRing one_heap 1 (2 ∷ [])
one-IsRing = record {
  head_alive = refl;
  alive = (refl, tt);
  head_apart = refl;
  distinct = (refl, tt);
  linked = (refl, refl, tt);
  closed = refl;
  closed_back = refl;
}

abbrev one_queue : ThreadQ
one_queue = record { q = 1; frozen = false; heap = one_heap }

one_IsQueue : IsQueue one_queue (7 ∷ [])
one_IsQueue = record { entries = 2 ∷ []; ring = one-IsRing; payloads = refl }

tq_push_lem_example :
    (tq' : ThreadQ) × (tq_push 4 one_queue 9 ≡ some (true, tq'))
    × IsQueue tq' (7 ∷ 9 ∷ [])
    × (tq'.frozen ≡ false)
    × (tq'.heap.alive 4 ≡ true)
tq_push_lem_example = tq_push_lem one_IsQueue 4 9 refl (omega arith)

tq_pop-cons_example : IsPopped one_queue 7 [] (tq_pop timed_out one_queue)
tq_pop-cons_example = tq_pop-cons timed_out one_IsQueue

abbrev empty_queue : ThreadQ
empty_queue = record {
  q = 1;
  frozen = false;
  heap = record { alive = λ a. a == 1; next = λ a. 1; prev = λ a. 1; payload = λ a. 0 };
}

empty_IsQueue : IsQueue empty_queue []
empty_IsQueue = record {
  entries = [];
  ring = record {
    head_alive = refl;
    alive = tt;
    head_apart = refl;
    distinct = tt;
    linked = tt;
    closed = refl;
    closed_back = refl;
  };
  payloads = refl;
}

-- The wait ends when another thread has filled the queue.
abbrev filled : ThreadQ → Bool × ThreadQ
filled tq = (false, one_queue)

tq_pop-nil_example : IsPopped one_queue 7 [] (tq_pop filled empty_queue)
tq_pop-nil_example = tq_pop-nil filled empty_IsQueue one_IsQueue

tq_free_lem_example :
    (g : Heap) × (tq_free 2 (some one_queue) one_heap ≡ some (tt, g))
    × Freed (1 ∷ 2 ∷ []) one_heap g
unfolding one_IsQueue
tq_free_lem_example = tq_free_lem one_IsQueue 2 (omega arith)

-- One push and one pop, and then the queue is frozen.
abbrev calls : List Call
calls = push 9 ∷ pop ∷ freeze ∷ []

abbrev replies : List Answer
replies = accepted true ∷ taken 7 ∷ nothing ∷ []

nine_pushed :
    (tq' : ThreadQ) × (tq_push 4 one_queue 9 ≡ some (true, tq'))
    × IsQueue tq' (7 ∷ 9 ∷ [])
    × (tq'.frozen ≡ false)
    × (tq'.heap.alive 4 ≡ true)
nine_pushed = tq_push_lem one_IsQueue 4 9 refl (omega arith)

abbrev with_nine : ThreadQ
with_nine = nine_pushed.0

popped_seven : IsPopped with_nine 7 (9 ∷ []) (tq_pop timed_out with_nine)
popped_seven = tq_pop-cons timed_out nine_pushed.2

calls_run : Run one_queue calls replies (tq_freeze popped_seven.after)
calls_run =
    next (pushed 4 (omega arith) refl nine_pushed.1)
      (next (popped popped_seven.returns) (next (froze refl) here))

Run-Refines_example :
    (replies ≡ answers calls (record { items = 7 ∷ []; frozen = false }))
    × Refines
        (tq_freeze popped_seven.after)
        (final calls (record { items = 7 ∷ []; frozen = false }))
Run-Refines_example = Run-Refines calls_run (record { holds = one_IsQueue; frozen = refl })
