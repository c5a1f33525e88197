-- ===== src/Queue.antt =====
-- The thread queues of util.c, on the lists of elist.h. One call runs with the mutex held; a wait
-- gives the mutex up, so it is a parameter: what the other threads leave, and its return code.
pub mod Entries
pub mod Push
pub mod Pop
pub mod Free
pub mod Fifo
use cpuminer.Base.{ℕ, zero, suc, ◌==◌, if◌then◌else◌, Bool, true, false, not, Option, none, some}
use cpuminer.Elist.{
  Ptr, null, Heap, M, pure, and_then, ◌>>=◌, ◌>>◌, get_next, init_list_head, list_add_tail,
  list_del, list_empty, get_payload, set_payload, calloc, free,
}

-- `struct thread_q`, whose list head is at `q`.
pub record ThreadQ : Type 0 where
  pub q : Ptr
  pub frozen : Bool
  pub heap : Heap

-- A part of a call that works on the list, within the call.
abbrev pub on_heap : {A : Type 0} → M A → ThreadQ → Option (A × ThreadQ)
on_heap m tq = elim (m tq.heap) [ none ↦ none | some (a, h) ↦ some (a, record tq { heap = h }) ]

-- `tq` is what `calloc` returns; NULL is its failure.
pub tq_new : Ptr → Heap → Option (Option ThreadQ × Heap)
tq_new tq h = if tq == null then some (none, h) else elim ((calloc tq >> init_list_head tq) h) [
  | none ↦ none
  | some (_, h') ↦ some (some (record { q = tq; frozen = false; heap = h' }), h')
]

unfoldable pub tq_freezethaw : ThreadQ → Bool → ThreadQ
tq_freezethaw tq frozen = record tq { frozen = frozen }

unfoldable pub tq_freeze : ThreadQ → ThreadQ
unfolding tq_freezethaw
tq_freeze tq = tq_freezethaw tq true

unfoldable pub tq_thaw : ThreadQ → ThreadQ
unfolding tq_freezethaw
tq_thaw tq = tq_freezethaw tq false

-- `ent` is what `calloc` returns.
push_entry : Ptr → Ptr → Ptr → Bool → M Bool
push_entry ent d q frozen = do
  calloc ent
  set_payload ent d
  init_list_head ent
  if not frozen then (do list_add_tail ent q; pure true) else (do free ent; pure false)

pub tq_push : Ptr → ThreadQ → Ptr → Option (Bool × ThreadQ)
tq_push ent tq d =
    if ent == null then some (false, tq) else on_heap (push_entry ent d tq.q tq.frozen) tq

-- The part of `tq_pop` behind the label `pop`.
pop_entry : Ptr → M Ptr
pop_entry q = do ent ← get_next q; rval ← get_payload ent; list_del ent; free ent; pure rval

-- The part of `tq_pop` from a test of the queue on: the first entry, or `otherwise`.
pop_or : ThreadQ → Option (Ptr × ThreadQ) → Option (Ptr × ThreadQ)
pop_or tq otherwise = elim (list_empty tq.q tq.heap) [
  | none ↦ none
  | some (empty, _) ↦ if empty then otherwise else on_heap (pop_entry tq.q) tq
]

-- `wait` is `pthread_cond_wait` or `pthread_cond_timedwait`: whether it returns an error, and the
-- queue as the other threads have left it.
pub tq_pop : (ThreadQ → Bool × ThreadQ) → ThreadQ → Option (Ptr × ThreadQ)
tq_pop wait tq =
    let (rc, tq') = wait tq in
    pop_or tq (if rc then some (null, tq') else pop_or tq' (some (null, tq')))

-- `list_for_each_entry_safe` of `tq_free`, at the entry `ent` with `iter` read ahead. One pass of
-- the loop takes one unit of fuel; `none` is a fault or the end of the fuel.
free_loop : ℕ → Ptr → Ptr → Ptr → M (Unit {0})
free_loop zero q ent iter = λ h. none
free_loop (suc fuel) q ent iter =
    if ent == q
    then pure tt
    else do list_del ent; free ent; next ← get_next iter; free_loop fuel q iter next

pub tq_free : ℕ → Option ThreadQ → Heap → Option (Unit {0} × Heap)
tq_free fuel none h = some (tt, h)
tq_free fuel (some tq) h =
    (do ent ← get_next tq.q; iter ← get_next ent; free_loop fuel tq.q ent iter; free tq.q) h
