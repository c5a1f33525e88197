-- ===== src/Queue/Push.antt =====
-- `tq_push` appends at the end, or refuses.
use cpuminer.Base.{
  ◌≡◌, ◌≢◌, refl, sym, ◌∙◌, Bool, true, false, not, ==_iff, Bool-cases, inl, inr, some, List, [],
  ◌∷◌, ◌++◌, map, arith, if◌then◌else◌,
}
use mathlib.Core.Path.{subst}
use cpuminer.Elist.{
  Ptr, null, Heap, update, pure, ◌>>◌, list_add_tail, init_list_head, set_next, set_prev,
  set_payload, calloc, free,
}
use cpuminer.Elist.Ring.{◌∉◌, end_of, IsRing, has_apart}
use cpuminer.Elist.Rules.{added}
use cpuminer.Elist.AddTail.{list_add_tail-IsRing}
use cpuminer.Queue.{ThreadQ, push_entry, tq_push}
use cpuminer.Queue.Entries.{IsQueue, apart_of_dead, map-append_one, map_frame, IsRing-frame}

-- The heap with the new entry, which is linked to itself.
abbrev pub with_entry : Heap → Ptr → Ptr → Heap
with_entry h ent d = record {
  alive = update h.alive ent true;
  next = update (update h.next ent null) ent ent;
  prev = update (update h.prev ent null) ent ent;
  payload = update (update h.payload ent null) ent d;
}

-- What `tq_push` does before it takes the mutex.
push_entry-with_entry :
    (h : Heap) (ent d q : Ptr) (frozen : Bool)
    → push_entry ent d q frozen h
      ≡ (if not frozen then (do list_add_tail ent q; pure true) else (do free ent; pure false))
          (with_entry h ent d)
unfolding push_entry init_list_head set_next set_prev set_payload calloc
push_entry-with_entry h ent d q frozen = let self = (==_iff ent ent).1 refl in simp self

module _ {tq : ThreadQ} {ds : List Ptr} (is : IsQueue tq ds) (ent d : Ptr)
    (dead : tq.heap.alive ent ≡ false) where
  abbrev fresh_heap : Heap
  fresh_heap = with_entry tq.heap ent d

  ent-apart : ent ∉ (tq.q ∷ is.entries)
  ent-apart =
      ground (arith, is.ring.head_alive, apart_of_dead tq.heap ent is.entries dead is.ring.alive)

  fresh-IsRing : IsRing fresh_heap tq.q is.entries
  fresh-IsRing =
      IsRing-frame ent is.ring ent-apart (λ a ne. ground arith) (λ a ne. ground arith)
        (λ a ne. ground arith)

  payloads-fresh : map fresh_heap.payload is.entries ≡ ds
  payloads-fresh =
      map_frame fresh_heap.payload tq.heap.payload is.entries
        (λ a m. ground (arith, has_apart ent a is.entries (ground (arith, ent-apart)) m))
      ∙ is.payloads

  fresh-payload : fresh_heap.payload ent ≡ d
  fresh-payload = ground arith

  -- Where the queue is not frozen.
  abbrev pushed_heap : Heap
  pushed_heap = added fresh_heap ent (end_of tq.q is.entries) tq.q

  thawed_push :
      (push_entry ent d tq.q false tq.heap ≡ some (true, pushed_heap))
      × IsQueue (record tq { heap = pushed_heap }) (ds ++ d ∷ [])
  thawed_push =
      let (run, ring) = list_add_tail-IsRing fresh-IsRing ent (ground arith) ent-apart in
      (
        push_entry-with_entry tq.heap ent d tq.q false ∙ rw run refl,
        record {
          entries = is.entries ++ ent ∷ [];
          ring = ring;
          payloads =
              map-append_one fresh_heap.payload is.entries ent
              ∙ rw (payloads-fresh, fresh-payload) refl;
        },
      )

  -- Where it is, the new entry is freed again.
  abbrev refused_heap : Heap
  refused_heap = record fresh_heap { alive = update fresh_heap.alive ent false }

  frozen_push :
      (push_entry ent d tq.q true tq.heap ≡ some (false, refused_heap))
      × IsQueue (record tq { heap = refused_heap }) ds
  frozen_push = (
    push_entry-with_entry tq.heap ent d tq.q true
        ∙ (unfold free in let self = (==_iff ent ent).1 refl in simp self),
    record {
      entries = is.entries;
      ring =
          IsRing-frame ent is.ring ent-apart (λ a ne. ground arith) (λ a ne. ground arith)
            (λ a ne. ground arith);
      payloads = payloads-fresh;
    },
  )

  -- `tq_push` with memory for the entry: on a queue that is not frozen it returns true and the
  -- pointer stands at the end; on a frozen one it returns false, the queue holds what it held and the
  -- entry is freed. It never faults, and freezes or thaws nothing.
  pub tq_push_lem :
      ent ≢ null
      → (tq' : ThreadQ) × (tq_push ent tq d ≡ some (not tq.frozen, tq'))
        × IsQueue tq' (if tq.frozen then ds else ds ++ d ∷ [])
        × (tq'.frozen ≡ tq.frozen)
        × (tq'.heap.alive ent ≡ not tq.frozen)
  unfolding tq_push
  tq_push_lem ne = elim (Bool-cases tq.frozen) [
    | inl cold ↦ (
      record tq { heap = refused_heap },
      ground (arith, frozen_push.0),
      subst (λ b. IsQueue (record tq { heap = refused_heap }) (if b then ds else ds ++ d ∷ []))
          (sym cold) frozen_push.1,
      refl,
      ground arith,
    )
    | inr thawed ↦ (
      record tq { heap = pushed_heap },
      ground (arith, thawed_push.0),
      subst (λ b. IsQueue (record tq { heap = pushed_heap }) (if b then ds else ds ++ d ∷ []))
          (sym thawed) thawed_push.1,
      refl,
      ground arith,
    )
  ]

-- Without memory for the entry `tq_push` returns false and changes nothing.
tq_push_oom : (tq : ThreadQ) (d : Ptr) → tq_push null tq d ≡ some (false, tq)
unfolding tq_push
tq_push_oom tq d = refl
