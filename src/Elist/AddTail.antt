-- ===== src/Elist/AddTail.antt =====
-- `list_add_tail` puts an entry behind the last one.
use cpuminer.Base.{◌≡◌, ◌≢◌, refl, true, some, List, [], ◌∷◌, ◌++◌, arith}
use cpuminer.Elist.{Ptr, Heap, list_add_tail}
use cpuminer.Elist.Ring.{
  ◌∉◌, Distinct, Linked, end_of, IsRing, end_of-append, end_of-ne, has-append_one, end_of-alive,
  Distinct-append, Alive-append,
}
use cpuminer.Elist.Rules.{added, list_add_tail-added}

-- The links from `p` through `xs` survive, and go on to the new entry.
Linked-added :
    (h : Heap) (new head p : Ptr) (xs : List Ptr)
    → p ∉ xs
    → Distinct xs
    → new ∉ (p ∷ xs)
    → head ∉ xs
    → new ≢ head
    → Linked h p xs
    → Linked (added h new (end_of p xs) head) p (xs ++ new ∷ [])
Linked-added h new head p [] out d fresh apart ne l = (ground arith, ground arith, tt)
Linked-added h new head p (x ∷ xs) out d fresh apart ne l = (
  ground (arith, end_of-ne p x xs),
  ground arith,
  Linked-added h new head x xs d.0 d.1 (ground arith) (ground arith) ne l.2,
)

module _ {h : Heap} {head : Ptr} {xs : List Ptr} (r : IsRing h head xs) where
  -- `list_add_tail` on a live entry that is not yet in the list.
  pub list_add_tail-IsRing :
      (new : Ptr)
      → h.alive new ≡ true
      → new ∉ (head ∷ xs)
      → (list_add_tail new head h ≡ some (tt, added h new (end_of head xs) head))
        × IsRing (added h new (end_of head xs) head) head (xs ++ new ∷ [])
  list_add_tail-IsRing new live fresh = (
    rw
        (
          ← r.closed_back,
          list_add_tail-added h new head live r.head_alive
              (rw r.closed_back (end_of-alive h head xs r.head_alive r.alive)),
        )
        refl,
    record {
      head_alive = r.head_alive;
      alive = Alive-append h new xs r.alive live;
      head_apart = rw (has-append_one, r.head_apart) (ground arith);
      distinct = Distinct-append new xs r.distinct (ground arith);
      linked =
          Linked-added h new head head xs r.head_apart r.distinct fresh r.head_apart (ground arith)
            r.linked;
      closed = rw end_of-append (ground (arith, end_of-ne new head xs));
      closed_back = rw end_of-append (ground arith);
    },
  )
