-- ===== src/Queue/Free.antt =====
-- `tq_free` frees every entry, and the queue.
use cpuminer.Base.{
  ℕ, zero, suc, ◌<◌, ◌==◌, ◌≡◌, refl, ◌∙◌, true, false, ==_iff, Option, some, List, [], ◌∷◌, arith,
  if◌then◌else◌, length, length-map, ap,
}
use cpuminer.Elist.{Ptr, Heap, update, get_next, free}
use cpuminer.Elist.Ring.{has, IsRing}
use cpuminer.Elist.DelFirst.{second, next-second, second-alive, list_del-IsRing}
use cpuminer.Queue.{ThreadQ, free_loop, tq_free}
use cpuminer.Queue.Pop.{popped_heap, popped-IsRing}
use cpuminer.Queue.Entries.{IsQueue}

-- `h` with exactly the objects `xs` freed.
abbrev pub Freed : List Ptr → Heap → Heap → Type 0
Freed xs h g = (a : Ptr) → g.alive a ≡ (if has a xs then false else h.alive a)

-- The entry after the next one, as the loop reads it ahead.
abbrev third : Ptr → List Ptr → Ptr
third q [] = q
third q (y ∷ ys) = second q ys

next-first : {h : Heap} {q : Ptr} (xs : List Ptr) → IsRing h q xs → h.next q ≡ second q xs
next-first [] r = r.closed
next-first (x ∷ xs) r = r.linked.0

next-third :
    {h : Heap} {q : Ptr} (xs : List Ptr) → IsRing h q xs → h.next (second q xs) ≡ third q xs
next-third [] r = r.closed
next-third {h} {q} (x ∷ xs) r = next-second h q x xs r.linked.2 r.closed

-- The whole loop: no fault, enough fuel, and what it leaves.
record IsFreed (h : Heap) (q : Ptr) (xs : List Ptr) (run : Option (Unit {0} × Heap)) : Type 0 where
  after : Heap
  returns : run ≡ some (tt, after)
  freed : Freed xs h after
  empty : IsRing after q []

-- One pass of the loop.
free_loop-suc :
    (fuel : ℕ) (h : Heap) (q x : Ptr) (xs : List Ptr)
    → IsRing h q (x ∷ xs)
    → free_loop (suc fuel) q x (second q xs) h
      ≡ free_loop fuel q (second q xs) (third q xs) (popped_heap h q x xs)
unfolding free_loop free get_next
free_loop-suc fuel h q x xs r =
    let ring = popped-IsRing r in
    let ne : (x == q) ≡ false = ground (arith, r.head_apart) in
    let lives = second-alive (popped_heap h q x xs) q xs ring.head_alive ring.alive in
    simp (ne, (list_del-IsRing r).0, r.alive.0, lives, next-third xs ring)

free_loop-IsFreed :
    (fuel : ℕ) (h : Heap) (q : Ptr) (xs : List Ptr)
    → length xs < fuel
    → IsRing h q xs
    → IsFreed h q xs (free_loop fuel q (second q xs) (third q xs) h)
unfolding free_loop
free_loop-IsFreed zero h q xs small r = absurd (omega arith)
free_loop-IsFreed (suc fuel) h q [] small r = record {
  after = h;
  returns = let e : (q == q) ≡ true = (==_iff q q).1 refl in rw e refl;
  freed = λ a. refl;
  empty = r;
}
free_loop-IsFreed (suc fuel) h q (x ∷ xs) small r =
    let rest = free_loop-IsFreed fuel (popped_heap h q x xs) q xs (omega arith) (popped-IsRing r) in
    record {
      after = rest.after;
      returns = free_loop-suc fuel h q x xs r ∙ rest.returns;
      freed = λ a. ground (arith, rest.freed a);
      empty = rest.empty;
    }

-- `tq_free` on a queue that is not NULL returns without a fault, after at most one pass of its loop
-- for each entry; of all objects it frees exactly the entries and the queue.
pub tq_free_lem :
    {tq : ThreadQ} {ds : List Ptr} (is : IsQueue tq ds) (fuel : ℕ)
    → length ds < fuel
    → (g : Heap) × (tq_free fuel (some tq) tq.heap ≡ some (tt, g))
      × Freed (tq.q ∷ is.entries) tq.heap g
unfolding tq_free get_next free
tq_free_lem {tq} is fuel small =
    let r = is.ring in
    let loop =
      free_loop-IsFreed fuel tq.heap tq.q is.entries
        (omega (arith, length-map tq.heap.payload is.entries, ap length is.payloads)) r in
    (
      record loop.after { alive = update loop.after.alive tq.q false },
      simp (
        r.head_alive,
        next-first is.entries r,
        second-alive tq.heap tq.q is.entries r.head_alive r.alive,
        next-third is.entries r,
        loop.returns,
        loop.empty.head_alive,
      ),
      λ a. ground (arith, loop.freed a),
    )
