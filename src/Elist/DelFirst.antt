-- ===== src/Elist/DelFirst.antt =====
-- `list_del` of the first entry.
use cpuminer.Base.{◌≡◌, refl, ◌∙◌, true, some, List, [], ◌∷◌, arith}
use cpuminer.Elist.{Ptr, Heap, list_del}
use cpuminer.Elist.Ring.{
  ◌∉◌, Distinct, Alive, Linked, end_of, IsRing, end_of-ne, Linked-frame, has_apart,
}
use cpuminer.Elist.Rules.{deleted, list_del-deleted}

-- The entry after the first one, or the head.
abbrev pub second : Ptr → List Ptr → Ptr
second head [] = head
second head (y ∷ ys) = y

pub next-second :
    (h : Heap) (head x : Ptr) (xs : List Ptr)
    → Linked h x xs
    → h.next (end_of x xs) ≡ head
    → h.next x ≡ second head xs
next-second h head x [] l e = e
next-second h head x (y ∷ ys) l e = l.0

pub second-alive :
    (h : Heap) (head : Ptr) (xs : List Ptr)
    → h.alive head ≡ true
    → Alive h xs
    → h.alive (second head xs) ≡ true
second-alive h head [] a all = a
second-alive h head (y ∷ ys) a all = all.0

abbrev pub rest_heap : Heap → Ptr → Ptr → List Ptr → Heap
rest_heap h head x xs = deleted h x head (second head xs)

first_deleted :
    (h : Heap) (head x : Ptr) (xs : List Ptr)
    → IsRing h head (x ∷ xs)
    → list_del x h ≡ some (tt, rest_heap h head x xs)
first_deleted h head x xs r =
    let prev : h.prev x ≡ head = r.linked.1 in
    let next : h.next x ≡ second head xs = next-second h head x xs r.linked.2 r.closed in
    list_del-deleted h x r.alive.0 (rw prev r.head_alive)
      (rw next (second-alive h head xs r.head_alive r.alive.1))
    ∙ rw (prev, next) refl

-- Links that lead through entries other than the two that are written.
Linked-rest :
    (h : Heap) (head x y : Ptr) (ys : List Ptr)
    → head ∉ (x ∷ y ∷ ys)
    → Distinct (x ∷ y ∷ ys)
    → Linked h y ys
    → Linked (deleted h x head y) y ys
Linked-rest h head x y ys apart d l =
    Linked-frame h (deleted h x head y) y ys l
      (λ a m. ground (arith, has_apart head a (y ∷ ys), has_apart x a (y ∷ ys)))
      (λ a m. ground (arith, has_apart y a ys, has_apart x a (y ∷ ys)))

rest-IsRing :
    (h : Heap) (head x : Ptr) (xs : List Ptr)
    → IsRing h head (x ∷ xs)
    → IsRing (rest_heap h head x xs) head xs
rest-IsRing h head x [] r = record {
  head_alive = r.head_alive;
  alive = tt;
  head_apart = refl;
  distinct = tt;
  linked = tt;
  closed = ground (arith, r.head_apart);
  closed_back = ground (arith, r.head_apart);
}
rest-IsRing h head x (y ∷ ys) r = record {
  head_alive = r.head_alive;
  alive = r.alive.1;
  head_apart = ground (arith, r.head_apart);
  distinct = r.distinct.1;
  linked = (
    ground (arith, r.head_apart),
    ground (arith, r.distinct.0),
    Linked-rest h head x y ys r.head_apart r.distinct r.linked.2.2,
  );
  closed = ground (
    arith,
    r.closed,
    end_of-ne x y ys r.distinct.0,
    end_of-ne head y ys (ground (arith, r.head_apart)),
  );
  closed_back = ground (arith, r.head_apart, r.closed_back);
}

-- `list_del` of the first entry leaves the others, in their order.
pub list_del-IsRing :
    {h : Heap} {head x : Ptr} {xs : List Ptr}
    → IsRing h head (x ∷ xs)
    → (list_del x h ≡ some (tt, rest_heap h head x xs)) × IsRing (rest_heap h head x xs) head xs
list_del-IsRing {h} {head} {x} {xs} r = (first_deleted h head x xs r, rest-IsRing h head x xs r)
