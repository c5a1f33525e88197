-- ===== src/Queue/Entries.antt =====
-- What a thread queue holds.
use cpuminer.Base.{◌≡◌, ◌≢◌, refl, true, false, List, [], ◌∷◌, ◌++◌, map, ap, arith}
use cpuminer.Elist.{Ptr, Heap}
use cpuminer.Elist.Ring.{has, ◌∉◌, Alive, IsRing, Linked-frame, has_apart, end_of, end_of-ne}
use cpuminer.Queue.{ThreadQ}

-- The queue holds the pointers `ds`, the next one to be taken first.
pub record IsQueue (tq : ThreadQ) (ds : List Ptr) : Type 0 where
  pub entries : List Ptr
  pub ring : IsRing tq.heap tq.q entries
  pub payloads : map tq.heap.payload entries ≡ ds

-- Memory that is not in use is not in the list.
pub apart_of_dead : (h : Heap) (a : Ptr) (xs : List Ptr) → h.alive a ≡ false → Alive h xs → a ∉ xs
apart_of_dead h a [] dead all = refl
apart_of_dead h a (x ∷ xs) dead all = ground (arith, apart_of_dead h a xs dead all.1)

pub map-append_one :
    (f : Ptr → Ptr) (xs : List Ptr) (x : Ptr) → map f (xs ++ x ∷ []) ≡ map f xs ++ f x ∷ []
map-append_one f [] x = refl
map-append_one f (y ∷ xs) x = ap (λ l. f y ∷ l) (map-append_one f xs x)

pub map_frame :
    (f g : Ptr → Ptr) (xs : List Ptr)
    → ((a : Ptr) → has a xs ≡ true → f a ≡ g a)
    → map f xs ≡ map g xs
map_frame f g [] same = refl
map_frame f g (x ∷ xs) same =
    ground (arith, same x, map_frame f g xs (λ a m. same a (ground arith)))

Alive-frame :
    (h g : Heap) (xs : List Ptr)
    → Alive h xs
    → ((a : Ptr) → has a xs ≡ true → g.alive a ≡ h.alive a)
    → Alive g xs
Alive-frame h g [] all same = tt
Alive-frame h g (x ∷ xs) all same =
    (ground (arith, same x), Alive-frame h g xs all.1 (λ a m. same a (ground arith)))

-- A list is left alone by writes to an object `p` that is no part of it.
pub IsRing-frame :
    {h g : Heap} {head : Ptr} {xs : List Ptr} (p : Ptr)
    → IsRing h head xs
    → p ∉ (head ∷ xs)
    → ((a : Ptr) → a ≢ p → g.alive a ≡ h.alive a)
    → ((a : Ptr) → a ≢ p → g.next a ≡ h.next a)
    → ((a : Ptr) → a ≢ p → g.prev a ≡ h.prev a)
    → IsRing g head xs
IsRing-frame {h} {g} {head} {xs} p r out lives ns ps = record {
  head_alive = ground (arith, lives head, r.head_alive);
  alive = Alive-frame h g xs r.alive (λ a m. lives a (has_apart p a xs (ground arith) m));
  head_apart = r.head_apart;
  distinct = r.distinct;
  linked =
      Linked-frame h g head xs r.linked (λ a m. ns a (has_apart p a (head ∷ xs) out m))
        (λ a m. ps a (has_apart p a xs (ground arith) m));
  closed = ground (arith, ns (end_of head xs), r.closed, end_of-ne p head xs out);
  closed_back = ground (arith, ps head, r.closed_back);
}
