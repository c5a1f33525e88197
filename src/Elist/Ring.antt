-- ===== src/Elist/Ring.antt =====
-- What a circular list is: a head and its entries, linked both ways.
use cpuminer.Base.{◌==◌, ◌≡◌, ◌≢◌, refl, Bool, true, false, ◌||◌, List, [], ◌∷◌, ◌++◌, arith}
use cpuminer.Elist.{Ptr, Heap}

abbrev pub has : Ptr → List Ptr → Bool
has a [] = false
has a (x ∷ xs) = (a == x) || has a xs

infix 40 ◌∉◌
abbrev pub ◌∉◌ : Ptr → List Ptr → Type 0
a ∉ xs = has a xs ≡ false

abbrev pub Distinct : List Ptr → Type 0
Distinct [] = Unit
Distinct (x ∷ xs) = (x ∉ xs) × Distinct xs

abbrev pub Alive : Heap → List Ptr → Type 0
Alive h [] = Unit
Alive h (x ∷ xs) = (h.alive x ≡ true) × Alive h xs

-- From `p` the links lead through `xs`, forwards and back.
abbrev pub Linked : Heap → Ptr → List Ptr → Type 0
Linked h p [] = Unit
Linked h p (x ∷ xs) = (h.next p ≡ x) × (h.prev x ≡ p) × Linked h x xs

abbrev pub end_of : Ptr → List Ptr → Ptr
end_of p [] = p
end_of p (x ∷ xs) = end_of x xs

-- The list at `head` holds the entries `xs`, in this order.
pub record IsRing (h : Heap) (head : Ptr) (xs : List Ptr) : Type 0 where
  pub head_alive : h.alive head ≡ true
  pub alive : Alive h xs
  pub head_apart : head ∉ xs
  pub distinct : Distinct xs
  pub linked : Linked h head xs
  pub closed : h.next (end_of head xs) ≡ head
  pub closed_back : h.prev head ≡ end_of head xs

pub end_of-append : (p x : Ptr) (xs : List Ptr) → end_of p (xs ++ x ∷ []) ≡ x
end_of-append p x [] = refl
end_of-append p x (y ∷ xs) = end_of-append y x xs

-- A pointer apart from the entries is not the last of them.
pub end_of-ne : (a x : Ptr) (xs : List Ptr) → a ∉ (x ∷ xs) → a ≢ end_of x xs
end_of-ne a x [] h e = ground arith
end_of-ne a x (y ∷ xs) h e = end_of-ne a y xs (ground arith) e

pub has-append_one : (a x : Ptr) (xs : List Ptr) → has a (xs ++ x ∷ []) ≡ (has a xs || a == x)
has-append_one a x [] = ground arith
has-append_one a x (y ∷ xs) = ground (arith, has-append_one a x xs)

pub end_of-alive :
    (h : Heap) (p : Ptr) (xs : List Ptr)
    → h.alive p ≡ true
    → Alive h xs
    → h.alive (end_of p xs) ≡ true
end_of-alive h p [] a all = a
end_of-alive h p (x ∷ xs) a all = end_of-alive h x xs all.0 all.1

-- Links that are not written stay.
pub Linked-frame :
    (h g : Heap) (p : Ptr) (xs : List Ptr)
    → Linked h p xs
    → ((a : Ptr) → has a (p ∷ xs) ≡ true → g.next a ≡ h.next a)
    → ((a : Ptr) → has a xs ≡ true → g.prev a ≡ h.prev a)
    → Linked g p xs
Linked-frame h g p [] l ns ps = tt
Linked-frame h g p (x ∷ xs) l ns ps = (
  ground (arith, ns p),
  ground (arith, ps x),
  Linked-frame h g x xs l.2 (λ a m. ns a (ground arith)) (λ a m. ps a (ground arith)),
)

pub Distinct-append : (x : Ptr) (xs : List Ptr) → Distinct xs → x ∉ xs → Distinct (xs ++ x ∷ [])
Distinct-append x [] d out = (refl, tt)
Distinct-append x (y ∷ xs) d out =
    (ground (arith, has-append_one y x xs), Distinct-append x xs d.1 (ground arith))

pub Alive-append :
    (h : Heap) (x : Ptr) (xs : List Ptr) → Alive h xs → h.alive x ≡ true → Alive h (xs ++ x ∷ [])
Alive-append h x [] all a = (a, tt)
Alive-append h x (y ∷ xs) all a = (all.0, Alive-append h x xs all.1 a)

-- Two pointers of which one is in the list and the other is not.
pub has_apart : (a b : Ptr) (xs : List Ptr) → a ∉ xs → has b xs ≡ true → b ≢ a
has_apart a b xs out mem e = ground arith
