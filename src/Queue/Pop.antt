-- ===== src/Queue/Pop.antt =====
-- `tq_pop` takes the first pointer, after a wait where there is none.
use cpuminer.Base.{
  ◌==◌, ◌≡◌, refl, sym, ◌∙◌, Bool, true, false, ==_iff, Option, some, List, [], ◌∷◌, map, arith,
}
use mathlib.Core.Path.{subst}
use cpuminer.Elist.{Ptr, null, Heap, update, get_next, get_payload, list_empty, free}
use cpuminer.Elist.Ring.{IsRing}
use cpuminer.Elist.DelFirst.{rest_heap, list_del-IsRing}
use cpuminer.Queue.{ThreadQ, pop_entry, pop_or, tq_pop}
use cpuminer.Queue.Entries.{IsQueue, IsRing-frame}

-- The heap after the first entry `x` is unlinked and freed.
abbrev pub popped_heap : Heap → Ptr → Ptr → List Ptr → Heap
popped_heap h q x xs = let g = rest_heap h q x xs in record g { alive = update g.alive x false }

pub popped-IsRing :
    {h : Heap} {q x : Ptr} {xs : List Ptr}
    → IsRing h q (x ∷ xs)
    → IsRing (popped_heap h q x xs) q xs
popped-IsRing {x} r =
    IsRing-frame x (list_del-IsRing r).1 (ground (arith, r.head_apart, r.distinct.0))
      (λ a ne. ground arith) (λ a ne. refl) (λ a ne. refl)

pop_entry_lem :
    (h : Heap) (q x : Ptr) (xs : List Ptr)
    → IsRing h q (x ∷ xs)
    → (pop_entry q h ≡ some (h.payload x, popped_heap h q x xs))
      × IsRing (popped_heap h q x xs) q xs
unfolding pop_entry get_next get_payload free
pop_entry_lem h q x xs r =
    let run = (list_del-IsRing r).0 in
    let first : h.next q ≡ x = r.linked.0 in
    (simp (r.head_alive, first, r.alive.0, run), popped-IsRing r)

list_empty-cons :
    (h : Heap) (q x : Ptr) (xs : List Ptr) → IsRing h q (x ∷ xs) → list_empty q h ≡ some (false, h)
unfolding list_empty get_next
list_empty-cons h q x xs r =
    let ne : (h.next q == q) ≡ false = ground (arith, r.linked.0, r.head_apart) in
    simp (r.head_alive, ne)

list_empty-nil : (h : Heap) (q : Ptr) → IsRing h q [] → list_empty q h ≡ some (true, h)
unfolding list_empty get_next
list_empty-nil h q r =
    let e : (h.next q == q) ≡ true = (==_iff (h.next q) q).1 r.closed in simp (r.head_alive, e)

-- What a queue becomes when its first pointer is taken.
pub record IsPopped (tq : ThreadQ) (d : Ptr) (ds : List Ptr) (result : Option (Ptr × ThreadQ))
    : Type 0 where
  pub after : ThreadQ
  pub returns : result ≡ some (d, after)
  pub rest : IsQueue after ds
  pub frozen : after.frozen ≡ tq.frozen

pop_or-cons :
    {tq : ThreadQ} {d : Ptr} {ds : List Ptr} (otherwise : Option (Ptr × ThreadQ))
    → IsQueue tq (d ∷ ds)
    → IsPopped tq d ds (pop_or tq otherwise)
unfolding pop_or
pop_or-cons {tq} {d} {ds} otherwise is = by_entries is.entries is.ring is.payloads
  where
    by_entries :
        (xs : List Ptr)
        → IsRing tq.heap tq.q xs
        → map tq.heap.payload xs ≡ d ∷ ds
        → IsPopped tq d ds (pop_or tq otherwise)
    by_entries [] r e = absurd (ground arith)
    by_entries (x ∷ xs) r e =
        let (run, ring) = pop_entry_lem tq.heap tq.q x xs r in
        record {
          after = record tq { heap = popped_heap tq.heap tq.q x xs };
          returns = ground (arith, list_empty-cons tq.heap tq.q x xs r, run);
          rest = record { entries = xs; ring = ring; payloads = ground arith };
          frozen = refl;
        }

pop_or-nil :
    {tq : ThreadQ} (otherwise : Option (Ptr × ThreadQ))
    → IsQueue tq []
    → pop_or tq otherwise ≡ otherwise
unfolding pop_or
pop_or-nil {tq} otherwise is = by_entries is.entries is.ring is.payloads
  where
    by_entries :
        (xs : List Ptr)
        → IsRing tq.heap tq.q xs
        → map tq.heap.payload xs ≡ []
        → pop_or tq otherwise ≡ otherwise
    by_entries [] r e = ground (arith, list_empty-nil tq.heap tq.q r)
    by_entries (x ∷ xs) r e = absurd (ground arith)

module _ (wait : ThreadQ → Bool × ThreadQ) where
  -- On a queue that holds pointers `tq_pop` does not wait: it returns the first one and leaves the
  -- others in their order, and freezes or thaws nothing.
  pub tq_pop-cons :
      {tq : ThreadQ} {d : Ptr} {ds : List Ptr}
      → IsQueue tq (d ∷ ds)
      → IsPopped tq d ds (tq_pop wait tq)
  unfolding tq_pop
  tq_pop-cons is = pop_or-cons _ is

  abbrev after_wait : ThreadQ → Option (Ptr × ThreadQ)
  after_wait tq = pop_or (wait tq).1 (some (null, (wait tq).1))

  tq_pop_woken :
      {tq : ThreadQ} → IsQueue tq [] → (wait tq).0 ≡ false → tq_pop wait tq ≡ after_wait tq
  unfolding tq_pop
  tq_pop_woken is woken = pop_or-nil _ is ∙ rw woken refl

  -- What `tq_pop` does after a wait that returned `rc`, on a queue that then holds `ds`.
  abbrev pub AfterWait : ThreadQ → Bool → List Ptr → Type 0
  AfterWait tq true ds = tq_pop wait tq ≡ some (null, (wait tq).1)
  AfterWait tq false [] = tq_pop wait tq ≡ some (null, (wait tq).1)
  AfterWait tq false (d ∷ rest) = IsPopped (wait tq).1 d rest (tq_pop wait tq)

  -- On an empty queue it waits once. It returns NULL, and takes nothing, when the wait fails, and
  -- also when the wait succeeds and the queue is empty still; otherwise it returns the first of the
  -- pointers that the other threads have pushed by then.
  pub tq_pop-nil :
      {tq : ThreadQ} {ds : List Ptr}
      → IsQueue tq []
      → IsQueue (wait tq).1 ds
      → AfterWait tq (wait tq).0 ds
  unfolding tq_pop
  tq_pop-nil {tq} {ds} is later = by_rc (wait tq).0 refl ds later
    where
      by_rc :
          (rc : Bool)
          → (wait tq).0 ≡ rc
          → (held : List Ptr) → IsQueue (wait tq).1 held
          → AfterWait tq rc held
      by_rc true failed held h = pop_or-nil _ is ∙ rw failed refl
      by_rc false woken [] h = tq_pop_woken is woken ∙ pop_or-nil _ h
      by_rc false woken (d ∷ rest) h =
          subst (IsPopped (wait tq).1 d rest) (sym (tq_pop_woken is woken)) (pop_or-cons _ h)
