-- ===== src/Elist/Rules.antt =====
-- What the primitive list operations do to the heap, on live pointers.
use cpuminer.Base.{◌≡◌, refl, true, some}
use cpuminer.Elist.{
  Ptr, null, Heap, update, get_next, get_prev, set_next, set_prev, list_add_between, list_add,
  list_add_tail, list_del_between, list_del,
}

-- The links after `new` is put between `prev` and `next`.
abbrev pub added : Heap → Ptr → Ptr → Ptr → Heap
added h new prev next = record h {
  next = update (update h.next new next) prev new;
  prev = update (update h.prev next new) new prev;
}

-- The links after `entry`, between `prev` and `next`, is taken out.
abbrev pub deleted : Heap → Ptr → Ptr → Ptr → Heap
deleted h entry prev next = record h {
  next = update (update h.next prev next) entry null;
  prev = update (update h.prev next prev) entry null;
}

module _ (h : Heap) where
  pub list_add_between-added :
      (new prev next : Ptr)
      → h.alive new ≡ true
      → h.alive prev ≡ true
      → h.alive next ≡ true
      → list_add_between new prev next h ≡ some (tt, added h new prev next)
  unfolding list_add_between set_prev set_next
  list_add_between-added new prev next a b c = simp (a, b, c)

  pub list_add_tail-added :
      (new head : Ptr)
      → h.alive new ≡ true
      → h.alive head ≡ true
      → h.alive (h.prev head) ≡ true
      → list_add_tail new head h ≡ some (tt, added h new (h.prev head) head)
  unfolding list_add_tail get_prev
  list_add_tail-added new head a b c =
      rw (b, list_add_between-added new (h.prev head) head a c b) refl

  pub list_add-added :
      (new head : Ptr)
      → h.alive new ≡ true
      → h.alive head ≡ true
      → h.alive (h.next head) ≡ true
      → list_add new head h ≡ some (tt, added h new head (h.next head))
  unfolding list_add get_next
  list_add-added new head a b c = rw (b, list_add_between-added new head (h.next head) a b c) refl

  pub list_del-deleted :
      (entry : Ptr)
      → h.alive entry ≡ true
      → h.alive (h.prev entry) ≡ true
      → h.alive (h.next entry) ≡ true
      → list_del entry h ≡ some (tt, deleted h entry (h.prev entry) (h.next entry))
  unfolding list_del get_prev get_next list_del_between set_prev set_next
  list_del-deleted entry a b c = simp (a, b, c)
