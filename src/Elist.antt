-- ===== src/Elist.antt =====
-- The doubly linked lists of elist.h on an explicit heap. A `struct list_head` is named by its address,
-- and so is the entry that it is embedded in (`list_entry`). The entry's `data` pointer is kept
-- beside the links.
pub mod Ring
pub mod Rules
pub mod AddTail
pub mod DelFirst
use cpuminer.Base.{ℕ, ◌==◌, if◌then◌else◌, Bool, true, false, not, Option, none, some}

abbrev pub Ptr : Type 0
Ptr = ℕ

abbrev pub null : Ptr
null = 0

pub record Heap : Type 0 where
  pub alive : Ptr → Bool
  pub next : Ptr → Ptr
  pub prev : Ptr → Ptr
  pub payload : Ptr → Ptr

-- `none` is a fault: an access through a pointer to no live object.
abbrev pub M : Type 0 → Type 0
M A = Heap → Option (A × Heap)

abbrev pub pure : {A : Type 0} → A → M A
pure a h = some (a, h)

abbrev pub and_then : {A B : Type 0} → Option (A × Heap) → (A → M B) → Option (B × Heap)
and_then none f = none
and_then (some (a, h)) f = f a h

infixl 5 ◌>>=◌ ◌>>◌
abbrev pub ◌>>=◌ : {A B : Type 0} → M A → (A → M B) → M B
◌>>=◌ m f h = and_then (m h) f

abbrev pub ◌>>◌ : {B : Type 0} → M (Unit {0}) → M B → M B
m >> k = m >>= λ _. k

abbrev pub update {ℓ} : {A : Type ℓ} → (Ptr → A) → Ptr → A → Ptr → A
update f p v q = if q == p then v else f q

unfoldable pub get_next : Ptr → M Ptr
get_next p h = if h.alive p then some (h.next p, h) else none

unfoldable pub get_prev : Ptr → M Ptr
get_prev p h = if h.alive p then some (h.prev p, h) else none

unfoldable pub set_next : Ptr → Ptr → M (Unit {0})
set_next p v h = if h.alive p then some (tt, record h { next = update h.next p v }) else none

unfoldable pub set_prev : Ptr → Ptr → M (Unit {0})
set_prev p v h = if h.alive p then some (tt, record h { prev = update h.prev p v }) else none

unfoldable pub init_list_head : Ptr → M (Unit {0})
init_list_head ptr = do set_next ptr ptr; set_prev ptr ptr

-- `__list_add`
unfoldable pub list_add_between : Ptr → Ptr → Ptr → M (Unit {0})
list_add_between new prev next = do
  set_prev next new
  set_next new next
  set_prev new prev
  set_next prev new

unfoldable pub list_add : Ptr → Ptr → M (Unit {0})
list_add new head = do next ← get_next head; list_add_between new head next

unfoldable pub list_add_tail : Ptr → Ptr → M (Unit {0})
list_add_tail new head = do prev ← get_prev head; list_add_between new prev head

-- `__list_del`
unfoldable pub list_del_between : Ptr → Ptr → M (Unit {0})
list_del_between prev next = do set_prev next prev; set_next prev next

unfoldable pub list_del : Ptr → M (Unit {0})
list_del entry = do
  prev ← get_prev entry
  next ← get_next entry
  list_del_between prev next
  set_next entry null
  set_prev entry null

unfoldable pub list_del_init : Ptr → M (Unit {0})
list_del_init entry = do
  prev ← get_prev entry
  next ← get_next entry
  list_del_between prev next
  init_list_head entry

unfoldable pub list_move : Ptr → Ptr → M (Unit {0})
list_move list head = do
  prev ← get_prev list
  next ← get_next list
  list_del_between prev next
  list_add list head

unfoldable pub list_move_tail : Ptr → Ptr → M (Unit {0})
list_move_tail list head = do
  prev ← get_prev list
  next ← get_next list
  list_del_between prev next
  list_add_tail list head

unfoldable pub list_empty : Ptr → M Bool
list_empty head = do next ← get_next head; pure (next == head)

-- `__list_splice`
unfoldable pub splice_after : Ptr → Ptr → M (Unit {0})
splice_after list head = do
  first ← get_next list
  last ← get_prev list
  at ← get_next head
  set_prev first head
  set_next head first
  set_next last at
  set_prev at last

unfoldable pub list_splice : Ptr → Ptr → M (Unit {0})
list_splice list head = do
  empty ← list_empty list
  if empty then pure tt else splice_after list head

unfoldable pub list_splice_init : Ptr → Ptr → M (Unit {0})
list_splice_init list head = do
  empty ← list_empty list
  if empty then pure tt else (do splice_after list head; init_list_head list)

unfoldable pub get_payload : Ptr → M Ptr
get_payload p h = if h.alive p then some (h.payload p, h) else none

unfoldable pub set_payload : Ptr → Ptr → M (Unit {0})
set_payload p v h =
    if h.alive p then some (tt, record h { payload = update h.payload p v }) else none

-- `calloc` of an object at the address that it returns.
unfoldable pub calloc : Ptr → M (Unit {0})
calloc p h = some (
  tt,
  record {
    alive = update h.alive p true;
    next = update h.next p null;
    prev = update h.prev p null;
    payload = update h.payload p null;
  },
)

unfoldable pub free : Ptr → M (Unit {0})
free p h = if h.alive p then some (tt, record h { alive = update h.alive p false }) else none
