-- ===== src/Queue/Fifo.antt =====
-- A thread queue refines a first-in first-out queue of pointers with a flag.
use cpuminer.Base.{
  ◌≡◌, ◌≢◌, refl, sym, ◌∙◌, ap, Bool, true, false, not, Option, some, List, [], ◌∷◌, ◌++◌,
  if◌then◌else◌,
}
use mathlib.Core.Path.{subst, ap₂}
use cpuminer.Elist.{Ptr, null}
use cpuminer.Queue.{ThreadQ, tq_push, tq_pop, tq_freeze, tq_thaw}
use cpuminer.Queue.Entries.{IsQueue}
use cpuminer.Queue.Push.{tq_push_lem}
use cpuminer.Queue.Pop.{tq_pop-cons, tq_pop-nil}

pub data Call : Type 0 where
  push : Ptr → Call
  pop freeze thaw : Call

-- What a call returns.
pub data Answer : Type 0 where
  accepted : Bool → Answer
  taken : Ptr → Answer
  nothing : Answer

-- The contract: items in the order of their arrival, and whether new ones are refused.
pub record Fifo (A : Type 0) : Type 0 where
  pub items : List A
  pub frozen : Bool

-- `tq_push` and `tq_freeze`, as the contract has them.
abbrev pub enqueue : {A : Type 0} → A → Fifo A → Fifo A
enqueue d s = record s { items = if s.frozen then s.items else s.items ++ d ∷ [] }

abbrev pub freeze_queue : {A : Type 0} → Fifo A → Fifo A
freeze_queue s = record s { frozen = true }

abbrev pub head_or_null : List Ptr → Ptr
head_or_null [] = null
head_or_null (d ∷ ds) = d

abbrev pub rest_of : List Ptr → List Ptr
rest_of [] = []
rest_of (d ∷ ds) = ds

abbrev pub answer : Call → Fifo Ptr → Answer
answer (push d) s = accepted (not s.frozen)
answer pop s = taken (head_or_null s.items)
answer freeze s = nothing
answer thaw s = nothing

abbrev pub after : Call → Fifo Ptr → Fifo Ptr
after (push d) s = enqueue d s
after pop s = record s { items = rest_of s.items }
after freeze s = freeze_queue s
after thaw s = record s { frozen = false }

abbrev pub answers : List Call → Fifo Ptr → List Answer
answers [] s = []
answers (c ∷ cs) s = answer c s ∷ answers cs (after c s)

abbrev pub final : List Call → Fifo Ptr → Fifo Ptr
final [] s = s
final (c ∷ cs) s = final cs (after c s)

abbrev pub timed_out : ThreadQ → Bool × ThreadQ
timed_out tq = (true, tq)

-- One call of the code. A push has memory that is not in use; a pop on an empty queue times out.
pub data Step (tq tq' : ThreadQ) : Call → Answer → Type 0 where
  pushed :
      {d : Ptr} {done : Bool} (ent : Ptr)
      → ent ≢ null
      → tq.heap.alive ent ≡ false
      → tq_push ent tq d ≡ some (done, tq')
      → Step tq tq' (push d) (accepted done)
  popped : {d : Ptr} → tq_pop timed_out tq ≡ some (d, tq') → Step tq tq' pop (taken d)
  froze : tq' ≡ tq_freeze tq → Step tq tq' freeze nothing
  thawed : tq' ≡ tq_thaw tq → Step tq tq' thaw nothing

pub data Run : ThreadQ → List Call → List Answer → ThreadQ → Type 0 where
  here : {tq : ThreadQ} → Run tq [] [] tq
  next :
      {tq tq' tq'' : ThreadQ} {c : Call} {a : Answer} {cs : List Call} {as' : List Answer}
      → Step tq tq' c a
      → Run tq' cs as' tq''
      → Run tq (c ∷ cs) (a ∷ as') tq''

pub record Refines (tq : ThreadQ) (s : Fifo Ptr) : Type 0 where
  pub holds : IsQueue tq s.items
  pub frozen : tq.frozen ≡ s.frozen

pair_injective :
    {A : Type 0} {a b : A} {t u : ThreadQ}
    → ◌≡◌ {A = Option (A × ThreadQ)} (some (a, t)) (some (b, u))
    → (a ≡ b) × (t ≡ u)
pair_injective e = (cc, cc)

pop-Refines :
    (tq tq' : ThreadQ) (d : Ptr) (ds : List Ptr)
    → IsQueue tq ds
    → tq_pop timed_out tq ≡ some (d, tq')
    → (d ≡ head_or_null ds) × IsQueue tq' (rest_of ds) × (tq'.frozen ≡ tq.frozen)
pop-Refines tq tq' d [] is e =
    let (same, left) = pair_injective (sym e ∙ tq_pop-nil timed_out is is) in
    (same, subst (λ t. IsQueue t []) (sym left) is, ap (λ (t : ThreadQ). t.frozen) left)
pop-Refines tq tq' d (x ∷ ds) is e =
    let p = tq_pop-cons timed_out is in
    let (same, left) = pair_injective (sym e ∙ p.returns) in
    (
      same,
      subst (λ t. IsQueue t ds) (sym left) p.rest,
      ap (λ (t : ThreadQ). t.frozen) left ∙ p.frozen,
    )

-- The flag is no part of the list.
flagged :
    (tq : ThreadQ) (b : Bool) {ds : List Ptr}
    → IsQueue tq ds
    → IsQueue (record tq { frozen = b }) ds
flagged tq b is = record { entries = is.entries; ring = is.ring; payloads = is.payloads }

Step-Refines :
    {tq tq' : ThreadQ} {c : Call} {a : Answer} {s : Fifo Ptr}
    → Step tq tq' c a
    → Refines tq s
    → (a ≡ answer c s) × Refines tq' (after c s)
unfolding tq_freeze tq_thaw
Step-Refines {tq} {tq'} {s} (pushed {d} ent ne dead e) r =
    let (t, run, is, flag, _) = tq_push_lem r.holds ent d dead ne in
    let (same, left) = pair_injective (sym e ∙ run) in
    (
      ap accepted (same ∙ ap not r.frozen),
      record {
        holds =
            subst (λ t. IsQueue t (if s.frozen then s.items else s.items ++ d ∷ [])) (sym left)
              (subst (λ b. IsQueue t (if b then s.items else s.items ++ d ∷ [])) r.frozen is);
        frozen = ap (λ (t : ThreadQ). t.frozen) left ∙ flag ∙ r.frozen;
      },
    )
Step-Refines {tq} {tq'} {s} (popped {d} e) r =
    let (same, is, flag) = pop-Refines tq tq' d s.items r.holds e in
    (ap taken same, record { holds = is; frozen = flag ∙ r.frozen })
Step-Refines {tq} {tq'} {s} (froze e) r = (
  refl,
  subst (λ t. Refines t (record s { frozen = true })) (sym e)
      (record { holds = flagged tq true r.holds; frozen = refl }),
)
Step-Refines {tq} {tq'} {s} (thawed e) r = (
  refl,
  subst (λ t. Refines t (record s { frozen = false })) (sym e)
      (record { holds = flagged tq false r.holds; frozen = refl }),
)

-- Every run of calls on a queue behaves as on the first-in first-out queue: each call returns what
-- the contract says, and the queue ends with the contract's items and flag. A push has unused
-- memory, and a pop that finds nothing times out.
pub Run-Refines :
    {tq tq' : ThreadQ} {cs : List Call} {as' : List Answer} {s : Fifo Ptr}
    → Run tq cs as' tq'
    → Refines tq s
    → (as' ≡ answers cs s) × Refines tq' (final cs s)
Run-Refines here r = (refl, r)
Run-Refines {s} (next {c} {cs} st run) r =
    let (same, r') = Step-Refines st r in
    let (rest, done) = Run-Refines run r' in (ap₂ ◌∷◌ same rest, done)
