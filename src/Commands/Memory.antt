-- ===== src/Commands/Memory.antt =====
-- Every path of the two calls frees what it does not hand over.
use cpuminer.Base.{
  ◌==◌, ◌≡◌, ◌≢◌, if◌then◌else◌, Bool, true, false, not, ◌&&◌, ◌||◌, ◌⊎◌, some, arith, Bool-cases,
  inl, inr,
}
use native.Mathlib.Decide.{ℕ_discrete}
use cpuminer.Elist.{Ptr, null, update}
use cpuminer.Work.{Work}
use cpuminer.Commands.{Memory, release, workio_cmd_free, submit_work, get_work}

-- `m'` is `m` with exactly the addresses `p` and `q` in use as well, if `both` holds.
abbrev pub Grown : Bool → Ptr → Ptr → Memory → Memory → Type 0
Grown both p q m m' = (a : Ptr) → m' a ≡ (if both && (a == p || a == q) then true else m a)

-- `submit_work` returns true exactly when there is memory for the message and its copy of the work
-- unit and the queue takes the message. Then the two are in use, for the work thread to free; on
-- every other path it leaves exactly the memory in use that was. It never faults. The addresses that
-- the allocations return are not in use, and differ.
pub submit_work_lem :
    (wc copy : Ptr) (pushed : Bool) (m : Memory)
    → m wc ≡ false
    → m copy ≡ false
    → (wc ≢ copy) ⊎ (wc ≡ null)
    → (m' : Memory) × (submit_work wc copy pushed m
        ≡ some (not (wc == null) && (not (copy == null) && pushed), m'))
      × Grown (not (wc == null) && (not (copy == null) && pushed)) wc copy m m'
unfolding submit_work workio_cmd_free release
submit_work_lem wc copy pushed m dead dead' apart = elim (ℕ_discrete wc null) [
  | yes no_wc ↦ (m, ground arith, λ a. ground arith)
  | no some_wc ↦ elim (ℕ_discrete copy null) [
    | yes no_copy ↦ (update (update m wc true) wc false, ground arith, λ a. ground arith)
    | no some_copy ↦ elim (Bool-cases pushed) [
      | inl taken ↦ (update (update m wc true) copy true, ground arith, λ a. ground arith)
      | inr refused ↦ (
        update (update (update (update m wc true) copy true) copy false) wc false,
        ground arith,
        λ a. ground arith,
      )
    ]
  ]
]

-- What `get_work` leaves in use: the message while the work thread has it, and not the reply.
abbrev pub AfterGet : Bool → Ptr → Ptr → Memory → Memory → Type 0
AfterGet pushed wc reply m m' =
    (a : Ptr)
    → m' a ≡ (
        if (pushed && not (wc == null)) && (not (reply == null) && a == reply)
        then false
        else if (pushed && not (wc == null)) && a == wc
        then true
        else m a)

-- `get_work` returns true exactly when there is memory for the message, the queue takes it and a reply
-- comes; then it has copied the work unit of the reply and freed the reply. The message is in use, for
-- the work thread to free, exactly when the queue has taken it; nothing else changes, and it never
-- faults. The address of the message is not in use, and the reply is another one, in use if not NULL.
pub get_work_lem :
    (wc : Ptr) (pushed : Bool) (reply : Ptr) (contents work : Work) (m : Memory)
    → m wc ≡ false
    → reply ≢ wc
    → (reply ≡ null) ⊎ (m reply ≡ true)
    → (m' : Memory) × (get_work wc pushed reply contents work m
        ≡ some (
          (if not (wc == null) && (pushed && not (reply == null))
              then (true, contents)
              else (false, work)),
          m',
        ))
      × AfterGet pushed wc reply m m'
unfolding get_work workio_cmd_free release
get_work_lem wc pushed reply contents work m dead apart live = elim (ℕ_discrete wc null) [
  | yes no_wc ↦ (m, ground arith, λ a. ground arith)
  | no some_wc ↦ elim (Bool-cases pushed) [
    | inr refused ↦ (update (update m wc true) wc false, ground arith, λ a. ground arith)
    | inl taken ↦ elim (ℕ_discrete reply null) [
      | yes no_reply ↦ (update m wc true, ground arith, λ a. ground arith)
      | no some_reply ↦ (update (update m wc true) reply false, ground arith, λ a. ground arith)
    ]
  ]
]
