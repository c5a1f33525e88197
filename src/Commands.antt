-- ===== src/Commands.antt =====
-- The messages from the mining threads to the work thread of cpu-miner.c, with the memory that they own:
-- which addresses are in use. What `calloc`, `malloc`, `tq_push` and `tq_pop` return is an argument.
pub mod Memory
use cpuminer.Base.{ℕ, ◌==◌, if◌then◌else◌, Bool, true, false, Option, none, some}
use cpuminer.Elist.{Ptr, null, update}
use cpuminer.Work.{Work}

abbrev pub Memory : Type 0
Memory = Ptr → Bool

-- `free`, which does nothing to NULL; `none` is a fault.
unfoldable pub release : Ptr → Memory → Option Memory
release p m = if p == null then some m else if m p then some (update m p false) else none

-- `struct workio_cmd` at its address, with the union where the command has one.
pub data WorkioCmd : Type 0 where
  wc_get_work : WorkioCmd
  wc_submit_work : Ptr → WorkioCmd

abbrev pub then_release : Ptr → Option Memory → Option Memory
then_release p none = none
then_release p (some m) = release p m

unfoldable pub workio_cmd_free : Ptr → WorkioCmd → Memory → Option Memory
workio_cmd_free wc wc_get_work m = if wc == null then some m else release wc m
workio_cmd_free wc (wc_submit_work work) m =
    if wc == null then some m else then_release wc (release work m)

-- A result with the memory after it.
abbrev pub answer : {A : Type 0} → A → Option Memory → Option (A × Memory)
answer a none = none
answer a (some m) = some (a, m)

-- `wc` is what `calloc` returns, and `copy` what `malloc` does. `calloc` has set the command to the
-- first one, which is what `workio_cmd_free` reads when there is no memory for the copy.
unfoldable pub submit_work : (wc copy : Ptr) → (pushed : Bool) → Memory → Option (Bool × Memory)
submit_work wc copy pushed m =
    let m1 = update m wc true in
    let m2 = update m1 copy true in
    if wc == null
    then some (false, m)
    else if copy == null
    then answer false (workio_cmd_free wc wc_get_work m1)
    else if pushed
    then some (true, m2)
    else answer false (workio_cmd_free wc (wc_submit_work copy) m2)

-- `reply` is what `tq_pop` returns, and `contents` the work unit at that address.
unfoldable pub get_work :
    (wc : Ptr)
    → (pushed : Bool) → (reply : Ptr) → (contents : Work) → Work
    → Memory
    → Option ((Bool × Work) × Memory)
get_work wc pushed reply contents work m =
    let m1 = update m wc true in
    if wc == null
    then some ((false, work), m)
    else if pushed
    then if reply == null
      then some ((false, work), m1)
      else answer (true, contents) (release reply m1)
    else answer (false, work) (workio_cmd_free wc wc_get_work m1)
