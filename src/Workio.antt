-- ===== src/Workio.antt =====
-- The work thread of cpu-miner.c: the request and answer of `getwork`, and the two loops that repeat
-- a call until it succeeds or `opt_retries` is passed. The JSON-RPC call is a parameter: its answer
-- at each attempt, where `none` is NULL.
pub mod Retry
pub mod Request
pub mod Fresh
use Prim.Native.String.{String}
use cpuminer.Base.{
  ℕ, zero, suc, ◌+◌, ◌≤◌, ltb, if◌then◌else◌, Bool, true, false, ◌&&◌, Option, none, some, List, [],
  ◌∷◌, ◌++◌, replicate,
}
use cpuminer.Base.Int.{ℤ, pos, ltb_ℤ}
use cpuminer.Hex.{bin2hex}
use cpuminer.Work.{Work, Json, work_decode}

-- How a loop ends, and after how many attempts.
pub data Ended (A : Type 0) : Type 0 where
  finished : ℕ → A → Ended A
  gave_up : ℕ → Ended A
  out_of_fuel : Ended A

-- `(opt_retries >= 0) && (++failures > opt_retries)`: whether it holds, and `failures` after it.
unfoldable pub exhausted : ℤ → ℕ → Bool × ℕ
exhausted opt_retries failures =
    if ltb_ℤ opt_retries (pos 0)
    then (false, failures)
    else (ltb_ℤ opt_retries (pos (failures + 1)), failures + 1)

-- The loop from attempt `i` on, with the state that the attempts change.
unfoldable pub retry_loop : {A : Type 0} → ℤ → (ℕ → A → Bool × A) → ℕ → ℕ → ℕ → A → Ended A
retry_loop opt_retries attempt zero i failures a = out_of_fuel
retry_loop opt_retries attempt (suc fuel) i failures a =
    let a' = (attempt i a).1 in
    let test = exhausted opt_retries failures in
    let again = retry_loop opt_retries attempt fuel (suc i) test.1 a' in
    if (attempt i a).0 then finished (suc i) a' else if test.0 then gave_up (suc i) else again

-- The `sprintf` of `submit_upstream_work`, into a buffer of 345 bytes.
abbrev pub request_head : List ℕ
request_head =
    b'{' ∷ b'"' ∷ b'm' ∷ b'e' ∷ b't' ∷ b'h' ∷ b'o' ∷ b'd' ∷ b'"' ∷ b':' ∷ b' ' ∷ b'"' ∷ b'g' ∷ b'e'
    ∷ b't' ∷ b'w' ∷ b'o' ∷ b'r' ∷ b'k' ∷ b'"' ∷ b',' ∷ b' ' ∷ b'"' ∷ b'p' ∷ b'a' ∷ b'r' ∷ b'a'
    ∷ b'm' ∷ b's' ∷ b'"' ∷ b':' ∷ b' ' ∷ b'[' ∷ b' ' ∷ b'"' ∷ []

abbrev pub request_tail : List ℕ
request_tail =
    b'"' ∷ b' ' ∷ b']' ∷ b',' ∷ b' ' ∷ b'"' ∷ b'i' ∷ b'd' ∷ b'"' ∷ b':' ∷ b'1' ∷ b'}' ∷ 13 ∷ 10 ∷ []

unfoldable pub request : List ℕ → List ℕ
request hexstr = request_head ++ hexstr ++ request_tail

module _ (json : Json) where
  -- Whether `submit_upstream_work` succeeds, by the text that `bin2hex` gives it.
  unfoldable pub submit_text : (List ℕ → Option json.Value) → Option (List ℕ) → Bool
  submit_text rpc none = false
  submit_text rpc (some hexstr) = elim (rpc (request hexstr)) [ none ↦ false | some val ↦ true ]

  unfoldable pub submit_upstream_work : Bool → (List ℕ → Option json.Value) → Work → Bool
  submit_upstream_work malloc_ok rpc work = submit_text rpc (bin2hex malloc_ok work.data_bytes)

  -- `work_decode` of a member that may be NULL: reading from NULL gives NULL, so that the first
  -- buffer is not found.
  unfoldable pub decode_result : Option json.Value → Work → Bool × Work
  decode_result none work = (false, work)
  decode_result (some val) work = work_decode json val work

  unfoldable pub get_upstream_work : Option json.Value → Work → Bool × Work
  get_upstream_work none work = (false, work)
  get_upstream_work (some val) work = decode_result (json.object_get val "result") work

  abbrev pub zero_work : Work
  zero_work = record {
    data_bytes = replicate 128 0;
    hash1 = replicate 64 0;
    midstate = replicate 32 0;
    target = replicate 32 0;
    hash = replicate 32 0;
  }

  -- What `workio_get_work` returns and what it sends to the thread that asked; `pushed` is what
  -- `tq_push` returns.
  unfoldable pub sent : Bool → Ended Work → Option (Bool × Option Work)
  sent pushed (finished n work) = some (true, if pushed then some work else none)
  sent pushed (gave_up n) = some (false, none)
  sent pushed out_of_fuel = none

  unfoldable pub workio_get_work :
      ℕ → ℤ → (calloc_ok pushed : Bool) → (ℕ → Option json.Value) → Option (Bool × Option Work)
  workio_get_work fuel opt_retries calloc_ok pushed rpc =
      if calloc_ok
      then sent pushed (retry_loop opt_retries (λ i. get_upstream_work (rpc i)) fuel 0 0 zero_work)
      else some (false, none)

  unfoldable pub submitted : Ended (Unit {0}) → Option Bool
  submitted (finished n u) = some true
  submitted (gave_up n) = some false
  submitted out_of_fuel = none

  unfoldable pub workio_submit_work :
      ℕ → ℤ → (malloc_ok : ℕ → Bool) → (ℕ → List ℕ → Option json.Value) → Work → Option Bool
  workio_submit_work fuel opt_retries malloc_ok rpc work = submitted (
      retry_loop opt_retries (λ i u. (submit_upstream_work (malloc_ok i) (rpc i) work, tt)) fuel 0 0
        tt)
