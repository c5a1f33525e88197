-- ===== src/Tests/Requests.antt =====
-- A server that answers the third request.
use Prim.Native.String.{String}
use cpuminer.Base.{
  ℕ, zero, suc, ◌+◌, ◌≤◌, ◌<◌, ◌≡◌, refl, if◌then◌else◌, true, false, inr, Option, none, some, List,
  replicate, length, arith,
}
use cpuminer.Base.Int.{pos}
use cpuminer.Hex.{hex_text, hex_digit, bin2hex}
use cpuminer.Hex.RoundTrip.{AreBytes}
use cpuminer.Options.{string_eq}
use cpuminer.Work.{Work, Json}
use cpuminer.Work.Decode.{AreSized, Encodes}
use cpuminer.Workio.{request, get_upstream_work, zero_work, workio_get_work}
use cpuminer.Workio.Retry.{succeeds}
use cpuminer.Workio.Request.{length-request, Answers, received, attempt, workio_get_work_lem}

-- An answer, its result, and the texts in it, each of as many zeros as its key asks for.
pub data Value : Type 0 where
  answer result : Value
  member : String → Value

abbrev pub sizes : String → ℕ
sizes key = if string_eq key "data" then 128 else if string_eq key "hash1" then 64 else 32

abbrev pub get : Value → String → Option Value
get answer key = some result
get result key = some (member key)
get (member key) other = none

abbrev pub string_of : Value → Option (List ℕ)
string_of answer = none
string_of result = none
string_of (member key) = bin2hex true (replicate (sizes key) 0)

abbrev pub server : Json
server = record { Value = Value; object_get = get; string_value = string_of }

abbrev pub calls : ℕ → Option Value
calls zero = none
calls (suc zero) = none
calls (suc (suc n)) = some answer

abbrev pub unit : Work
unit = zero_work server

zeros-AreBytes : (n : ℕ) → AreBytes (replicate n 0)
zeros-AreBytes zero = tt
zeros-AreBytes (suc n) = (omega arith, zeros-AreBytes n)

encodes : (key : String) → Encodes server result key (replicate (sizes key) 0)
encodes key = record {
  member = member key;
  found = refl;
  text = refl;
  are_bytes = zeros-AreBytes (sizes key);
}

unit-AreSized : AreSized unit
unit-AreSized = record {
  data_bytes = refl;
  hash1 = refl;
  midstate = refl;
  target = refl;
  hash = refl;
}

pub third_answer : Answers server calls (calls 2) unit
third_answer = record {
  answer = answer;
  answered = refl;
  result = result;
  found = refl;
  sized = unit-AreSized;
  midstate = encodes "midstate";
  data_bytes = encodes "data";
  hash1 = encodes "hash1";
  target = encodes "target";
}

pub first_fail : (j : ℕ) → j < 2 → succeeds (attempt server calls) j (zero_work server) ≡ false
unfolding get_upstream_work
first_fail zero h = refl
first_fail (suc zero) h = refl
first_fail (suc (suc j)) h = absurd (omega arith)

workio_get_work_lem_example :
    workio_get_work server 3 (pos 10) true true calls
    ≡ some (true, some (received server calls unit))
workio_get_work_lem_example =
    workio_get_work_lem server calls (pos 10) true 2 3 (omega arith) (inr (omega arith)) first_fail
      unit third_answer

abbrev unit_text : List ℕ
unit_text = replicate 256 b'0'

length-request_example : length (request unit_text) + 1 ≤ 345
unfolding bin2hex hex_text hex_digit
length-request_example = length-request unit unit_text unit-AreSized refl
