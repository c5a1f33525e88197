-- ===== src/Tests/Calls.antt =====
-- A server whose header announces long polling.
use Prim.Native.String.{String}
use cpuminer.Base.{
  ◌≡◌, refl, true, false, if◌then◌else◌, Option, none, some, List, ℕ, [], ◌∷◌, ◌++◌,
}
use cpuminer.Options.{string_eq}
use cpuminer.Net.{
  x_long_polling, resp_hdr_cb, split_colon, skip_spaces, c_string, cut_spaces, case_eq,
  store_header, header_parts,
}
use cpuminer.Hex.{isspace}
use cpuminer.Rpc.{
  Setup, Transfer, Globals, Loaded, loaded, crashed, JsonReader, returned, fault, json_rpc_call,
  header_path, activate, with_answer, valid_response, lacks_result, has_error, body, collect,
}
use cpuminer.Rpc.Activation.{IsCall, transfer_of, json_rpc_call_lem}

data Value : Type 0 where
  answer result : Value

abbrev member : Value → String → Option Value
member answer key = if string_eq key "result" then some result else none
member result key = none

-- As the bundled library does, on NULL.
abbrev load : Option (List ℕ) → Loaded Value
load none = crashed
load (some text) = loaded answer

abbrev reader : JsonReader
reader = record { Value = Value; loads = load; object_get = member; is_null = λ v. false }

abbrev server : Setup → Transfer
server setup = record {
  header_lines = (true, x_long_polling ++ b':' ∷ b'/' ∷ b'L' ∷ []) ∷ [];
  chunks = (true, b'{' ∷ b'}' ∷ []) ∷ [];
  success = true;
}

abbrev inactive : Globals
inactive = record { want_longpoll = true; have_longpoll = false; opt_scantime = 5; pushed = [] }

json_rpc_call_lem_example :
    IsCall reader true inactive
      (transfer_of reader server [] none [] true false inactive)
      (json_rpc_call reader server [] none [] true false inactive)
json_rpc_call_lem_example = json_rpc_call_lem reader server [] none [] true false inactive refl

-- That call activates it.
activated :
    json_rpc_call reader server [] none [] true false inactive
    ≡ returned (some answer) (record {
      want_longpoll = true;
      have_longpoll = true;
      opt_scantime = 60;
      pushed = (b'/' ∷ b'L' ∷ []) ∷ [];
    })
unfolding json_rpc_call with_answer valid_response lacks_result has_error body collect header_path
    activate resp_hdr_cb split_colon skip_spaces c_string cut_spaces case_eq store_header
    header_parts isspace
activated = refl

-- A successful transfer without a body.
empty_body :
    json_rpc_call reader
      (λ setup. record (server setup) { chunks = [] })
      []
      none
      []
      true
      false
      inactive
    ≡ fault
unfolding json_rpc_call with_answer body
empty_body = refl
