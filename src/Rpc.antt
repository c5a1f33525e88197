-- ===== src/Rpc.antt =====
-- `json_rpc_call` of util.c. A parameter stands for libcurl: for the options that are set it gives the
-- header lines and the chunks that the callbacks get, and whether the transfer succeeds. So does one
-- for the JSON library.
pub mod Activation
use Prim.Native.String.{String}
use cpuminer.Base.{
  ℕ, zero, suc, ◌+◌, ◌*◌, if◌then◌else◌, Bool, true, false, ◌&&◌, ◌||◌, not, Option, none, some,
  List, [], ◌∷◌, ◌++◌,
}
use cpuminer.Net.{all_data_cb, resp_hdr_cb}

-- What the call sets of libcurl's options: those that differ between calls.
pub record Setup : Type 0 where
  pub url : List ℕ
  pub timeout : ℕ
  pub header_function : Bool
  pub userpass : Option (List ℕ)
  pub upload : List ℕ

-- What the transfer does; a callback comes with whether its allocation succeeds.
pub record Transfer : Type 0 where
  pub header_lines : List (Bool × List ℕ)
  pub chunks : List (Bool × List ℕ)
  pub success : Bool

-- The globals that the call changes, and the paths that it has given to `tq_push` for the long-polling
-- thread.
pub record Globals : Type 0 where
  pub want_longpoll : Bool
  pub have_longpoll : Bool
  pub opt_scantime : ℕ
  pub pushed : List (List ℕ)

-- What `json_loads` comes to; the bundled library reads through its argument, also where that is NULL.
pub data Loaded (Value : Type 0) : Type 0 where
  loaded : Value → Loaded Value
  rejected crashed : Loaded Value

-- `loads none` is the call on NULL.
pub record JsonReader : Type 1 where
  pub Value : Type 0
  pub loads : Option (List ℕ) → Loaded Value
  pub object_get : Value → String → Option Value
  pub is_null : Value → Bool

unfoldable pub header_path : List (Bool × List ℕ) → Option (List ℕ) → Option (List ℕ)
header_path [] lp_path = lp_path
header_path (line ∷ lines) lp_path = header_path lines (resp_hdr_cb line.0 line.1 lp_path).1

-- `all_data.buf` after a chunk; it is NULL until memory for one is found.
unfoldable pub collect : Bool × List ℕ → Option (List ℕ) → Option (List ℕ)
collect chunk none = if chunk.0 then some (all_data_cb true chunk.1 []).1 else none
collect chunk (some all_data) = some (all_data_cb chunk.0 chunk.1 all_data).1

unfoldable pub body : List (Bool × List ℕ) → Option (List ℕ) → Option (List ℕ)
body [] buf = buf
body (chunk ∷ chunks) buf = body chunks (collect chunk buf)

-- "If X-Long-Polling was found, activate long polling".
unfoldable pub activate : Option (List ℕ) → Globals → Globals
activate none g = g
activate (some lp_path) g = record g {
  have_longpoll = true;
  opt_scantime = 60;
  pushed = g.pushed ++ lp_path ∷ [];
}

-- What the call returns and leaves in the globals, or a read through NULL.
pub data Call (Value : Type 0) : Type 0 where
  returned : Option Value → Globals → Call Value
  fault : Call Value

module _ (json : JsonReader) (perform : Setup → Transfer) where
  -- No result, or a null one.
  unfoldable pub lacks_result : Option json.Value → Bool
  lacks_result none = true
  lacks_result (some res_val) = json.is_null res_val

  unfoldable pub has_error : Option json.Value → Bool
  has_error none = false
  has_error (some err_val) = not (json.is_null err_val)

  -- The checks of the answer.
  unfoldable pub valid_response : json.Value → Option json.Value
  valid_response val =
      if lacks_result (json.object_get val "result") || has_error (json.object_get val "error")
      then none
      else some val

  unfoldable pub with_answer : Globals → Loaded json.Value → Call json.Value
  with_answer g (loaded val) = returned (valid_response val) g
  with_answer g rejected = returned none g
  with_answer g crashed = fault

  unfoldable pub json_rpc_call :
      List ℕ
      → Option (List ℕ)
      → List ℕ
      → (longpoll_scan longpoll : Bool) → Globals
      → Call json.Value
  json_rpc_call url userpass rpc_req longpoll_scan longpoll g =
      let lp_scanning = longpoll_scan && (g.want_longpoll && not g.have_longpoll) in
      let x = perform (record {
        url = url;
        timeout = if longpoll then 60 * 60 else 60 * 10;
        header_function = lp_scanning;
        userpass = userpass;
        upload = rpc_req;
      }) in
      let lp_path = if lp_scanning then header_path x.header_lines none else none in
      if x.success
      then with_answer (activate lp_path g) (json.loads (body x.chunks none))
      else returned none g
