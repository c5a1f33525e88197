-- ===== src/Work.antt =====
-- `struct work` of cpu-miner.c, and its decoding from a JSON-RPC answer. The JSON library is a
-- parameter: a type of values, and the two readers that the code calls.
pub mod Decode
pub mod Bytes
use Prim.Native.String.{String}
use cpuminer.Base.{
  ℕ, Bool, true, false, if◌then◌else◌, Option, none, some, List, [], ◌++◌, length, drop, replicate,
}
use cpuminer.Hex.{Decoded, hex2bin}

-- The buffers hold bytes.
pub record Work : Type 0 where
  pub data_bytes : List ℕ
  pub hash1 : List ℕ
  pub midstate : List ℕ
  pub target : List ℕ
  pub hash : List ℕ

-- `json_object_get` and `json_string_value`; `none` is NULL.
pub record Json : Type 1 where
  pub Value : Type 0
  pub object_get : Value → String → Option Value
  pub string_value : Value → Option (List ℕ)

-- A call that fills a buffer: what it returns, and the buffer after it.
pub record Filled : Type 0 where
  pub success : Bool
  pub buf : List ℕ

-- `hex2bin` stores from the start of the buffer and leaves the rest as it was.
abbrev pub fill : List ℕ → Decoded → Filled
fill buf r = record { success = r.success; buf = r.stored ++ drop (length r.stored) buf }

-- The rest of `jobj_binary` once the text is looked up.
pub fill_text : List ℕ → ℕ → Option (List ℕ) → Filled
fill_text buf buflen none = record { success = false; buf = buf }
fill_text buf buflen (some hexstr) = fill buf (hex2bin hexstr buflen)

module _ (json : Json) where
  pub fill_member : List ℕ → ℕ → Option json.Value → Filled
  fill_member buf buflen none = record { success = false; buf = buf }
  fill_member buf buflen (some tmp) = fill_text buf buflen (json.string_value tmp)

  pub jobj_binary : json.Value → String → List ℕ → ℕ → Filled
  jobj_binary obj key buf buflen = fill_member buf buflen (json.object_get obj key)

  -- What `work_decode` returns, and the work that it leaves.
  pub work_decode : json.Value → Work → Bool × Work
  work_decode val work =
      let m = jobj_binary val "midstate" work.midstate 32 in
      let work1 = record work { midstate = m.buf } in
      let d = jobj_binary val "data" work.data_bytes 128 in
      let work2 = record work1 { data_bytes = d.buf } in
      let h = jobj_binary val "hash1" work.hash1 64 in
      let work3 = record work2 { hash1 = h.buf } in
      let t = jobj_binary val "target" work.target 32 in
      let work4 = record work3 { target = t.buf } in
      if m.success
      then if d.success
        then if h.success
          then if t.success then (true, record work4 { hash = replicate 32 0 }) else (false, work4)
          else (false, work3)
        else (false, work2)
      else (false, work1)
