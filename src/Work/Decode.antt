-- ===== src/Work/Decode.antt =====
-- Decoding a work unit that a server has encoded.
use Prim.Native.String.{String}
use cpuminer.Base.{
  ℕ, suc, ◌≤◌, ◌≡◌, refl, sym, ap, ◌∙◌, true, Option, none, some, List, [], ◌∷◌, ◌++◌, length, drop,
  replicate, arith,
}
use cpuminer.Hex.{bin2hex, hex_text, hex2bin}
use cpuminer.Hex.RoundTrip.{AreBytes, hex2bin-bin2hex}
use cpuminer.Hex.Accepts.{hex2bin-length}
use cpuminer.Work.{Work, Json, fill_text, fill_member, jobj_binary, work_decode}

pub record AreSized (w : Work) : Type 0 where
  pub data_bytes : length w.data_bytes ≡ 128
  pub hash1 : length w.hash1 ≡ 64
  pub midstate : length w.midstate ≡ 32
  pub target : length w.target ≡ 32
  pub hash : length w.hash ≡ 32

length-fill :
    (buf xs : List ℕ) → length xs ≤ length buf → length (xs ++ drop (length xs) buf) ≡ length buf
length-fill buf [] h = refl
length-fill [] (x ∷ xs) h = absurd (omega arith)
length-fill (y ∷ buf) (x ∷ xs) h = ap suc (length-fill buf xs (omega arith))

fill_whole : (buf xs : List ℕ) → length xs ≡ length buf → xs ++ drop (length xs) buf ≡ xs
fill_whole [] [] h = refl
fill_whole (y ∷ buf) [] h = absurd (omega arith)
fill_whole [] (x ∷ xs) h = absurd (omega arith)
fill_whole (y ∷ buf) (x ∷ xs) h = ap (λ l. x ∷ l) (fill_whole buf xs (omega arith))

length-fill_text :
    (buf : List ℕ) (buflen : ℕ) (text : Option (List ℕ))
    → length buf ≡ buflen
    → length (fill_text buf buflen text).buf ≡ buflen
unfolding fill_text
length-fill_text buf buflen none e = e
length-fill_text buf buflen (some hexstr) e =
    length-fill buf (hex2bin hexstr buflen).stored (omega (arith, hex2bin-length hexstr buflen)) ∙ e

module _ (json : Json) where
  length-fill_member :
      (buf : List ℕ) (buflen : ℕ) (member : Option json.Value)
      → length buf ≡ buflen
      → length (fill_member json buf buflen member).buf ≡ buflen
  unfolding fill_member
  length-fill_member buf buflen none e = e
  length-fill_member buf buflen (some tmp) e = length-fill_text buf buflen (json.string_value tmp) e

module _ (json : Json) (val : json.Value) where
  length-jobj_binary :
      (key : String) (buf : List ℕ) (buflen : ℕ)
      → length buf ≡ buflen
      → length (jobj_binary json val key buf buflen).buf ≡ buflen
  unfolding jobj_binary
  length-jobj_binary key buf buflen e =
      length-fill_member json buf buflen (json.object_get val key) e

  -- The object has at `key` the hexadecimal text of `bytes`.
  pub record Encodes (key : String) (bytes : List ℕ) : Type 0 where
    pub member : json.Value
    pub found : json.object_get val key ≡ some member
    pub text : json.string_value member ≡ bin2hex true bytes
    pub are_bytes : AreBytes bytes

  jobj_binary-Encodes :
      (key : String) (bytes buf : List ℕ) (buflen : ℕ)
      → Encodes key bytes
      → length bytes ≡ buflen
      → length buf ≡ buflen
      → jobj_binary json val key buf buflen ≡ record { success = true; buf = bytes }
  unfolding jobj_binary fill_member fill_text bin2hex
  jobj_binary-Encodes key bytes buf buflen enc e e' =
      rw
        (
          enc.found,
          enc.text,
          ← e,
          hex2bin-bin2hex bytes (hex_text bytes) enc.are_bytes refl,
          fill_whole buf bytes (e ∙ sym e'),
        )
        refl

  -- Decoding keeps every buffer of the work unit at its size, whatever the answer holds and on
  -- every error path.
  pub work_decode-AreSized : (w : Work) → AreSized w → AreSized (work_decode json val w).1
  unfolding work_decode
  work_decode-AreSized w v = ground (
    arith,
    length-jobj_binary "midstate" w.midstate 32 v.midstate,
    length-jobj_binary "data" w.data_bytes 128 v.data_bytes,
    length-jobj_binary "hash1" w.hash1 64 v.hash1,
    length-jobj_binary "target" w.target 32 v.target,
  )

  -- A work unit that was encoded in hexadecimal is decoded to itself, with its result hash cleared,
  -- whatever the receiving unit held.
  pub work_decode-Encodes :
      (sent w : Work)
      → AreSized sent
      → AreSized w
      → Encodes "midstate" sent.midstate
      → Encodes "data" sent.data_bytes
      → Encodes "hash1" sent.hash1
      → Encodes "target" sent.target
      → work_decode json val w ≡ (true, record sent { hash = replicate 32 0 })
  unfolding work_decode
  work_decode-Encodes sent w s v m d h t =
      rw
        (
          jobj_binary-Encodes "midstate" sent.midstate w.midstate 32 m s.midstate v.midstate,
          jobj_binary-Encodes "data" sent.data_bytes w.data_bytes 128 d s.data_bytes v.data_bytes,
          jobj_binary-Encodes "hash1" sent.hash1 w.hash1 64 h s.hash1 v.hash1,
          jobj_binary-Encodes "target" sent.target w.target 32 t s.target v.target,
        )
        refl
