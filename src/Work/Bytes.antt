-- ===== src/Work/Bytes.antt =====
-- A decoded work unit holds bytes, whatever the server's answer is.
use Prim.Native.String.{String}
use cpuminer.Base.{
  ℕ, zero, suc, Option, none, some, List, [], ◌∷◌, ◌++◌, length, drop, replicate, arith,
}
use cpuminer.Hex.{hex2bin}
use cpuminer.Hex.Accepts.{hex2bin-AreBytes}
use cpuminer.Hex.RoundTrip.{AreBytes}
use cpuminer.Work.{Work, Json, fill_text, fill_member, jobj_binary, work_decode}

pub record HasBytes (w : Work) : Type 0 where
  pub data_bytes : AreBytes w.data_bytes
  pub hash1 : AreBytes w.hash1
  pub midstate : AreBytes w.midstate
  pub target : AreBytes w.target

pub AreBytes-replicate : (n : ℕ) → AreBytes (replicate n 0)
AreBytes-replicate zero = tt
AreBytes-replicate (suc n) = (omega arith, AreBytes-replicate n)

pub AreBytes-append : (xs ys : List ℕ) → AreBytes xs → AreBytes ys → AreBytes (xs ++ ys)
AreBytes-append [] ys ps qs = qs
AreBytes-append (x ∷ xs) ys ps qs = (ps.0, AreBytes-append xs ys ps.1 qs)

pub AreBytes-drop : (n : ℕ) (xs : List ℕ) → AreBytes xs → AreBytes (drop n xs)
AreBytes-drop zero xs ps = ps
AreBytes-drop (suc n) [] ps = ps
AreBytes-drop (suc n) (x ∷ xs) ps = AreBytes-drop n xs ps.1

fill_text-AreBytes :
    (buf : List ℕ) (buflen : ℕ) (text : Option (List ℕ))
    → AreBytes buf
    → AreBytes (fill_text buf buflen text).buf
unfolding fill_text
fill_text-AreBytes buf buflen none ok = ok
fill_text-AreBytes buf buflen (some hexstr) ok =
    AreBytes-append (hex2bin hexstr buflen).stored
      (drop (length (hex2bin hexstr buflen).stored) buf) (hex2bin-AreBytes hexstr buflen)
      (AreBytes-drop (length (hex2bin hexstr buflen).stored) buf ok)

module _ (json : Json) where
  fill_member-AreBytes :
      (buf : List ℕ) (buflen : ℕ) (member : Option json.Value)
      → AreBytes buf
      → AreBytes (fill_member json buf buflen member).buf
  unfolding fill_member
  fill_member-AreBytes buf buflen none ok = ok
  fill_member-AreBytes buf buflen (some tmp) ok =
      fill_text-AreBytes buf buflen (json.string_value tmp) ok

  jobj_binary-AreBytes :
      (val : json.Value) (key : String) (buf : List ℕ) (buflen : ℕ)
      → AreBytes buf
      → AreBytes (jobj_binary json val key buf buflen).buf
  unfolding jobj_binary
  jobj_binary-AreBytes val key buf buflen ok =
      fill_member-AreBytes buf buflen (json.object_get val key) ok

  pub work_decode-HasBytes :
      (val : json.Value) (w : Work) → HasBytes w → HasBytes (work_decode json val w).1
  unfolding work_decode
  work_decode-HasBytes val w v =
      let m = jobj_binary-AreBytes val "midstate" w.midstate 32 v.midstate in
      let d = jobj_binary-AreBytes val "data" w.data_bytes 128 v.data_bytes in
      let h = jobj_binary-AreBytes val "hash1" w.hash1 64 v.hash1 in
      let t = jobj_binary-AreBytes val "target" w.target 32 v.target in ground (arith, m, d, h, t)
