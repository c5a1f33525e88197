-- ===== src/Tests/Texts.antt =====
-- Hexadecimal texts, and a work unit in them.
use Prim.Native.String.{String, compare}
use Prim.Native.Nat.{eq}
use cpuminer.Base.{
  if◌then◌else◌, zero, suc, ℕ, ◌≡◌, ◌≤◌, ◌↔◌, refl, Bool, true, false, Option, none, some, List, [],
  ◌∷◌, replicate, length, arith,
}
use cpuminer.Hex.{hex_text, hex_digit, bin2hex, hex2bin}
use cpuminer.Hex.RoundTrip.{AreBytes, hex2bin-bin2hex}
use cpuminer.Hex.Accepts.{ReadsPairs, hex2bin_iff}
use cpuminer.Work.{Work, Json, work_decode}
use cpuminer.Work.Decode.{AreSized, Encodes, work_decode-Encodes}

abbrev bytes : List ℕ
bytes = 0x1f ∷ 0xa0 ∷ []

abbrev text : List ℕ
text = b'1' ∷ b'f' ∷ b'a' ∷ b'0' ∷ []

hex2bin-bin2hex_example : hex2bin text (length bytes) ≡ record { success = true; stored = bytes }
unfolding bin2hex hex_text hex_digit
hex2bin-bin2hex_example = hex2bin-bin2hex bytes text (omega arith) refl

hex2bin_iff_example :
    (((hex2bin text 3).success ≡ true) ↔ ReadsPairs text 3)
    × ((hex2bin text 3).success ≡ true → length (hex2bin text 3).stored ≡ 3)
    × (length (hex2bin text 3).stored ≤ 3)
hex2bin_iff_example = hex2bin_iff text 3

-- An answer with the text of zeros at each key.
data Answer : Type 0 where
  object : Answer
  member : String → Answer

infix 50 ◌==◌
abbrev ◌==◌ : String → String → Bool
a == b = elim (compare a b) [ eq ↦ true | _ ↦ false ]

abbrev sizes : String → ℕ
sizes key = if key == "data" then 128 else if key == "hash1" then 64 else 32

abbrev get : Answer → String → Option Answer
get object key = some (member key)
get (member key) other = none

abbrev string_of : Answer → Option (List ℕ)
string_of object = none
string_of (member key) = bin2hex true (replicate (sizes key) 0)

abbrev answers : Json
answers = record { Value = Answer; object_get = get; string_value = string_of }

abbrev zero_work : Work
zero_work = record {
  data_bytes = replicate 128 0;
  hash1 = replicate 64 0;
  midstate = replicate 32 0;
  target = replicate 32 0;
  hash = replicate 32 0;
}

abbrev old_work : Work
old_work = record {
  data_bytes = replicate 128 1;
  hash1 = replicate 64 2;
  midstate = replicate 32 3;
  target = replicate 32 4;
  hash = replicate 32 5;
}

zero_work-AreSized : AreSized zero_work
zero_work-AreSized = record {
  data_bytes = refl;
  hash1 = refl;
  midstate = refl;
  target = refl;
  hash = refl;
}

old_work-AreSized : AreSized old_work
old_work-AreSized = record {
  data_bytes = refl;
  hash1 = refl;
  midstate = refl;
  target = refl;
  hash = refl;
}

zeros-AreBytes : (n : ℕ) → AreBytes (replicate n 0)
zeros-AreBytes zero = tt
zeros-AreBytes (suc n) = (omega arith, zeros-AreBytes n)

encodes : (key : String) → Encodes answers object key (replicate (sizes key) 0)
encodes key = record {
  member = member key;
  found = refl;
  text = refl;
  are_bytes = zeros-AreBytes (sizes key);
}

work_decode-Encodes_example :
    work_decode answers object old_work ≡ (true, record zero_work { hash = replicate 32 0 })
work_decode-Encodes_example =
    work_decode-Encodes answers object zero_work old_work zero_work-AreSized old_work-AreSized
      (encodes "midstate") (encodes "data") (encodes "hash1") (encodes "target")
