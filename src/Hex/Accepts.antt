-- ===== src/Hex/Accepts.antt =====
-- Which strings `hex2bin` accepts, and how much it stores.
use cpuminer.Base.{
  ℕ, zero, suc, ◌≤◌, ◌≡◌, ◌≢◌, ◌↔◌, refl, true, Option, none, some, List, [], ◌∷◌, length, arith,
}
use cpuminer.Hex.RoundTrip.{AreBytes}
use cpuminer.Hex.{hex_value, sscanf_x, Decoded, hex2bin}

-- The string is `len` pairs that `sscanf` reads.
abbrev pub ReadsPairs : List ℕ → ℕ → Type 0
ReadsPairs [] zero = Unit
ReadsPairs [] (suc len) = ⊥
ReadsPairs (c ∷ s) zero = ⊥
ReadsPairs (c ∷ []) (suc len) = ⊥
ReadsPairs (c ∷ d ∷ s) (suc len) = (sscanf_x c d ≢ none) × ReadsPairs s len

abbrev pub Accepts : Decoded → ℕ → Type 0
Accepts r len = (r.success ≡ true) × (length r.stored ≡ len)

pub hex2bin_complete : (s : List ℕ) (len : ℕ) → ReadsPairs s len → Accepts (hex2bin s len) len
unfolding hex2bin
hex2bin_complete [] zero h = (refl, refl)
hex2bin_complete [] (suc len) h = absurd h
hex2bin_complete (c ∷ s) zero h = absurd h
hex2bin_complete (c ∷ []) (suc len) h = absurd h
hex2bin_complete (c ∷ d ∷ s) (suc len) h = ground (arith, hex2bin_complete s len h.1)

pub hex2bin_sound : (s : List ℕ) (len : ℕ) → (hex2bin s len).success ≡ true → ReadsPairs s len
unfolding hex2bin
hex2bin_sound [] zero h = tt
hex2bin_sound [] (suc len) h = cc
hex2bin_sound (c ∷ s) zero h = cc
hex2bin_sound (c ∷ []) (suc len) h = cc
hex2bin_sound (c ∷ d ∷ s) (suc len) h = split (hex2bin_sound s len) (sscanf_x c d) refl
  where
    split :
        ((hex2bin s len).success ≡ true → ReadsPairs s len)
        → (v : Option ℕ) → sscanf_x c d ≡ v
        → (v ≢ none) × ReadsPairs s len
    split ih none e = absurd (ground arith)
    split ih (some v) e = (λ q. cc, ih (ground arith))

pub hex2bin-length : (s : List ℕ) (len : ℕ) → length (hex2bin s len).stored ≤ len
unfolding hex2bin
hex2bin-length [] zero = omega arith
hex2bin-length [] (suc len) = omega arith
hex2bin-length (c ∷ s) zero = omega arith
hex2bin-length (c ∷ []) (suc len) = omega arith
hex2bin-length (c ∷ d ∷ s) (suc len) = ground (arith, hex2bin-length s len)

-- What it stores are bytes.
pub hex2bin-AreBytes : (s : List ℕ) (len : ℕ) → AreBytes (hex2bin s len).stored
unfolding hex2bin
hex2bin-AreBytes [] zero = tt
hex2bin-AreBytes [] (suc len) = tt
hex2bin-AreBytes (c ∷ s) zero = tt
hex2bin-AreBytes (c ∷ []) (suc len) = tt
hex2bin-AreBytes (c ∷ d ∷ s) (suc len) = by_pair (sscanf_x c d) refl (hex2bin-AreBytes s len)
  where
    by_pair :
        (v : Option ℕ)
        → sscanf_x c d ≡ v
        → AreBytes (hex2bin s len).stored
        → AreBytes (hex2bin (c ∷ d ∷ s) (suc len)).stored
    by_pair none e rest = rw (hex2bin, e) tt
    by_pair (some x) e rest = rw (hex2bin, e) ((omega arith, rest))

-- `hex2bin` accepts a string exactly when it is `len` pairs of characters that `sscanf` reads as a
-- number; it then stores `len` bytes, and it never stores more, whatever the string holds.
pub hex2bin_iff :
    (s : List ℕ) (len : ℕ)
    → (((hex2bin s len).success ≡ true) ↔ ReadsPairs s len)
      × ((hex2bin s len).success ≡ true → length (hex2bin s len).stored ≡ len)
      × (length (hex2bin s len).stored ≤ len)
hex2bin_iff s len = (
  (hex2bin_sound s len, λ h. (hex2bin_complete s len h).0),
  λ h. (hex2bin_complete s len (hex2bin_sound s len h)).1,
  hex2bin-length s len,
)

-- A pair need not be two hexadecimal digits: a digit other than `0`, with value `v`, followed by any
-- character that is no digit, is stored as the byte `v`, and so is a space followed by the digit.
hex2bin_accepts_malformed :
    (c d v : ℕ)
    → hex_value c ≡ some v
    → c ≢ b'0'
    → hex_value d ≡ none
    → (hex2bin (c ∷ d ∷ []) 1 ≡ record { success = true; stored = v ∷ [] })
      × (hex2bin (b' ' ∷ c ∷ []) 1 ≡ record { success = true; stored = v ∷ [] })
unfolding hex2bin sscanf_x hex_value
hex2bin_accepts_malformed c d v hex ne bad = (ground arith, ground arith)
