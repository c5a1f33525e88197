-- ===== src/Hex/RoundTrip.antt =====
-- What `bin2hex` prints, `hex2bin` reads back.
use cpuminer.Base.{
  ℕ, suc, ◌+◌, ◌*◌, ◌/◌, ◌%◌, ◌^◌, ◌<◌, ◌≡◌, refl, ◌∙◌, true, some, List, [], ◌∷◌, All, length,
  arith,
}
use cpuminer.Hex.{hex_digit, hex_text, bin2hex, hex_value, sscanf_x, store, hex2bin}

abbrev pub AreBytes : List ℕ → Type 0
AreBytes = All (λ b. b < 2 ^ 8)

hex_value-hex_digit : (n : ℕ) → n < 16 → hex_value (hex_digit n) ≡ some n
unfolding hex_value hex_digit
hex_value-hex_digit n h = ground arith

-- Two printed digits are read as their byte.
sscanf_x-hex_digit :
    (hi lo : ℕ) → hi < 16 → lo < 16 → sscanf_x (hex_digit hi) (hex_digit lo) ≡ some (hi * 16 + lo)
unfolding sscanf_x
sscanf_x-hex_digit hi lo h l =
    rw (hex_value-hex_digit hi h, hex_value-hex_digit lo l) (unfold hex_digit in ground arith)

-- One pass of the loop over a pair that is read.
pub hex2bin_step :
    (c d v : ℕ) (s : List ℕ) (len : ℕ)
    → sscanf_x c d ≡ some v
    → hex2bin (c ∷ d ∷ s) (suc len) ≡ store v (hex2bin s len)
unfolding hex2bin
hex2bin_step c d v s len e = ground arith

hex2bin-hex_text :
    (p : List ℕ)
    → AreBytes p
    → hex2bin (hex_text p) (length p) ≡ record { success = true; stored = p }
unfolding hex_text
hex2bin-hex_text [] h = unfold hex2bin in refl
hex2bin-hex_text (b ∷ p) h =
    let e : (b / 16 * 16 + b % 16) % 2 ^ 8 ≡ b = omega arith in
    hex2bin_step (hex_digit (b / 16)) (hex_digit (b % 16)) (b / 16 * 16 + b % 16) (hex_text p)
      (length p) (sscanf_x-hex_digit (b / 16) (b % 16) (omega arith) (omega arith))
    ∙ rw (hex2bin-hex_text p h.1, e) refl

-- `hex2bin` reads back what `bin2hex` prints: for a buffer of bytes and the same length it succeeds
-- and stores exactly those bytes.
pub hex2bin-bin2hex :
    (p s : List ℕ)
    → AreBytes p
    → bin2hex true p ≡ some s
    → hex2bin s (length p) ≡ record { success = true; stored = p }
unfolding bin2hex
hex2bin-bin2hex p s h e = cc (hex2bin-hex_text p h)
