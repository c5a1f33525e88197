-- ===== src/Hex.antt =====
-- `bin2hex` and `hex2bin` of util.c. A byte and a character are numbers below 256; a C string is
-- its characters, without the terminating NUL.
pub mod RoundTrip
pub mod Accepts
use cpuminer.Base.{
  ℕ, zero, suc, ◌+◌, ◌-◌, ◌*◌, ◌/◌, ◌%◌, ◌^◌, ◌==◌, ltb, leb, if◌then◌else◌, Bool, true, false,
  ◌&&◌, ◌||◌, Option, none, some, List, [], ◌∷◌,
}

-- A digit of `%02x`.
unfoldable pub hex_digit : ℕ → ℕ
hex_digit n = if ltb n 10 then b'0' + n else b'a' + (n - 10)

unfoldable pub hex_text : List ℕ → List ℕ
hex_text [] = []
hex_text (b ∷ p) = hex_digit (b / 16) ∷ hex_digit (b % 16) ∷ hex_text p

-- `malloc_ok` is whether `malloc` gives the buffer.
unfoldable pub bin2hex : (malloc_ok : Bool) → List ℕ → Option (List ℕ)
bin2hex malloc_ok p = if malloc_ok then some (hex_text p) else none

-- The value of a hexadecimal digit, as `sscanf` reads it.
unfoldable pub hex_value : ℕ → Option ℕ
hex_value c =
    if leb b'0' c && leb c b'9'
    then some (c - b'0')
    else if leb b'a' c && leb c b'f'
    then some (c - b'a' + 10)
    else if leb b'A' c && leb c b'F'
    then some (c - b'A' + 10)
    else none

-- `isspace` in the C locale.
unfoldable pub isspace : ℕ → Bool
isspace c = c == 0x20 || leb 9 c && leb c 13

-- `sscanf(hex_byte, "%x", &v) == 1` on the two characters of `hex_byte`, as the C standard has it:
-- white space is skipped, a sign is accepted, the digits are taken up to the first character that
-- is none, and `0x` alone is a matching failure.
unfoldable pub sscanf_x : ℕ → ℕ → Option ℕ
unfolding isspace
sscanf_x c d =
    let low = hex_value d in
    let signed : Option ℕ = elim low [ none ↦ none | some v ↦ some ((2 ^ 32 - v) % 2 ^ 32) ] in
    if isspace c
    then low
    else if c == b'+'
    then low
    else if c == b'-'
    then signed
    else elim (hex_value c) [
      | none ↦ none
      | some hi ↦ elim low [
        | some lo ↦ some (hi * 16 + lo)
        | none ↦ if c == b'0' && (d == b'x' || d == b'X') then none else some hi
      ]
    ]

-- What `hex2bin` returns and the bytes that it has stored from `p` on.
pub record Decoded : Type 0 where
  pub success : Bool
  pub stored : List ℕ

abbrev pub store : ℕ → Decoded → Decoded
store v r = record { success = r.success; stored = v % 2 ^ 8 ∷ r.stored }

pub hex2bin : List ℕ → ℕ → Decoded
hex2bin [] zero = record { success = true; stored = [] }
hex2bin [] (suc len) = record { success = false; stored = [] }
hex2bin (c ∷ s) zero = record { success = false; stored = [] }
hex2bin (c ∷ []) (suc len) = record { success = false; stored = [] }
hex2bin (c ∷ d ∷ s) (suc len) = elim (sscanf_x c d) [
  | none ↦ record { success = false; stored = [] }
  | some v ↦ store v (hex2bin s len)
]
