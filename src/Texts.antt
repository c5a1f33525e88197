-- ===== src/Texts.antt =====
-- The string functions of the C library that cpu-miner.c calls on its options: `strcmp`, `strncmp`,
-- `strchr` and `atoi`. A text is its bytes without the terminating NUL.
use Prim.Native.String.{String, compare}
use Prim.Native.Nat.{eq}
use cpuminer.Base.{
  ℕ, ◌+◌, ◌-◌, ◌*◌, ◌==◌, leb, if◌then◌else◌, Bool, true, false, ◌&&◌, ◌||◌, List, [], ◌∷◌,
}
use cpuminer.Base.Int.{ℤ, pos, sub_ℕ}
use cpuminer.Hex.{isspace}

abbrev pub Text : Type 0
Text = List ℕ

abbrev pub text_eq : Text → Text → Bool
text_eq [] [] = true
text_eq [] (d ∷ t) = false
text_eq (c ∷ s) [] = false
text_eq (c ∷ s) (d ∷ t) = (c == d) && text_eq s t

abbrev pub string_eq : String → String → Bool
string_eq a b = elim (compare a b) [ eq ↦ true | _ ↦ false ]

-- `!strncmp(arg, prefix, strlen(prefix))`
abbrev pub starts_with : Text → Text → Bool
starts_with [] arg = true
starts_with (c ∷ prefix) [] = false
starts_with (c ∷ prefix) (d ∷ arg) = (c == d) && starts_with prefix arg

-- `strchr`
abbrev pub has_char : ℕ → Text → Bool
has_char c [] = false
has_char c (d ∷ arg) = (c == d) || has_char c arg

-- `atoi` where the value fits an `int`: white space, a sign, and digits up to the first other character.
abbrev pub digits_from : ℕ → Text → ℕ
digits_from v [] = v
digits_from v (c ∷ s) = if leb b'0' c && leb c b'9' then digits_from (v * 10 + (c - b'0')) s else v

abbrev pub signed_from : Text → ℤ
signed_from [] = pos 0
signed_from (c ∷ s) =
    if c == b'-'
    then sub_ℕ 0 (digits_from 0 s)
    else if c == b'+'
    then pos (digits_from 0 s)
    else pos (digits_from 0 (c ∷ s))

abbrev pub atoi : Text → ℤ
atoi [] = pos 0
atoi (c ∷ s) = if isspace c then atoi s else signed_from (c ∷ s)
