-- ===== src/Net/Headers.antt =====
-- The header that announces long polling.
use mathlib.Core.List.{reverse, reverse-append, reverse-reverse}
use cpuminer.Base.{
  ℕ, ◌≡◌, ◌≢◌, refl, ◌∙◌, ap, sym, true, false, Option, some, List, [], ◌∷◌, ◌++◌, length, All,
  arith,
}
use cpuminer.Hex.{isspace}
use cpuminer.Net.{
  split_colon, skip_spaces, c_string, cut_spaces, case_eq, x_long_polling, store_header,
  header_parts, resp_hdr_cb,
}

abbrev pub AreSpaces : List ℕ → Type 0
AreSpaces = All (λ c. isspace c ≡ true)

-- The text holds no NUL.
abbrev pub IsText : List ℕ → Type 0
IsText = All (λ c. c ≢ 0)

-- The text can stand in front of the colon.
abbrev pub IsKey : List ℕ → Type 0
IsKey = All (λ c. (c ≢ 0) × (c ≢ b':'))

split_colon-append :
    (key rest : List ℕ) → IsKey key → split_colon (key ++ b':' ∷ rest) ≡ some (key, rest)
unfolding split_colon
split_colon-append [] rest h = refl
split_colon-append (c ∷ key) rest h = ground (arith, h.0.1, split_colon-append key rest h.1)

skip_spaces-append : (front s : List ℕ) → AreSpaces front → skip_spaces (front ++ s) ≡ skip_spaces s
unfolding skip_spaces
skip_spaces-append [] s h = refl
skip_spaces-append (c ∷ front) s h = rw h.0 (skip_spaces-append front s h.1)

skip_spaces-cons : (c : ℕ) (s : List ℕ) → isspace c ≡ false → skip_spaces (c ∷ s) ≡ c ∷ s
unfolding skip_spaces
skip_spaces-cons c s h = rw h refl

c_string-IsText : (s : List ℕ) → IsText s → c_string s ≡ s
unfolding c_string
c_string-IsText [] h = refl
c_string-IsText (c ∷ s) h = ground (arith, h.0, c_string-IsText s h.1)

All-append : (P : ℕ → Type 0) (xs ys : List ℕ) → All P xs → All P ys → All P (xs ++ ys)
All-append P [] ys p q = q
All-append P (x ∷ xs) ys p q = (p.0, All-append P xs ys p.1 q)

space_lem : (c : ℕ) → isspace c ≡ true → c ≢ 0
unfolding isspace
space_lem c h = ground arith

spaces-IsText : (s : List ℕ) → AreSpaces s → IsText s
spaces-IsText [] h = tt
spaces-IsText (c ∷ s) h = (space_lem c h.0, spaces-IsText s h.1)

AreSpaces-reverse : (s : List ℕ) → AreSpaces s → AreSpaces (reverse s)
AreSpaces-reverse [] h = tt
AreSpaces-reverse (c ∷ s) h =
    rw (reverse-append (c ∷ []) s)
      (All-append (λ d. isspace d ≡ true) (reverse s) (c ∷ []) (AreSpaces-reverse s h.1) (h.0, tt))

-- White space behind a text whose last character is none is cut off.
cut_spaces-append :
    (text back : List ℕ) (last : ℕ) (others : List ℕ)
    → reverse text ≡ last ∷ others
    → isspace last ≡ false
    → AreSpaces back
    → cut_spaces (text ++ back) ≡ text
unfolding cut_spaces
cut_spaces-append text back last others e h spaces =
    ap reverse (
      ap skip_spaces (reverse-append text back)
      ∙ skip_spaces-append (reverse back) (reverse text) (AreSpaces-reverse back spaces)
      ∙ ap skip_spaces e
      ∙ skip_spaces-cons last others h
      ∙ sym e)
    ∙ reverse-reverse text

header_step :
    (key rest : List ℕ) (lp_path : Option (List ℕ))
    → key ≢ []
    → rest ≢ []
    → header_parts (some (key, rest)) lp_path
      ≡ store_header key (cut_spaces (c_string (skip_spaces rest))) lp_path
unfolding header_parts
header_step [] rest lp_path k r = absurd (k refl)
header_step (c ∷ key) [] lp_path k r = absurd (r refl)
header_step (c ∷ key) (d ∷ rest) lp_path k r = refl

named_ne : (key : List ℕ) → case_eq x_long_polling key ≡ true → key ≢ []
unfolding case_eq
named_ne [] h = cc
named_ne (c ∷ key) h = λ e. cc

append_ne : (front s : List ℕ) → s ≢ [] → front ++ s ≢ []
append_ne [] s h = h
append_ne (c ∷ front) s h = λ e. cc

IsKey-IsText : (key : List ℕ) → IsKey key → IsText key
IsKey-IsText [] h = tt
IsKey-IsText (c ∷ key) h = (h.0.0, IsKey-IsText key h.1)

store_named :
    (key value : List ℕ) (c : ℕ) (lp_path : Option (List ℕ))
    → IsKey key
    → case_eq x_long_polling key ≡ true
    → store_header key (c ∷ value) lp_path ≡ some (c ∷ value)
unfolding store_header
store_named key value c lp_path ok named =
    rw (c_string-IsText key (IsKey-IsText key ok), named) refl

-- A header line whose key is `X-Long-Polling`, in any case, stores its value without the white space
-- around it, and the callback answers the length of the line. The value begins with `first` and ends
-- with `last`, which are no white space, and key and value hold no NUL.
pub resp_hdr_cb_lem :
    (key front back : List ℕ) (first : ℕ) (value : List ℕ) (last : ℕ) (others : List ℕ)
    (lp_path : Option (List ℕ))
    → IsKey key
    → case_eq x_long_polling key ≡ true
    → AreSpaces front
    → AreSpaces back
    → IsText (first ∷ value)
    → isspace first ≡ false
    → reverse (first ∷ value) ≡ last ∷ others
    → isspace last ≡ false
    → resp_hdr_cb true (key ++ b':' ∷ (front ++ (first ∷ value ++ back))) lp_path
      ≡ (length (key ++ b':' ∷ (front ++ (first ∷ value ++ back))), some (first ∷ value))
unfolding resp_hdr_cb
resp_hdr_cb_lem key front back first value last others lp_path key_ok named fs bs text_ok fi e la =
    ap
      (λ (path : Option (List ℕ)).
        (length (key ++ b':' ∷ (front ++ (first ∷ value ++ back))), path))
      (ap (λ p. header_parts p lp_path) (split_colon-append key _ key_ok)
        ∙ header_step key (front ++ (first ∷ value ++ back)) lp_path (named_ne key named)
            (append_ne front (first ∷ value ++ back) (λ n. cc))
        ∙ ap (λ v. store_header key (cut_spaces v) lp_path)
            (ap c_string (
                skip_spaces-append front (first ∷ value ++ back) fs
                ∙ skip_spaces-cons first (value ++ back) fi)
              ∙ c_string-IsText (first ∷ value ++ back)
                  (All-append (λ c. c ≢ 0) (first ∷ value) back text_ok (spaces-IsText back bs)))
        ∙ ap (λ v. store_header key v lp_path)
            (cut_spaces-append (first ∷ value) back last others e la bs)
        ∙ store_named key value first lp_path key_ok named)
