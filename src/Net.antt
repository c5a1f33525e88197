-- ===== src/Net.antt =====
-- The callbacks of util.c that libcurl calls with data, and the address that the long-polling thread of
-- cpu-miner.c puts together from a header.
pub mod Bodies
pub mod Headers
pub mod Address
use mathlib.Core.List.{reverse}
use cpuminer.Base.{
  ℕ, zero, suc, ◌+◌, ◌-◌, ◌*◌, ◌%◌, ◌^◌, ◌==◌, ltb, leb, if◌then◌else◌, Bool, true, false, ◌&&◌,
  ◌||◌, not, Option, none, some, List, [], ◌∷◌, ◌++◌, length, take, drop,
}
use cpuminer.Hex.{isspace}

-- `struct data_buffer` is its bytes: `db->len` is their number, and a NUL stands behind them. The
-- callback gets a chunk of `size * nmemb` bytes, and answers how many it took.
unfoldable pub all_data_cb : (realloc_ok : Bool) → List ℕ → List ℕ → ℕ × List ℕ
all_data_cb realloc_ok chunk db = if realloc_ok then (length chunk, db ++ chunk) else (0, db)

-- `int len = size * nmemb`, as the comparison with a `size_t` reads it.
abbrev pub int_as_size : ℕ → ℕ
int_as_size room =
    let low = room % 2 ^ 32 in if ltb low (2 ^ 31) then low else 2 ^ 64 - (2 ^ 32 - low)

-- What goes to libcurl's buffer of `room` bytes, and what stays in the `struct upload_buffer`.
unfoldable pub upload_data_cb : ℕ → List ℕ → List ℕ × List ℕ
upload_data_cb room ub =
    let len = if ltb (length ub) (int_as_size room) then length ub else int_as_size room in
    (take len ub, drop len ub)

-- `memchr(ptr, ':', ptrlen)`: what stands before the first colon and behind it.
unfoldable pub split_colon : List ℕ → Option (List ℕ × List ℕ)
split_colon [] = none
split_colon (c ∷ s) =
    let rest = split_colon s in
    if c == b':' then some ([], s) else elim rest [ none ↦ none | some p ↦ some (c ∷ p.0, p.1) ]

unfoldable pub skip_spaces : List ℕ → List ℕ
skip_spaces [] = []
skip_spaces (c ∷ s) = let rest = skip_spaces s in if isspace c then rest else c ∷ s

-- A C string ends at its first NUL.
unfoldable pub c_string : List ℕ → List ℕ
c_string [] = []
c_string (c ∷ s) = let rest = c_string s in if c == 0 then [] else c ∷ rest

-- The loop that cuts white space off the end.
unfoldable pub cut_spaces : List ℕ → List ℕ
cut_spaces val = reverse (skip_spaces (reverse val))

abbrev pub tolower : ℕ → ℕ
tolower c = if leb b'A' c && leb c b'Z' then c + 32 else c

-- `!strcasecmp`
unfoldable pub case_eq : List ℕ → List ℕ → Bool
case_eq [] [] = true
case_eq [] (d ∷ t) = false
case_eq (c ∷ s) [] = false
case_eq (c ∷ s) (d ∷ t) = (tolower c == tolower d) && case_eq s t

abbrev pub x_long_polling : List ℕ
x_long_polling =
    b'X' ∷ b'-' ∷ b'L' ∷ b'o' ∷ b'n' ∷ b'g' ∷ b'-' ∷ b'P' ∷ b'o' ∷ b'l' ∷ b'l' ∷ b'i' ∷ b'n' ∷ b'g'
    ∷ []

-- The end of `resp_hdr_cb` with the key and the value: `hi->lp_path` after it.
unfoldable pub store_header : List ℕ → List ℕ → Option (List ℕ) → Option (List ℕ)
store_header key [] lp_path = lp_path
store_header key (c ∷ val) lp_path =
    if case_eq x_long_polling (c_string key) then some (c ∷ val) else lp_path

unfoldable pub header_parts : Option (List ℕ × List ℕ) → Option (List ℕ) → Option (List ℕ)
header_parts none lp_path = lp_path
header_parts (some ([], rest)) lp_path = lp_path
header_parts (some (k ∷ key, [])) lp_path = lp_path
header_parts (some (k ∷ key, c ∷ rest)) lp_path =
    store_header (k ∷ key) (cut_spaces (c_string (skip_spaces (c ∷ rest)))) lp_path

-- What the callback answers, and `hi->lp_path` after it.
unfoldable pub resp_hdr_cb : (alloc_ok : Bool) → List ℕ → Option (List ℕ) → ℕ × Option (List ℕ)
resp_hdr_cb alloc_ok ptr lp_path =
    (length ptr, if alloc_ok then header_parts (split_colon ptr) lp_path else lp_path)

-- `strstr(hdr_path, "://")`
unfoldable pub has_scheme : List ℕ → Bool
has_scheme [] = false
has_scheme (a ∷ []) = false
has_scheme (a ∷ b ∷ []) = false
has_scheme (a ∷ b ∷ c ∷ s) = a == b':' && b == b'/' && c == b'/' || has_scheme (b ∷ c ∷ s)

abbrev pub copy_start : List ℕ → List ℕ
copy_start [] = []
copy_start (c ∷ path) = if c == b'/' then path else c ∷ path

-- `rpc_url[strlen(rpc_url) - 1] != '/'`; `none` is the read before an empty `rpc_url`, which `parse_arg`
-- does not accept.
unfoldable pub needs_slash : List ℕ → Option Bool
needs_slash [] = none
needs_slash (c ∷ []) = some (not (c == b'/'))
needs_slash (c ∷ d ∷ s) = needs_slash (d ∷ s)

-- `lp_url`, where `malloc` does not fail; `fault` is a read outside `rpc_url`.
pub data LpUrl : Type 0 where
  address : List ℕ → LpUrl
  no_memory fault : LpUrl

unfoldable pub join_url : (malloc_ok : Bool) → List ℕ → List ℕ → Option Bool → LpUrl
join_url malloc_ok rpc_url path none = fault
join_url false rpc_url path (some need_slash) = no_memory
join_url true rpc_url path (some need_slash) =
    address (rpc_url ++ (if need_slash then b'/' ∷ [] else []) ++ path)

unfoldable pub lp_url : (malloc_ok : Bool) → List ℕ → List ℕ → LpUrl
lp_url malloc_ok rpc_url hdr_path =
    if has_scheme hdr_path
    then address hdr_path
    else join_url malloc_ok rpc_url (copy_start hdr_path) (needs_slash rpc_url)
