-- ===== src/Net/Address.antt =====
-- The address for long polling.
use cpuminer.Base.{
  Bool-cases, inl, inr, ℕ, ◌+◌, ◌==◌, ◌≤◌, ◌≡◌, refl, ap, if◌then◌else◌, Bool, true, not, some,
  List, [], ◌∷◌, ◌++◌, length, length-append, arith,
}
use cpuminer.Net.{has_scheme, copy_start, needs_slash, LpUrl, address, fault, join_url, lp_url}

-- An address without the one slash that may stand at its end.
abbrev pub without_slash : List ℕ → List ℕ
without_slash [] = []
without_slash (c ∷ []) = if c == b'/' then [] else c ∷ []
without_slash (c ∷ d ∷ s) = c ∷ without_slash (d ∷ s)

slash_added :
    (c : ℕ) (url path : List ℕ)
    → (b : Bool) × (needs_slash (c ∷ url) ≡ some b)
      × ((c ∷ url) ++ (if b then b'/' ∷ [] else []) ++ path
          ≡ without_slash (c ∷ url) ++ b'/' ∷ path)
unfolding needs_slash
slash_added c [] path = (not (c == b'/'), refl, ground arith)
slash_added c (d ∷ s) path = let (b, e, same) = slash_added d s path in (b, e, ap (λ l. c ∷ l) same)

-- What the thread puts together of the server's address and the path.
abbrev pub joined_address : List ℕ → List ℕ → List ℕ
joined_address url path = without_slash url ++ b'/' ∷ copy_start path

-- With an empty address of the server there is nothing to put together.
abbrev pub joined_or_fault : List ℕ → List ℕ → LpUrl
joined_or_fault [] path = fault
joined_or_fault (c ∷ url) path = address (joined_address (c ∷ url) path)

length-without_slash : (url : List ℕ) → length (without_slash url) ≤ length url
length-without_slash [] = omega arith
length-without_slash (c ∷ []) = ground arith
length-without_slash (c ∷ d ∷ s) = omega (arith, length-without_slash (d ∷ s))

join_url_lem :
    (url path : List ℕ)
    → join_url true url (copy_start path) (needs_slash url) ≡ joined_or_fault url path
unfolding join_url needs_slash
join_url_lem [] path = refl
join_url_lem (c ∷ url) path =
    let (b, e, same) = slash_added c url (copy_start path) in rw e (ap address same)

-- A header with a full address is taken as it is. Otherwise the address is that of the server, with or
-- without a slash at its end, one slash and the path without the slash at its start; with its
-- terminating NUL it fits the buffer of `strlen(rpc_url) + strlen(copy_start) + 2` bytes. If the
-- address of the server is empty, the code reads before its start. `malloc` does not fail.
pub lp_url_lem :
    (url path : List ℕ)
    → (lp_url true url path ≡ (if has_scheme path then address path else joined_or_fault url path))
      × (length (joined_address url path) + 1 ≤ length url + length (copy_start path) + 2)
unfolding lp_url
lp_url_lem url path = (
  elim (Bool-cases (has_scheme path)) [
    | inl full ↦ rw full refl
    | inr partial ↦ rw partial (join_url_lem url path)
  ],
  omega
      (arith, length-without_slash url, length-append (without_slash url) (b'/' ∷ copy_start path)),
)
