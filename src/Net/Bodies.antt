-- ===== src/Net/Bodies.antt =====
-- The body that comes in chunks, and the one that goes out in chunks.
use cpuminer.Base.{
  ℕ, zero, suc, ◌+◌, ◌-◌, ◌^◌, ◌<◌, ◌≡◌, refl, ◌∙◌, ap, sym, true, Bool-cases, inl, inr, List, [],
  ◌∷◌, ◌++◌, length, length-append, take, drop, All, arith, ltb_lt, ltb,
}
use mathlib.Core.List.{append_assoc, append-nil}
use cpuminer.Net.{int_as_size, all_data_cb, upload_data_cb}

abbrev pub joined : List (List ℕ) → List ℕ
joined [] = []
joined (chunk ∷ chunks) = chunk ++ joined chunks

-- The buffer after a number of calls, and what these return.
abbrev pub receive : List (List ℕ) → List ℕ → List ℕ
receive [] db = db
receive (chunk ∷ chunks) db = receive chunks (all_data_cb true chunk db).1

abbrev pub taken : List (List ℕ) → List ℕ → ℕ
taken [] db = 0
taken (chunk ∷ chunks) db =
    (all_data_cb true chunk db).0 + taken chunks (all_data_cb true chunk db).1

-- Whatever the chunks are, `all_data_cb` collects their bytes in order behind what the buffer held,
-- and takes as many bytes as there are, while memory lasts.
all_data_cb_lem :
    (chunks : List (List ℕ)) (db : List ℕ)
    → (receive chunks db ≡ db ++ joined chunks) × (taken chunks db ≡ length (joined chunks))
unfolding all_data_cb
all_data_cb_lem [] db = (sym (append-nil db), refl)
all_data_cb_lem (chunk ∷ chunks) db =
    let rest = all_data_cb_lem chunks (db ++ chunk) in
    (
      rest.0 ∙ append_assoc db chunk (joined chunks),
      omega (arith, rest.1, length-append chunk (joined chunks)),
    )

take-drop : (n : ℕ) (xs : List ℕ) → take n xs ++ drop n xs ≡ xs
take-drop zero xs = refl
take-drop (suc n) [] = refl
take-drop (suc n) (x ∷ xs) = ap (λ l. x ∷ l) (take-drop n xs)

length-drop : (n : ℕ) (xs : List ℕ) → length (drop n xs) ≡ length xs - n
length-drop zero xs = omega arith
length-drop (suc n) [] = omega arith
length-drop (suc n) (x ∷ xs) = omega (arith, length-drop n xs)

-- What calls with buffers of these sizes send, and what is left.
abbrev pub send : List ℕ → List ℕ → List ℕ × List ℕ
send [] ub = ([], ub)
send (room ∷ rooms) ub =
    let first = upload_data_cb room ub in
    let rest = send rooms first.1 in (first.0 ++ rest.0, rest.1)

abbrev pub sum : List ℕ → ℕ
sum [] = 0
sum (room ∷ rooms) = room + sum rooms

upload-split :
    (room : ℕ) (ub : List ℕ) → (upload_data_cb room ub).0 ++ (upload_data_cb room ub).1 ≡ ub
unfolding upload_data_cb
upload-split room ub = take-drop _ ub

int_as_size_low : (room : ℕ) → room < 2 ^ 31 → int_as_size room ≡ room
int_as_size_low room h = ground arith

upload-left :
    (room : ℕ) (ub : List ℕ) → room < 2 ^ 31 → length (upload_data_cb room ub).1 ≡ length ub - room
unfolding upload_data_cb
upload-left room ub h =
    let same = int_as_size_low room h in
    elim (Bool-cases (ltb (length ub) (int_as_size room))) [
      | inl e ↦ let fewer = ltb_lt _ _ e in rw e (omega (arith, same, length-drop (length ub) ub))
      | inr e ↦ rw e (omega (arith, same, length-drop (int_as_size room) ub))
    ]

-- Whatever buffers below 2^31 bytes libcurl has, `upload_data_cb` sends the bytes in order, each once:
-- what is sent and what is left make up the data, and all room is used.
upload_data_cb_lem :
    (rooms ub : List ℕ)
    → All (λ r. r < 2 ^ 31) rooms
    → ((send rooms ub).0 ++ (send rooms ub).1 ≡ ub)
      × (length (send rooms ub).1 ≡ length ub - sum rooms)
upload_data_cb_lem [] ub h = (refl, omega arith)
upload_data_cb_lem (room ∷ rooms) ub h =
    let rest = upload_data_cb_lem rooms (upload_data_cb room ub).1 h.1 in
    (
      append_assoc (upload_data_cb room ub).0 (send rooms (upload_data_cb room ub).1).0
            (send rooms (upload_data_cb room ub).1).1
          ∙ ap (λ (l : List ℕ). (upload_data_cb room ub).0 ++ l) rest.0
          ∙ upload-split room ub,
      omega (arith, rest.1, upload-left room ub h.0),
    )
