-- ===== src/Tests/Transfers.antt =====
-- Chunks of data, a header line and addresses.
use cpuminer.Base.{
  ◌↔◌, ℕ, ◌+◌, ◌≤◌, ◌≡◌, refl, true, false, none, some, List, [], ◌∷◌, ◌++◌, length, replicate,
  arith,
}
use cpuminer.Hex.{isspace}
use cpuminer.Net.{case_eq, x_long_polling, resp_hdr_cb, has_scheme, copy_start, address, lp_url}
use cpuminer.Longpoll.{poll_loop}
use cpuminer.Longpoll.Failures.{has_ended, longest_run, poll_loop_iff}
use cpuminer.Net.Headers.{resp_hdr_cb_lem}
use cpuminer.Net.Address.{joined_address, lp_url_lem}

abbrev chunks : List (List ℕ)
chunks = (1 ∷ 2 ∷ []) ∷ (3 ∷ []) ∷ []

-- The path "/LP", between a space and the end of the line.
abbrev path : List ℕ
path = b'/' ∷ b'L' ∷ b'P' ∷ []

abbrev line : List ℕ
line = x_long_polling ++ b':' ∷ ((b' ' ∷ []) ++ (path ++ (13 ∷ 10 ∷ [])))

resp_hdr_cb_lem_example : resp_hdr_cb true line none ≡ (length line, some path)
unfolding isspace case_eq
resp_hdr_cb_lem_example =
    resp_hdr_cb_lem x_long_polling (b' ' ∷ []) (13 ∷ 10 ∷ []) b'/' (b'L' ∷ b'P' ∷ []) b'P'
      (b'L' ∷ b'/' ∷ []) none (ground arith) refl (refl, tt) (refl, (refl, tt)) (ground arith) refl
      refl refl

abbrev server : List ℕ
server = b'h' ∷ b':' ∷ b'/' ∷ b'/' ∷ b's' ∷ b'/' ∷ []

lp_url_lem_example :
    (lp_url true server path ≡ address (server ++ b'L' ∷ b'P' ∷ []))
    × (length (joined_address server path) + 1 ≤ length server + length (copy_start path) + 2)
unfolding has_scheme
lp_url_lem_example = lp_url_lem server path

poll_loop_iff_example :
    (has_ended (poll_loop 2 (false ∷ true ∷ replicate 11 false) 0 (0 ∷ 0 ∷ [])) ≡ true)
    ↔ (11 ≤ longest_run 0 (false ∷ true ∷ replicate 11 false))
poll_loop_iff_example = poll_loop_iff 2 (false ∷ true ∷ replicate 11 false) (0 ∷ 0 ∷ [])
