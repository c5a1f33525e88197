-- ===== src/Tests/Parsing.antt =====
-- A command line, and a configuration file with one entry.
use Prim.Native.String.{String}
use cpuminer.Base.{
  ℕ, ◌==◌, not, ◌≡◌, refl, Bool, true, false, if◌then◌else◌, Option, none, some, List, [], ◌∷◌,
  arith,
}
use cpuminer.Base.Int.{pos, negsuc}
use cpuminer.Options.{Text, Algo, Reader, Settings, atoi, string_eq, parse_cmdline, start_settings}
use cpuminer.Hex.{isspace}
use cpuminer.Options.Holds.{Holds}
use cpuminer.Options.Sane.{IsSane}
use cpuminer.Options.Ready.{IsConfigured, parse_cmdline-IsSane}
use cpuminer.Main.{
  workio_thread, longpoll_thread, miner_thread, Resources, failed, start_thread, miners_loop,
  start_longpoll, start_threads, main,
}
use cpuminer.Main.Started.{IsMain, main-IsMain}

data Value : Type 0 where
  file : Value
  text : Text → Value

abbrev member : Value → String → Option Value
member file key = if string_eq key "threads" then some (text (b'8' ∷ [])) else none
member (text t) key = none

abbrev is_file : Value → Bool
is_file file = true
is_file (text t) = false

abbrev text_of : Value → Option Text
text_of file = none
text_of (text t) = some t

abbrev reader : Reader
reader = record {
  Value = Value;
  load_file = λ t. some file;
  is_object = is_file;
  object_get = member;
  string_value = text_of;
  is_true = λ v. false;
}

abbrev everything : Algo → Bool
everything a = true

abbrev copy : Text → Option Text
copy t = some t

copy_lem : (t u : Text) → copy t ≡ some u → u ≡ t
copy_lem t u e = cc

abbrev given : List (ℕ × Text)
given = (1002, b'u' ∷ b':' ∷ b'p' ∷ []) ∷ (b'r', b'-' ∷ b'1' ∷ []) ∷ []

atoi_spaced : atoi (b' ' ∷ b'-' ∷ b'1' ∷ b'2' ∷ b'x' ∷ []) ≡ negsuc 11
unfolding isspace
atoi_spaced = refl

start-IsSane : IsSane everything (start_settings reader everything copy (pos 4))
start-IsSane = (
  (omega arith, omega arith),
  (omega arith, omega arith),
  (omega arith, omega arith),
  omega arith,
  refl,
  (λ t e. rw (copy_lem _ t e) refl),
  (λ t e. cc),
)

parse_cmdline-IsSane_example :
    Holds (IsConfigured reader everything copy (pos 4) copy_lem (omega arith)) (
      parse_cmdline reader everything copy
        (pos 4)
        given
        (start_settings reader everything copy (pos 4)))
parse_cmdline-IsSane_example =
    parse_cmdline-IsSane reader everything copy (pos 4) copy_lem (omega arith) given refl

abbrev configured : Settings Value
configured = record (start_settings reader everything copy (pos 4)) { opt_config = some file }

abbrev plenty : Resources
plenty = record {
  login_ok = true;
  work_restart_ok = true;
  thr_info_ok = true;
  queue_ok = λ i. true;
  create_ok = λ i. true;
}

main-IsMain_example :
    IsMain plenty reader everything copy
      (pos 4)
      (parse_cmdline reader everything copy
        (pos 4)
        given
        (start_settings reader everything copy (pos 4)))
      (main plenty reader everything copy (pos 4) given)
main-IsMain_example =
    main-IsMain plenty reader everything copy (pos 4) copy_lem (omega arith) given refl

-- No thread for the second mining thread.
two_miners :
    start_threads (record plenty { create_ok = λ i. not (i == 1) }) 4 true
    ≡ failed (
        record { role = workio_thread; id = 4 }
        ∷ record { role = longpoll_thread; id = 5 }
        ∷ record { role = miner_thread; id = 0 }
        ∷ [])
unfolding start_threads start_longpoll miners_loop start_thread
two_miners = refl
