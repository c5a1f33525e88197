-- ===== src/Options.antt =====
-- The options of cpu-miner.c: `parse_arg`, `parse_config`, `parse_cmdline` and the login that `main`
-- puts together. `getopt_long` is a parameter: the options that it returns. So are the JSON library,
-- `strdup`, the number of processors and which scans the build has.
pub mod Holds
pub mod Sane
pub mod Ready
pub mod Config
pub use cpuminer.Texts.{Text, text_eq, string_eq, starts_with, has_char, atoi}
use Prim.Native.String.{String, compare}
use Prim.Native.Nat.{eq}
use cpuminer.Base.{
  ℕ, zero, suc, ◌+◌, ◌-◌, ◌*◌, ◌==◌, leb, if◌then◌else◌, Bool, true, false, ◌&&◌, ◌||◌, not, Option,
  none, some, List, [], ◌∷◌, ◌++◌,
}
use cpuminer.Base.Int.{ℤ, pos, negsuc, sub_ℕ, ltb_ℤ}
use cpuminer.Hex.{isspace}

pub data Algo : Type 0 where
  algo_c algo_4way algo_via algo_cryptopp algo_cryptopp_asm32 algo_sse2_64 : Algo

abbrev pub algo_names : List (Algo × Text)
algo_names =
    (algo_c, b'c' ∷ [])
    ∷ (algo_4way, b'4' ∷ b'w' ∷ b'a' ∷ b'y' ∷ [])
    ∷ (algo_via, b'v' ∷ b'i' ∷ b'a' ∷ [])
    ∷ (algo_cryptopp, b'c' ∷ b'r' ∷ b'y' ∷ b'p' ∷ b't' ∷ b'o' ∷ b'p' ∷ b'p' ∷ [])
    ∷ (
      algo_cryptopp_asm32,
      b'c' ∷ b'r' ∷ b'y' ∷ b'p' ∷ b't' ∷ b'o' ∷ b'p' ∷ b'p' ∷ b'_' ∷ b'a' ∷ b's' ∷ b'm' ∷ b'3'
          ∷ b'2' ∷ [],
    )
    ∷ (algo_sse2_64, b's' ∷ b's' ∷ b'e' ∷ b'2' ∷ b'_' ∷ b'6' ∷ b'4' ∷ [])
    ∷ []

-- What the code calls of the JSON library; `none` is NULL.
pub record Reader : Type 1 where
  pub Value : Type 0
  pub load_file : Text → Option Value
  pub is_object : Value → Bool
  pub object_get : Value → String → Option Value
  pub string_value : Value → Option Text
  pub is_true : Value → Bool

-- The global variables that the options set.
pub record Settings (Value : Type 0) : Type 0 where
  pub opt_debug : Bool
  pub opt_protocol : Bool
  pub want_longpoll : Bool
  pub use_syslog : Bool
  pub opt_quiet : Bool
  pub opt_retries : ℤ
  pub opt_fail_pause : ℤ
  pub opt_scantime : ℤ
  pub opt_config : Option Value
  pub opt_algo : Algo
  pub opt_n_threads : ℤ
  pub num_processors : ℤ
  pub rpc_url : Option Text
  pub rpc_userpass : Option Text
  pub rpc_user : Option Text
  pub rpc_pass : Option Text

abbrev pub http_prefix : Text
http_prefix = b'h' ∷ b't' ∷ b't' ∷ b'p' ∷ b':' ∷ b'/' ∷ b'/' ∷ []

abbrev pub https_prefix : Text
https_prefix = b'h' ∷ b't' ∷ b't' ∷ b'p' ∷ b's' ∷ b':' ∷ b'/' ∷ b'/' ∷ []

abbrev pub is_url : Text → Bool
is_url arg = starts_with http_prefix arg || starts_with https_prefix arg

-- `DEF_RPC_URL`
abbrev pub def_rpc_url : Text
def_rpc_url =
    http_prefix
    ++ b'1' ∷ b'2' ∷ b'7' ∷ b'.' ∷ b'0' ∷ b'.' ∷ b'0' ∷ b'.' ∷ b'1' ∷ b':' ∷ b'8' ∷ b'3' ∷ b'3'
      ∷ b'2' ∷ b'/' ∷ []

-- `struct option`
pub record LongOption : Type 0 where
  pub name : String
  pub has_arg : Bool
  pub val : ℕ

abbrev pub options : List LongOption
options =
    record { name = "algo"; has_arg = true; val = b'a' }
    ∷ record { name = "config"; has_arg = true; val = b'c' }
    ∷ record { name = "debug"; has_arg = false; val = b'D' }
    ∷ record { name = "help"; has_arg = false; val = b'h' }
    ∷ record { name = "no-longpoll"; has_arg = false; val = 1003 }
    ∷ record { name = "pass"; has_arg = true; val = b'p' }
    ∷ record { name = "protocol-dump"; has_arg = false; val = b'P' }
    ∷ record { name = "quiet"; has_arg = false; val = b'q' }
    ∷ record { name = "threads"; has_arg = true; val = b't' }
    ∷ record { name = "retries"; has_arg = true; val = b'r' }
    ∷ record { name = "retry-pause"; has_arg = true; val = b'R' }
    ∷ record { name = "scantime"; has_arg = true; val = b's' }
    ∷ record { name = "syslog"; has_arg = false; val = 1004 }
    ∷ record { name = "url"; has_arg = true; val = 1001 }
    ∷ record { name = "user"; has_arg = true; val = b'u' }
    ∷ record { name = "userpass"; has_arg = true; val = 1002 }
    ∷ []

-- The search of `algo_names`, in which the scans that the build leaves out have no name.
unfoldable pub find_algo : (Algo → Bool) → List (Algo × Text) → Text → Option Algo
find_algo built [] arg = none
find_algo built (entry ∷ names) arg =
    let rest = find_algo built names arg in
    if built entry.0 && text_eq arg entry.1 then some entry.0 else rest

-- The test of a number, and what it sets; `none` is the exit of `show_usage`.
unfoldable pub checked : {A : Type 0} → ℤ → ℤ → ℤ → A → Option A
checked low high v set_to = if ltb_ℤ v low || ltb_ℤ high v then none else some set_to

-- A `switch` whose cases all end in a `break`.
unfoldable pub switch : {A : Type 0} → ℕ → List (ℕ × A) → A → A
switch key [] otherwise = otherwise
switch key (c ∷ cases) otherwise =
    let rest = switch key cases otherwise in if key == c.0 then c.1 else rest

-- `sysconf` is what `sysconf(_SC_NPROCESSORS_ONLN)` returns.
module _ (json : Reader) (built : Algo → Bool) (strdup : Text → Option Text) (sysconf : ℤ) where
  unfoldable pub set_algo : Option Algo → Settings json.Value → Option (Settings json.Value)
  set_algo none s = none
  set_algo (some a) s = some (record s { opt_algo = a })

  -- A file that does not parse gives NULL, which is no object.
  unfoldable pub set_config : Option json.Value → Settings json.Value → Option (Settings json.Value)
  set_config none s = none
  set_config (some v) s = if json.is_object v then some (record s { opt_config = some v }) else none

  -- The switch of `parse_arg`.
  unfoldable pub parse_key : ℕ → Text → Settings json.Value → Option (Settings json.Value)
  parse_key key arg s =
      let v = atoi arg in
      switch key
        ((b'a', set_algo (find_algo built algo_names arg) s)
          ∷ (b'c', set_config (json.load_file arg) s)
          ∷ (b'q', some (record s { opt_quiet = true }))
          ∷ (b'D', some (record s { opt_debug = true }))
          ∷ (b'p', some (record s { rpc_pass = strdup arg }))
          ∷ (b'P', some (record s { opt_protocol = true }))
          ∷ (b'r', checked (negsuc 0) (pos 9999) v (record s { opt_retries = v }))
          ∷ (b'R', checked (pos 1) (pos 9999) v (record s { opt_fail_pause = v }))
          ∷ (b's', checked (pos 1) (pos 9999) v (record s { opt_scantime = v }))
          ∷ (b't', checked (pos 1) (pos 9999) v (record s { opt_n_threads = v }))
          ∷ (b'u', some (record s { rpc_user = strdup arg }))
          ∷ (1001, if is_url arg then some (record s { rpc_url = strdup arg }) else none)
          ∷ (
            1002,
            if has_char b':' arg then some (record s { rpc_userpass = strdup arg }) else none,
          )
          ∷ (1003, some (record s { want_longpoll = false }))
          ∷ (1004, some (record s { use_syslog = true }))
          ∷ [])
        none

  -- The number of threads behind the switch.
  unfoldable pub count_threads : Settings json.Value → Settings json.Value
  count_threads s = record s {
    num_processors = sysconf;
    opt_n_threads =
        if ltb_ℤ s.opt_n_threads (pos 0) || ltb_ℤ (pos 0) s.opt_n_threads
        then s.opt_n_threads
        else sysconf;
  }

  unfoldable pub counted : Option (Settings json.Value) → Option (Settings json.Value)
  counted none = none
  counted (some s) = some (count_threads s)

  unfoldable pub parse_arg : ℕ → Text → Settings json.Value → Option (Settings json.Value)
  parse_arg key arg s = counted (parse_key key arg s)

  -- A pass of the loop of `parse_config` over the value at the option's name: the settings, and
  -- whether the loop goes on. An invalid entry is logged.
  unfoldable pub parse_string :
      LongOption → Option Text → Settings json.Value → Option (Settings json.Value × Bool)
  parse_string o none s = some (s, false)
  parse_string o (some arg) s = elim (parse_arg o.val arg s) [
    | none ↦ none
    | some s' ↦ some (s', true)
  ]

  unfoldable pub parse_entry :
      LongOption → Option json.Value → Settings json.Value → Option (Settings json.Value × Bool)
  parse_entry o none s = some (s, true)
  parse_entry o (some val) s =
      if o.has_arg
      then (elim (json.string_value val) [
        | some arg ↦ parse_string o (strdup arg) s
        | none ↦ some (s, true)
      ])
      else if json.is_true val
      then parse_string o (some []) s
      else some (s, true)

  unfoldable pub config_loop :
      json.Value → List LongOption → Settings json.Value → Option (Settings json.Value)
  config_loop config [] s = some s
  config_loop config (o ∷ os) s =
      let rest = λ (s' : Settings json.Value). config_loop config os s' in
      if string_eq o.name "config"
      then rest s
      else elim (parse_entry o (json.object_get config o.name) s) [
        | none ↦ none
        | some (s', more) ↦ if more then rest s' else some s'
      ]

  unfoldable pub config_of : Option json.Value → Settings json.Value → Option (Settings json.Value)
  config_of none s = some s
  config_of (some config) s = if json.is_object config then config_loop config options s else some s

  unfoldable pub parse_config : Settings json.Value → Option (Settings json.Value)
  parse_config s = config_of s.opt_config s

  -- `found` is what `getopt_long` returns in turn: a key and its argument.
  unfoldable pub option_loop : List (ℕ × Text) → Settings json.Value → Option (Settings json.Value)
  option_loop [] s = some s
  option_loop (o ∷ found) s = elim (parse_arg o.0 o.1 s) [
    | none ↦ none
    | some s' ↦ option_loop found s'
  ]

  unfoldable pub parse_cmdline :
      List (ℕ × Text) → Settings json.Value → Option (Settings json.Value)
  parse_cmdline found s = elim (option_loop found s) [ none ↦ none | some s' ↦ parse_config s' ]

  -- The variables as the program starts, with the address that `main` sets.
  abbrev pub start_settings : Settings json.Value
  start_settings = record {
    opt_debug = false;
    opt_protocol = false;
    want_longpoll = true;
    use_syslog = false;
    opt_quiet = false;
    opt_retries = pos 10;
    opt_fail_pause = pos 30;
    opt_scantime = pos 5;
    opt_config = none;
    opt_algo = if built algo_sse2_64 then algo_sse2_64 else algo_c;
    opt_n_threads = pos 0;
    num_processors = pos 0;
    rpc_url = strdup def_rpc_url;
    rpc_userpass = none;
    rpc_user = none;
    rpc_pass = none;
  }

  -- The login that `main` goes on with, if it goes on. `malloc_ok` is whether `malloc` gives the buffer.
  abbrev pub join_login : Bool → Option Text → Option Text → Option Text
  join_login malloc_ok (some user) (some pass) =
      if malloc_ok then some (user ++ b':' ∷ pass) else none
  join_login malloc_ok none pass = none
  join_login malloc_ok (some user) none = none

  unfoldable pub login : Bool → Settings json.Value → Option Text
  login malloc_ok s = elim s.rpc_userpass [
    | some userpass ↦ some userpass
    | none ↦ join_login malloc_ok s.rpc_user s.rpc_pass
  ]
