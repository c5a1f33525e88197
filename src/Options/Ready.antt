-- ===== src/Options/Ready.antt =====
-- What the command line and the configuration file leave in the settings, and the login.
use cpuminer.Base.{
  ℕ, ◌≡◌, ◌≢◌, refl, ◌∙◌, ◌⊎◌, inl, inr, if◌then◌else◌, Bool, true, false, Option, none, some, List,
  [], ◌∷◌, ◌++◌, arith,
}
use cpuminer.Base.Int.{ℤ, pos, ◌≤ℤ◌}
use cpuminer.Options.{
  Text, has_char, Algo, algo_c, algo_sse2_64, Reader, Settings, def_rpc_url, LongOption, options,
  string_eq, parse_arg, parse_string, parse_entry, config_loop, parse_config, config_of,
  option_loop, parse_cmdline, start_settings, join_login, login,
}
use cpuminer.Options.Holds.{Holds, if-Holds, bind-Holds, map-Holds}
use cpuminer.Options.Sane.{IsSane, IsCounted, parse_arg-IsSane}

module _ {Value : Type 0} (built : Algo → Bool) where
  abbrev IsUntouched : Settings Value → Type 0
  IsUntouched s = (s.rpc_userpass ≡ none) × (s.rpc_user ≡ none)

  abbrev IsReady : ℤ → Settings Value → Type 0
  IsReady sysconf s = IsSane built s × (IsUntouched s ⊎ IsCounted built sysconf s)

module _ (json : Reader) (built : Algo → Bool) (strdup : Text → Option Text) (sysconf : ℤ)
    (copies : (t u : Text) → strdup t ≡ some u → u ≡ t) (counts : pos 1 ≤ℤ sysconf) where
  abbrev Sane : Settings json.Value → Type 0
  Sane = IsSane built

  abbrev Ready : Settings json.Value → Type 0
  Ready = IsReady built sysconf

  abbrev Parsed : Settings json.Value → Type 0
  Parsed s = Sane s × IsCounted built sysconf s

  option_loop-Ready :
      (found : List (ℕ × Text)) (s : Settings json.Value)
      → Ready s
      → Holds Ready (option_loop json built strdup sysconf found s)
  unfolding option_loop
  option_loop-Ready [] s h = h
  option_loop-Ready (o ∷ found) s h =
      bind-Holds Parsed Ready (parse_arg json built strdup sysconf o.0 o.1 s)
        (option_loop json built strdup sysconf found)
        (parse_arg-IsSane json built strdup sysconf copies counts o.0 o.1 s h.0)
        (λ s' p. option_loop-Ready found s' (p.0, inr p.1))

  abbrev FirstReady : Settings json.Value × Bool → Type 0
  FirstReady p = Ready p.0

  parse_string-Ready :
      (o : LongOption) (arg : Option Text) (s : Settings json.Value)
      → Ready s
      → Holds FirstReady (parse_string json built strdup sysconf o arg s)
  unfolding parse_string
  parse_string-Ready o none s h = h
  parse_string-Ready o (some arg) s h =
      bind-Holds Parsed FirstReady (parse_arg json built strdup sysconf o.val arg s)
        (λ s'. some (s', true))
        (parse_arg-IsSane json built strdup sysconf copies counts o.val arg s h.0)
        (λ s' p. (p.0, inr p.1))

  parse_entry-Ready :
      (o : LongOption) (val : Option json.Value) (s : Settings json.Value)
      → Ready s
      → Holds FirstReady (parse_entry json built strdup sysconf o val s)
  unfolding parse_entry
  parse_entry-Ready o none s h = h
  parse_entry-Ready o (some val) s h =
      if-Holds FirstReady o.has_arg _ _ (λ a. by_text (json.string_value val))
        (λ a.
          if-Holds FirstReady (json.is_true val) _ _ (λ b. parse_string-Ready o (some []) s h)
            (λ b. h))
    where
      by_text :
          (t : Option Text)
          → Holds FirstReady (elim t [
            | some arg ↦ parse_string json built strdup sysconf o (strdup arg) s
            | none ↦ some (s, true)
          ])
      by_text none = h
      by_text (some arg) = parse_string-Ready o (strdup arg) s h

  config_loop-Ready :
      (config : json.Value) (os : List LongOption) (s : Settings json.Value)
      → Ready s
      → Holds Ready (config_loop json built strdup sysconf config os s)
  unfolding config_loop
  config_loop-Ready config [] s h = h
  config_loop-Ready config (o ∷ os) s h =
      if-Holds Ready (string_eq o.name "config") _ _ (λ e. config_loop-Ready config os s h)
        (λ e.
          bind-Holds FirstReady Ready
            (parse_entry json built strdup sysconf o (json.object_get config o.name) s)
            (λ p. if p.1 then config_loop json built strdup sysconf config os p.0 else some p.0)
            (parse_entry-Ready o (json.object_get config o.name) s h)
            (λ p r.
              if-Holds Ready p.1 _ (some p.0) (λ m. config_loop-Ready config os p.0 r) (λ m. r)))

  parse_config-Ready :
      (s : Settings json.Value) → Ready s → Holds Ready (parse_config json built strdup sysconf s)
  unfolding parse_config config_of
  parse_config-Ready s h = by_config s.opt_config
    where
      by_config : (c : Option json.Value) → Holds Ready (config_of json built strdup sysconf c s)
      by_config none = h
      by_config (some config) =
          if-Holds Ready (json.is_object config) _ (some s)
            (λ e. config_loop-Ready config options s h) (λ e. h)

  start-Ready : built algo_c ≡ true → Ready (start_settings json built strdup sysconf)
  start-Ready has_c = (
    (
      (omega arith, omega arith),
      (omega arith, omega arith),
      (omega arith, omega arith),
      omega arith,
      by_build (built algo_sse2_64) refl,
      (λ t e. rw (copies def_rpc_url t e) refl),
      (λ t e. cc),
    ),
    inl (refl, refl),
  )
    where
      by_build :
          (b : Bool) → built algo_sse2_64 ≡ b → built (if b then algo_sse2_64 else algo_c) ≡ true
      by_build true e = e
      by_build false e = has_c

  parse_cmdline-Ready :
      (found : List (ℕ × Text)) (s : Settings json.Value)
      → Ready s
      → Holds Ready (parse_cmdline json built strdup sysconf found s)
  unfolding parse_cmdline
  parse_cmdline-Ready found s h =
      bind-Holds Ready Ready (option_loop json built strdup sysconf found s)
        (parse_config json built strdup sysconf) (option_loop-Ready found s h)
        (λ s' r. parse_config-Ready s' r)

  has_char-append : (c : ℕ) (s t : Text) → has_char c t ≡ true → has_char c (s ++ t) ≡ true
  has_char-append c [] t h = h
  has_char-append c (d ∷ s) t h = ground (arith, has_char-append c s t h)

  -- The login is the one given, or the joined one of a user and a password.
  join_login-has_char :
      (malloc_ok : Bool) (user pass : Option Text) (t : Text)
      → join_login json built strdup sysconf malloc_ok user pass ≡ some t
      → (user ≢ none) × (has_char b':' t ≡ true)
  join_login-has_char malloc_ok none pass t e = absurd cc
  join_login-has_char malloc_ok (some user) none t e = absurd cc
  join_login-has_char false (some user) (some pass) t e = absurd cc
  join_login-has_char true (some user) (some pass) t e = (
    (λ q. cc),
    (let same : user ++ b':' ∷ pass ≡ t = cc in
        rw (← same) (has_char-append b':' user (b':' ∷ pass) refl)),
  )

  login-Ready :
      (malloc_ok : Bool) (s : Settings json.Value) (t : Text)
      → Ready s
      → login json built strdup sysconf malloc_ok s ≡ some t
      → IsCounted built sysconf s × (has_char b':' t ≡ true)
  unfolding login
  login-Ready malloc_ok s t h e = by_login s.rpc_userpass refl e
    where
      counted_if : (IsUntouched built s → ⊥) → IsCounted built sysconf s
      counted_if touched = elim h.1 [ inl u ↦ absurd (touched u) | inr c ↦ c ]

      by_login :
          (userpass : Option Text)
          → s.rpc_userpass ≡ userpass
          → (elim userpass [
            | some given ↦ some given
            | none ↦ join_login json built strdup sysconf malloc_ok s.rpc_user s.rpc_pass
          ])
            ≡ some t
          → IsCounted built sysconf s × (has_char b':' t ≡ true)
      by_login (some given) is run = (counted_if (λ u. cc), h.0.6 t (is ∙ run))
      by_login none is run =
          let joined = join_login-has_char malloc_ok s.rpc_user s.rpc_pass t run in
          (counted_if (λ u. joined.0 u.1), joined.1)

  -- What holds of a login that the program goes on with.
  abbrev pub IsLogin : Settings json.Value → Text → Type 0
  IsLogin s t = IsCounted built sysconf s × (has_char b':' t ≡ true)

  -- Where the program goes on: the settings are sane, and the login has a colon and comes with counted
  -- threads.
  abbrev pub IsConfigured : Settings json.Value → Type 0
  IsConfigured s =
      IsSane built s
      × ((malloc_ok : Bool) → Holds (IsLogin s) (login json built strdup sysconf malloc_ok s))

  Holds-if_some :
      {A : Type 0} (P : A → Type 0) (o : Option A) → ((a : A) → o ≡ some a → P a) → Holds P o
  Holds-if_some P none h = tt
  Holds-if_some P (some a) h = h a refl

  -- Whatever options `getopt_long` finds and whatever the configuration file holds, the program exits
  -- or has sane settings; and if it goes on with a login, which then has a colon, the number of
  -- processors is known and there is at least one thread. The build has the plain C scan, `strdup`
  -- copies its argument or fails, and the system counts at least one processor.
  pub parse_cmdline-IsSane :
      (found : List (ℕ × Text))
      → built algo_c ≡ true
      → Holds IsConfigured
          (parse_cmdline json built strdup sysconf found (start_settings json built strdup sysconf))
  parse_cmdline-IsSane found has_c =
      map-Holds {P = Ready} {Q = IsConfigured} _ (parse_cmdline-Ready found _ (start-Ready has_c))
        (λ s r. (
          r.0,
          λ malloc_ok.
              Holds-if_some (IsLogin s) (login json built strdup sysconf malloc_ok s)
                (λ t e. login-Ready malloc_ok s t r e),
        ))
