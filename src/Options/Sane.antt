-- ===== src/Options/Sane.antt =====
-- What one option leaves in the settings.
use cpuminer.Base.{ℕ, ◌≡◌, refl, inl, inr, Bool, true, ◌||◌, Bool-cases, Option, none, some, arith}
use cpuminer.Base.Int.{ℤ, pos, negsuc, ◌≤ℤ◌, ltb_ℤ}
use cpuminer.Options.{
  Text, has_char, Algo, algo_names, Reader, Settings, is_url, set_algo, set_config, parse_key,
  count_threads, counted, parse_arg,
}
use cpuminer.Options.Holds.{
  Holds, if-Holds, switch-Holds, checked-Holds, nonneg, find_algo-built, Between,
}

module _ {Value : Type 0} (built : Algo → Bool) where
  -- The numbers are in their ranges, the scan is one that the build has, the address is one of
  -- HTTP and the login has a colon.
  abbrev pub IsSane : Settings Value → Type 0
  IsSane s =
      Between (negsuc 0) (pos 9999) s.opt_retries
      × Between (pos 1) (pos 9999) s.opt_fail_pause
      × Between (pos 1) (pos 9999) s.opt_scantime
      × (pos 0 ≤ℤ s.opt_n_threads)
      × (built s.opt_algo ≡ true)
      × ((t : Text) → s.rpc_url ≡ some t → is_url t ≡ true)
      × ((t : Text) → s.rpc_userpass ≡ some t → has_char b':' t ≡ true)

  abbrev pub IsCounted : ℤ → Settings Value → Type 0
  IsCounted sysconf s = (s.num_processors ≡ sysconf) × (pos 1 ≤ℤ s.opt_n_threads)

module _ (json : Reader) (built : Algo → Bool) (strdup : Text → Option Text) (sysconf : ℤ)
    (copies : (t u : Text) → strdup t ≡ some u → u ≡ t) (counts : pos 1 ≤ℤ sysconf) where
  abbrev Sane : Settings json.Value → Type 0
  Sane = IsSane built

  set_algo-IsSane :
      (a : Option Algo) (s : Settings json.Value)
      → Holds (λ x. built x ≡ true) a
      → Sane s
      → Holds Sane (set_algo json built strdup sysconf a s)
  unfolding set_algo
  set_algo-IsSane none s h sane = tt
  set_algo-IsSane (some a) s h sane = (sane.0, sane.1, sane.2, sane.3, h, sane.5, sane.6)

  set_config-IsSane :
      (v : Option json.Value) (s : Settings json.Value)
      → Sane s
      → Holds Sane (set_config json built strdup sysconf v s)
  unfolding set_config
  set_config-IsSane none s sane = tt
  set_config-IsSane (some v) s sane = if-Holds Sane (json.is_object v) _ none (λ h. sane) (λ h. tt)

  parse_key-IsSane :
      (key : ℕ) (arg : Text) (s : Settings json.Value)
      → Sane s
      → Holds Sane (parse_key json built strdup sysconf key arg s)
  unfolding parse_key
  parse_key-IsSane key arg s sane =
      switch-Holds Sane key _ none
        (
          set_algo-IsSane _ s (find_algo-built built algo_names arg) sane,
          (
            set_config-IsSane _ s sane,
            (
              sane,
              (
                sane,
                (
                  sane,
                  (
                    sane,
                    (
                      checked-Holds Sane _ _ _ _
                          (λ b. (b, sane.1, sane.2, sane.3, sane.4, sane.5, sane.6)),
                      (
                        checked-Holds Sane _ _ _ _
                            (λ b. (sane.0, b, sane.2, sane.3, sane.4, sane.5, sane.6)),
                        (
                          checked-Holds Sane _ _ _ _
                              (λ b. (sane.0, sane.1, b, sane.3, sane.4, sane.5, sane.6)),
                          (
                            checked-Holds Sane _ _ _ _ (λ b.
                                (sane.0, sane.1, sane.2, nonneg _ b.0, sane.4, sane.5, sane.6)),
                            (
                              sane,
                              (
                                if-Holds Sane (is_url arg)
                                    (some (record s { rpc_url = strdup arg })) none
                                    (λ h. (
                                      sane.0,
                                      sane.1,
                                      sane.2,
                                      sane.3,
                                      sane.4,
                                      (λ t e. rw (copies arg t e) h),
                                      sane.6,
                                    ))
                                    (λ h. tt),
                                (
                                  if-Holds Sane (has_char b':' arg)
                                      (some (record s { rpc_userpass = strdup arg })) none
                                      (λ h. (
                                        sane.0,
                                        sane.1,
                                        sane.2,
                                        sane.3,
                                        sane.4,
                                        sane.5,
                                        (λ t e. rw (copies arg t e) h),
                                      ))
                                      (λ h. tt),
                                  (sane, (sane, tt)),
                                ),
                              ),
                            ),
                          ),
                        ),
                      ),
                    ),
                  ),
                ),
              ),
            ),
          ),
        )
        tt

  abbrev Parsed : Settings json.Value → Type 0
  Parsed s = Sane s × IsCounted built sysconf s

  count_threads-Parsed :
      (s : Settings json.Value) → Sane s → Parsed (count_threads json built strdup sysconf s)
  unfolding count_threads
  count_threads-Parsed s sane =
      elim (Bool-cases (ltb_ℤ s.opt_n_threads (pos 0) || ltb_ℤ (pos 0) s.opt_n_threads)) [
        | inl h ↦
            let some_threads : pos 1 ≤ℤ s.opt_n_threads = ground (arith, sane.3) in
            rw h (sane, (refl, some_threads))
        | inr h ↦ rw h (
          (sane.0, sane.1, sane.2, nonneg sysconf counts, sane.4, sane.5, sane.6),
          (refl, counts),
        )
      ]

  counted-Parsed :
      (o : Option (Settings json.Value))
      → Holds Sane o
      → Holds Parsed (counted json built strdup sysconf o)
  unfolding counted
  counted-Parsed none h = tt
  counted-Parsed (some s) h = count_threads-Parsed s h

  -- `parse_arg` exits or leaves sane settings with at least one thread, for every key and argument.
  pub parse_arg-IsSane :
      (key : ℕ) (arg : Text) (s : Settings json.Value)
      → IsSane built s
      → Holds
          (λ s'. IsSane built s' × IsCounted built sysconf s')
          (parse_arg json built strdup sysconf key arg s)
  unfolding parse_arg
  parse_arg-IsSane key arg s sane = counted-Parsed _ (parse_key-IsSane key arg s sane)
