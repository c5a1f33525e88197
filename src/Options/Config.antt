-- ===== src/Options/Config.antt =====
-- The configuration file acts as options at the end of the command line.
use cpuminer.Base.{ℕ, ◌≡◌, if◌then◌else◌, Bool, Option, none, some, List, [], ◌∷◌}
use cpuminer.Base.Int.{ℤ}
use cpuminer.Options.{Text, Algo, Reader, Settings, LongOption, string_eq, config_loop}

module _ (json : Reader) where
  -- The option that an entry of the file stands for, in front of those of the later entries: an entry
  -- of the wrong type stands for none.
  abbrev pub entry : LongOption → Option json.Value → List (ℕ × Text) → List (ℕ × Text)
  entry o none rest = rest
  entry o (some val) rest =
      if o.has_arg
      then (elim (json.string_value val) [ some arg ↦ (o.val, arg) ∷ rest | none ↦ rest ])
      else if json.is_true val
      then (o.val, []) ∷ rest
      else rest

  abbrev pub entries : json.Value → List LongOption → List (ℕ × Text)
  entries config [] = []
  entries config (o ∷ os) =
      let rest = entries config os in
      if string_eq o.name "config" then rest else entry o (json.object_get config o.name) rest

module _ (json : Reader) (built : Algo → Bool) (strdup : Text → Option Text) (sysconf : ℤ)
    (copies : (t : Text) → strdup t ≡ some t) where
  abbrev and_loop :
      json.Value
      → List LongOption
      → Option (Settings json.Value × Bool)
      → Option (Settings json.Value)
  and_loop config os r = elim r [
    | none ↦ none
    | some (s, more) ↦ if more then config_loop json built strdup sysconf config os s else some s
  ]
