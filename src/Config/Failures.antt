-- ===== src/Config/Failures.antt =====
-- crates/dexdeck-config: what the failures say, of a layer that is refused and of a file that
-- cannot be taken.
use dexdeck.Common.{
  ◌≡◌, ◌≢◌, refl, ◌⊎◌, subst, arith, ℕ, ◌≤◌, String, Option, none, some, Bool, true, false, not,
  List, [], ◌∷◌, ◌++◌, inl, inr, All, ◌==◌,
}
use dexdeck.Common.Results.{
  Result, ok, err, ◌>>=◌, ◌>>◌, fail_if, for_each, map_err, Result-cases, err_injective,
}
use dexdeck.Config.{
  ConfigLayer, ConfigFile, ConfigError, parse, unsupported_schema, validation, validation_at,
  shared_migration_confirmation_required, storage, EnvironmentValue, ProfileConfig, CommandConfig,
  layer_from,
}
use dexdeck.Config.Validation.{
  validate_argv, validate_entry, validate_environment, validate_profile, validate_command, validate,
  validate_file, config_schema_version,
}
use dexdeck.Config.Valid.{ValidLayer}
use dexdeck.Config.Valid.Layers.{validate_iff}
use dexdeck.Config.Resolver.{ResolvedConfig, merge, apply}
use dexdeck.Config.Precedence.{Layers, apply_all, apply-valid}
use dexdeck.Config.Parse.{
  TomlEdit, TomlError, parse_error, attach_validation_span, line_column, parse_config,
}

-- Each failure of a check satisfies `P`.
unfoldable Fails : (P : ConfigError → Type 0) → Result ConfigError (Unit {0}) → Type 0
Fails P (ok tt) = Unit
Fails P (err failure) = P failure

abbrev pub Refused : (path : String) → ConfigError → Type 0
Refused path failure =
    (field : String) × ((message : String) × (failure ≡ validation path field message))

module _ (P : ConfigError → Type 0) where
  fail_if-Fails : (b : Bool) (failure : ConfigError) → P failure → Fails P (fail_if b failure)
  unfolding Fails
  fail_if-Fails true failure p = p
  fail_if-Fails false failure p = tt

  both-Fails :
      (first second : Result ConfigError (Unit {0}))
      → Fails P first
      → Fails P second
      → Fails P (first >> second)
  unfolding Fails
  both-Fails (ok tt) second p q = q
  both-Fails (err failure) second p q = p

  for_each-Fails :
      {A : Type 0} (f : A → Result ConfigError (Unit {0})) (xs : List A)
      → ((x : A) → Fails P (f x))
      → Fails P (for_each f xs)
  unfolding Fails
  for_each-Fails f [] each = tt
  for_each-Fails f (x ∷ xs) each =
      both-Fails (f x) (for_each f xs) (each x) (for_each-Fails f xs each)

module _ (path : String) where
  refusal-Fails :
      (b : Bool) (field message : String)
      → Fails (Refused path) (fail_if b (validation path field message))
  refusal-Fails b field message =
      fail_if-Fails (Refused path) b (validation path field message) (field, (message, refl))

  argv-Fails :
      (field : String) (o : Option (List String))
      → Fails (Refused path) (validate_argv path field o)
  unfolding validate_argv Fails
  argv-Fails field none = tt
  argv-Fails field (some argv) = search (both-Fails, refusal-Fails)

  entry-Fails :
      (field : String) (entry : String × EnvironmentValue)
      → Fails (Refused path) (validate_entry path field entry)
  entry-Fails field (name, value) = search (both-Fails, refusal-Fails)

  environment-Fails :
      (field : String) (environment : List (String × EnvironmentValue))
      → Fails (Refused path) (validate_environment path field environment)
  unfolding validate_environment
  environment-Fails field environment =
      for_each-Fails (Refused path) _ environment (entry-Fails field)

  profile-Fails :
      (entry : String × ProfileConfig) → Fails (Refused path) (validate_profile path entry)
  profile-Fails (name, profile) = search (both-Fails, environment-Fails)

  command-Fails :
      (entry : String × CommandConfig) → Fails (Refused path) (validate_command path entry)
  command-Fails (name, command) = search (both-Fails, argv-Fails, environment-Fails)

  validate-Fails : (layer : ConfigLayer) → Fails (Refused path) (validate layer path)
  unfolding validate
  validate-Fails layer =
      search (both-Fails, argv-Fails, refusal-Fails, for_each-Fails, profile-Fails, command-Fails)
        depth 9

apply-refuses :
    (r : ResolvedConfig) (bad : ConfigLayer) (path : String)
    → (ValidLayer bad → ⊥)
    → (failure : ConfigError) × (Refused path failure × (apply r bad path ≡ err failure))
unfolding apply Fails
apply-refuses r bad path invalid = elim (Result-cases (validate bad path)) [
  | inl (tt, e) ↦ absurd (invalid ((validate_iff bad path).0 e))
  | inr (failure, e) ↦
      (failure, (subst (Fails (Refused path)) e (validate-Fails path bad), ground (arith, e)))
]

-- If all layers before it are valid, an invalid layer ends the resolution with a failure that
-- names the path of this layer, whatever comes after it.
pub apply_all-refuses :
    (r : ResolvedConfig) (front back : Layers) (bad : ConfigLayer) (path : String)
    → All (λ entry. ValidLayer entry.0) front
    → (ValidLayer bad → ⊥)
    → (failure : ConfigError) × (Refused path failure
        × (apply_all r (front ++ (bad, path) ∷ back) ≡ err failure))
unfolding apply_all
apply_all-refuses r [] back bad path valid invalid =
    let (failure, (names, e)) = apply-refuses r bad path invalid in
    (failure, (names, ground (arith, e)))
apply_all-refuses r ((l, p) ∷ front) back bad path (here, rest) invalid =
    let (failure, (names, e)) = apply_all-refuses (merge r l) front back bad path rest invalid in
    (failure, (names, ground (arith, apply-valid r l p here, e)))

-- The failure names the file, and the place in it unless the schema is another one.
abbrev pub Located : (path : String) → ConfigError → Type 0
Located path (parse at line column message) = (at ≡ path) × (1 ≤ line × 1 ≤ column)
Located path (unsupported_schema at expected found) = (at ≡ path) × ((expected ≡ 1) × (found ≢ 1))
Located path (validation_at at field line column message) = (at ≡ path) × (1 ≤ line × 1 ≤ column)
Located path (validation at field message) = ⊥
Located path (shared_migration_confirmation_required at) = ⊥
Located path (storage failure) = ⊥

line_column_from_one :
    (input : String) (offset : ℕ)
    → (1 ≤ (line_column input offset).0) × (1 ≤ (line_column input offset).1)
unfolding line_column
line_column_from_one input offset = (omega arith, omega arith)

-- What `validate_file` can fail with.
abbrev Checked : (path : String) → ConfigError → Type 0
Checked path failure =
    Refused path failure
    ⊎ ((found : ℕ) × ((failure ≡ unsupported_schema path 1 found) × (found ≢ 1)))

Fails-weaken :
    {P Q : ConfigError → Type 0} (r : Result ConfigError (Unit {0}))
    → ((failure : ConfigError) → P failure → Q failure)
    → Fails P r
    → Fails Q r
unfolding Fails
Fails-weaken (ok tt) f h = tt
Fails-weaken (err failure) f h = f failure h

schema-Fails :
    (path : String) (found : ℕ) (b : Bool)
    → (found == 1) ≡ b
    → Fails (Checked path) (fail_if (not b) (unsupported_schema path config_schema_version found))
unfolding Fails
schema-Fails path found true e = tt
schema-Fails path found false e = inr (found, (refl, ground arith))

validate_file-Fails :
    (config : ConfigFile) (path : String) → Fails (Checked path) (validate_file config path)
unfolding validate_file
validate_file-Fails config path =
    both-Fails (Checked path) _ _
      (schema-Fails path config.schema_version (config.schema_version == 1) refl)
      (Fails-weaken {P = Refused path} {Q = Checked path} (validate (layer_from config) path)
        (λ failure h. inl h) (validate-Fails path (layer_from config)))

module _ (toml : TomlEdit) where
  step_Located :
      {A B : Type 0} {path : String} (r : Result ConfigError A) (later : A → Result ConfigError B)
      → ((failure : ConfigError) → r ≡ err failure → Located path failure)
      → ((a : A) (failure : ConfigError) → later a ≡ err failure → Located path failure)
      → (failure : ConfigError) → (r >>= later) ≡ err failure
      → Located path failure
  step_Located (ok a) later p q failure h = q a failure h
  step_Located (err e) later p q failure h = p failure cc

  attached-Located :
      (path input : String) (document : toml.DocumentMut) (failure : ConfigError)
      → Checked path failure
      → Located path (attach_validation_span toml failure input document)
  unfolding attach_validation_span
  attached-Located path input document failure (inl (field, (message, e))) =
      rw e (refl, line_column_from_one input _)
  attached-Located path input document failure (inr (found, (e, n))) = rw e (refl, (refl, n))

  Checked-Located :
      (path input : String) (document : toml.DocumentMut) (r : Result ConfigError (Unit {0}))
      → Fails (Checked path) r
      → (failure : ConfigError)
      → map_err (λ e. attach_validation_span toml e input document) r ≡ err failure
      → Located path failure
  unfolding Fails
  Checked-Located path input document (ok tt) checked failure h = cc
  Checked-Located path input document (err e) checked failure h =
      subst (Located path) (err_injective h) (attached-Located path input document e checked)

  parse_error-Located :
      (path input : String) {A : Type 0} (r : Result TomlError A) (failure : ConfigError)
      → map_err (parse_error toml path input) r ≡ err failure
      → Located path failure
  parse_error-Located path input (ok a) failure h = cc
  parse_error-Located path input (err e) failure h =
      subst (Located path) (err_injective h) (refl, line_column_from_one input _)

  -- Whatever keeps a file's text from being taken, the failure names the file; it is either a
  -- schema version other than 1, or it gives a line and a column, both counted from 1.
  pub parse_config-Located :
      (path input : String) (failure : ConfigError)
      → parse_config toml path input ≡ err failure
      → Located path failure
  unfolding parse_config
  parse_config-Located path input failure h =
      step_Located (map_err (parse_error toml path input) (toml.parse_document input)) _
        (parse_error-Located path input (toml.parse_document input))
        (λ document.
          step_Located (map_err (parse_error toml path input) (toml.from_document document)) _
            (parse_error-Located path input (toml.from_document document))
            (λ config.
              step_Located _ _
                (Checked-Located path input document (validate_file config path)
                  (validate_file-Fails config path))
                (λ checked other e. cc)))
        failure h
