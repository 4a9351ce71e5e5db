-- ===== src/Config/Sources.antt =====
-- crates/dexdeck-config/src/loader.rs: a loaded configuration is what its sources resolve to in the
-- order of their precedence.
use dexdeck.Common.{
  ◌≡◌, refl, ap, ◌∙◌, arith, String, Option, none, some, Bool, true, false, Option-cases, [], ◌∷◌,
  ◌++◌, inl, inr, All,
}
use dexdeck.Common.Results.{
  Result, ok, err, ◌>>=◌, Result-cases, bind_ok, fail_if_iff, ok_injective,
}
use dexdeck.Storage.{IoError}
use dexdeck.Config.{AndroidConfig, ConfigLayer, ConfigError, layer_from, unwrap_or}
use dexdeck.Config.Resolver.{ResolvedConfig, default_config, apply}
use dexdeck.Config.Precedence.{Layers, apply_all, Resolves, resolved-Resolves}
use dexdeck.Config.Parse.{TomlEdit, ParsedConfig, parse_config}
use dexdeck.Config.Loader.{
  ConfigSources, LoadedConfig, has_sdk_path, refuse_read, refuse_parsed, reject_shared_sdk_path,
  reject_shared, apply_source, apply_optional, apply_given, load,
}

abbrev pub given_layers : Option ConfigLayer → String → Layers
given_layers none source_path = []
given_layers (some layer) source_path = (layer, source_path) ∷ []

apply_all-append :
    (r next : ResolvedConfig) (front back : Layers)
    → apply_all r front ≡ ok next
    → apply_all r (front ++ back) ≡ apply_all next back
unfolding apply_all
apply_all-append r next [] back h = ap (λ c. apply_all c back) (ground arith)
apply_all-append r next ((l, path) ∷ front) back h =
    let (between, (e, rest)) = bind_ok (apply r l path) (λ c. apply_all c front) h in
    rw e (apply_all-append between next front back rest)

apply_all_one :
    (r next : ResolvedConfig) (l : ConfigLayer) (path : String)
    → apply r l path ≡ ok next
    → apply_all r ((l, path) ∷ []) ≡ ok next
unfolding apply_all
apply_all_one r next l path h = rw h refl

no_sdk_path :
    (o : Option AndroidConfig)
    → has_sdk_path o ≡ false
    → (unwrap_or (record { sdk_path = none }) o).sdk_path ≡ none
no_sdk_path none h = refl
no_sdk_path (some android) h = elim (Option-cases android.sdk_path) [
  | inl e ↦ e
  | inr (path, e) ↦ absurd (ground (arith, e))
]

module _ (toml : TomlEdit) (read_to_string : String → Result IoError String) where
  abbrev parsed_layer : String → Result ConfigError (ParsedConfig toml) → Layers
  parsed_layer path (ok parsed) = (layer_from parsed.config, path) ∷ []
  parsed_layer path (err e) = []

  abbrev read_layer : String → Result IoError String → Layers
  read_layer path (ok source) = parsed_layer path (parse_config toml path source)
  read_layer path (err e) = []

  -- The layer of a file that can be read and parsed.
  abbrev pub file_layers : Option String → Layers
  file_layers none = []
  file_layers (some path) = read_layer path (read_to_string path)

  -- From the lowest to the highest precedence.
  abbrev pub layers_of : ConfigSources → Layers
  layers_of sources =
      given_layers sources.detected "<detected>"
      ++ (file_layers sources.shared
          ++ (file_layers sources.user
              ++ (file_layers sources.explicit ++ given_layers sources.cli "<cli>")))

  apply_given-ok :
      (so_far next : LoadedConfig toml) (o : Option ConfigLayer) (source_path : String)
      → apply_given toml read_to_string so_far o source_path ≡ ok next
      → apply_all so_far.resolved (given_layers o source_path) ≡ ok next.resolved
  apply_given-ok so_far next none source_path h =
      unfold apply_all in ap (λ c. ok c.resolved) (ok_injective h)
  apply_given-ok so_far next (some layer) source_path h =
      let (r, (e, rest)) = bind_ok (apply so_far.resolved layer source_path) _ h in
      apply_all_one so_far.resolved next.resolved layer source_path
        (e ∙ ap (λ c. ok c.resolved) (ok_injective rest))

  apply_source-ok :
      (so_far next : LoadedConfig toml) (path source : String)
      → apply_source toml read_to_string so_far path source ≡ ok next
      → apply_all so_far.resolved (parsed_layer path (parse_config toml path source))
        ≡ ok next.resolved
  apply_source-ok so_far next path source h =
      let (parsed, (e, rest)) = bind_ok (parse_config toml path source) _ h in
      let (r, (e2, rest2)) =
        bind_ok (apply so_far.resolved (layer_from parsed.config) path) _ rest in
      rw e (
        apply_all_one so_far.resolved next.resolved (layer_from parsed.config) path
          (e2 ∙ ap (λ c. ok c.resolved) (ok_injective rest2)))

  apply_optional-ok :
      (so_far next : LoadedConfig toml) (o : Option String) (required : Bool)
      → apply_optional toml read_to_string so_far o required ≡ ok next
      → apply_all so_far.resolved (file_layers o) ≡ ok next.resolved
  unfolding apply_optional apply_all
  apply_optional-ok so_far next none required h = ap (λ c. ok c.resolved) (ok_injective h)
  apply_optional-ok so_far next (some path) required h = elim (Result-cases (read_to_string path)) [
    | inl (source, e) ↦ rw e (apply_source-ok so_far next path source (ground (arith, e)))
    | inr (failure, e) ↦ rw e (ap (λ c. ok c.resolved) (ok_injective (skipped failure e)))
  ]
    where
      skipped :
          (failure : IoError)
          → read_to_string path ≡ err failure
          → ◌≡◌ {A = Result ConfigError (LoadedConfig toml)} (ok so_far) (ok next)
      skipped failure e = ground (arith, e)

  shared_parsed :
      (path : String) (r : Result ConfigError (ParsedConfig toml))
      → (r >>= refuse_parsed toml read_to_string path) ≡ ok tt
      → All (λ entry. entry.0.android.sdk_path ≡ none) (parsed_layer path r)
  shared_parsed path (ok parsed) h = (no_sdk_path parsed.config.android ((fail_if_iff _ _).0 h), tt)
  shared_parsed path (err e) h = tt

  shared_read :
      (path : String) (r : Result IoError String)
      → refuse_read toml read_to_string path r ≡ ok tt
      → All (λ entry. entry.0.android.sdk_path ≡ none) (read_layer path r)
  shared_read path (ok source) h = shared_parsed path (parse_config toml path source) h
  shared_read path (err e) h = tt

  -- The shared file sets no SDK path.
  shared_sdk :
      (o : Option String)
      → reject_shared toml read_to_string o ≡ ok tt
      → All (λ entry. entry.0.android.sdk_path ≡ none) (file_layers o)
  unfolding reject_shared_sdk_path
  shared_sdk none h = tt
  shared_sdk (some path) h = shared_read path (read_to_string path) h

module _ (toml : TomlEdit) (checked_read read_to_string : String → Result IoError String) where
  -- The steps of `load` come to the layers one after the other.
  pub load-layers :
      (sources : ConfigSources) (loaded : LoadedConfig toml)
      → load toml checked_read read_to_string sources ≡ ok loaded
      → (reject_shared toml checked_read sources.shared ≡ ok tt)
        × (apply_all default_config (layers_of toml read_to_string sources) ≡ ok loaded.resolved)
  unfolding load
  load-layers sources loaded h =
      let (a, (ea, ha)) = bind_ok _ _ h in
      let (u, (eu, hu)) = bind_ok _ _ ha in
      let (b, (eb, hb)) = bind_ok _ _ hu in
      let (c, (ec, hc)) = bind_ok _ _ hb in
      let (d, (ed, hd)) = bind_ok _ _ hc in
      (
        eu,
        apply_all-append _ _ _ _
              (apply_given-ok toml read_to_string _ a sources.detected "<detected>" ea)
            ∙ apply_all-append _ _ _ _
                (apply_optional-ok toml read_to_string a b sources.shared false eb)
            ∙ apply_all-append _ _ _ _
                (apply_optional-ok toml read_to_string b c sources.user false ec)
            ∙ apply_all-append _ _ _ _
                (apply_optional-ok toml read_to_string c d sources.explicit true ed)
            ∙ apply_given-ok toml read_to_string d loaded sources.cli "<cli>" hd,
      )

  -- If loading succeeds, each value is that of the source with the highest precedence that sets it:
  -- the command line, the explicit file, the user's file, the shared file and what was detected, in
  -- this order, or else the default; and the shared file, as it is read to be checked, sets no SDK path.
  pub load-Resolves :
      (sources : ConfigSources) (loaded : LoadedConfig toml)
      → load toml checked_read read_to_string sources ≡ ok loaded
      → Resolves (layers_of toml read_to_string sources) loaded.resolved
        × All
            (λ entry. entry.0.android.sdk_path ≡ none)
            (file_layers toml checked_read sources.shared)
  load-Resolves sources loaded h =
      let (allowed, applied) = load-layers sources loaded h in
      (
        resolved-Resolves (layers_of toml read_to_string sources) loaded.resolved applied,
        shared_sdk toml checked_read sources.shared allowed,
      )
