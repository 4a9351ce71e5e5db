-- ===== src/Config/Loader.antt =====
-- crates/dexdeck-config/src/loader.rs: the configuration of a project from its sources. Arguments:
-- `toml_edit`, and `std::fs::read_to_string`.
use dexdeck.Common.{
  String, Option, none, some, Bool, true, false, not, ◌&&◌, List, [], ◌∷◌, ◌++◌, if◌then◌else◌,
}
use dexdeck.Common.Results.{Result, ok, err, ◌>>=◌, fail_if}
use dexdeck.Storage.{IoError, ErrorKind, not_found, invalid_input, other, io}
use dexdeck.Config.{
  AndroidConfig, ConfigLayer, ConfigWarning, ConfigError, storage, validation, layer_from,
}
use dexdeck.Config.Resolver.{ResolvedConfig, default_config, apply}
use dexdeck.Config.Parse.{TomlEdit, ParsedConfig, parse_config}

pub record ConfigSources : Type 0 where
  pub detected : Option ConfigLayer
  pub shared : Option String
  pub user : Option String
  pub explicit : Option String
  pub cli : Option ConfigLayer

pub record LoadedConfig (toml : TomlEdit) : Type 0 where
  pub resolved : ResolvedConfig
  pub documents : List (ParsedConfig toml)
  pub warnings : List ConfigWarning

abbrev pub is_not_found : ErrorKind → Bool
is_not_found not_found = true
is_not_found invalid_input = false
is_not_found other = false

abbrev pub has_sdk_path : Option AndroidConfig → Bool
has_sdk_path none = false
has_sdk_path (some android) = elim android.sdk_path [ some path ↦ true | none ↦ false ]

module _ (toml : TomlEdit) (read_to_string : String → Result IoError String) where
  abbrev pub refuse_parsed : (path : String) → ParsedConfig toml → Result ConfigError (Unit {0})
  refuse_parsed path parsed = fail_if (has_sdk_path parsed.config.android) (
      validation path "android.sdk_path"
        "machine-specific SDK paths are not allowed in shared configuration")

  abbrev pub refuse_read : (path : String) → Result IoError String → Result ConfigError (Unit {0})
  refuse_read path (ok source) = parse_config toml path source >>= refuse_parsed path
  refuse_read path (err e) = if is_not_found e.kind then ok tt else err (storage (io path e))

  unfoldable pub reject_shared_sdk_path : (path : String) → Result ConfigError (Unit {0})
  reject_shared_sdk_path path = refuse_read path (read_to_string path)

  abbrev pub reject_shared : Option String → Result ConfigError (Unit {0})
  reject_shared none = ok tt
  reject_shared (some path) = reject_shared_sdk_path path

  -- The configuration with the documents and the warnings so far.
  abbrev pub apply_source :
      LoadedConfig toml → (path source : String) → Result ConfigError (LoadedConfig toml)
  apply_source so_far path source = do
    parsed ← parse_config toml path source
    resolved ← apply so_far.resolved (layer_from parsed.config) path
    ok (record {
      resolved = resolved;
      documents = so_far.documents ++ parsed ∷ [];
      warnings = so_far.warnings ++ parsed.warnings;
    })

  unfoldable pub apply_optional :
      LoadedConfig toml → Option String → (required : Bool) → Result ConfigError (LoadedConfig toml)
  apply_optional so_far none required = ok so_far
  apply_optional so_far (some path) required = elim (read_to_string path) [
    | ok source ↦ apply_source so_far path source
    | err e ↦ if not required && is_not_found e.kind then ok so_far else err (storage (io path e))
  ]

  -- The layers that are given as values.
  abbrev pub apply_given :
      LoadedConfig toml → Option ConfigLayer → String → Result ConfigError (LoadedConfig toml)
  apply_given so_far none source_path = ok so_far
  apply_given so_far (some layer) source_path = do
    resolved ← apply so_far.resolved layer source_path
    ok (record so_far { resolved = resolved })

  abbrev pub nothing_loaded : LoadedConfig toml
  nothing_loaded = record { resolved = default_config; documents = []; warnings = [] }

-- The shared file is read twice, and may have changed in between: `checked_read` is what the reading
-- of `reject_shared_sdk_path` finds, `read_to_string` what the readings of `apply_optional` find.
module _ (toml : TomlEdit) (checked_read read_to_string : String → Result IoError String) where
  unfoldable pub load : ConfigSources → Result ConfigError (LoadedConfig toml)
  load sources = do
    with_detected ←
        apply_given toml read_to_string (nothing_loaded toml read_to_string) sources.detected
          "<detected>"
    shared_allowed ← reject_shared toml checked_read sources.shared
    with_shared ← apply_optional toml read_to_string with_detected sources.shared false
    with_user ← apply_optional toml read_to_string with_shared sources.user false
    with_explicit ← apply_optional toml read_to_string with_user sources.explicit true
    apply_given toml read_to_string with_explicit sources.cli "<cli>"
