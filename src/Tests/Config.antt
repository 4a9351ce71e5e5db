-- ===== src/Tests/Config.antt =====
-- A configuration in a file and one that was detected, with a document that stands for itself.
use dexdeck.Common.{◌≡◌, ◌↔◌, refl, arith, ℕ, String, Option, none, some, [], ◌∷◌, ◌++◌, All}
use dexdeck.Common.Results.{Result, ok, err}
use dexdeck.Storage.{IoError}
use dexdeck.Config.{
  ConfigFile, ConfigLayer, ConfigError, layer_from, ProfileConfig, from_environment, literal, parse,
}
use dexdeck.Config.Validation.{
  validate, validate_file, validate_argv, validate_environment, valid_environment_name,
  sensitive_name,
}
use dexdeck.Config.Valid.{ValidLayer}
use dexdeck.Config.Valid.Layers.{validate_iff}
use dexdeck.Config.Resolver.{ResolvedConfig, default_config, merge, apply}
use dexdeck.Config.Precedence.{Layers, apply_all, Resolves, apply_all-Resolves}
use dexdeck.Config.Parse.{
  TomlEdit, ParsedConfig, parse_config, line_column, collect_warnings, check_table,
}
use dexdeck.Config.Loader.{
  ConfigSources, LoadedConfig, load, apply_optional, reject_shared_sdk_path,
}
use dexdeck.Config.Sources.{layers_of, file_layers, load-Resolves}
use dexdeck.Config.Secure.{Secure, load-Secure}
use dexdeck.Config.Failures.{Refused, Located, apply_all-refuses, parse_config-Located}

abbrev profile : ProfileConfig
profile = record {
  module_name = some ":app";
  variant = none;
  device_serial = none;
  gradle_arguments = [];
  launch_mode = none;
  launcher_activity = none;
  activity_name = none;
  deep_link_uri = none;
  intent_action = none;
  intent_categories = [];
  intent_extras = [];
  gradle_properties = ("flavor", literal "demo") ∷ [];
  environment = ("API_TOKEN", from_environment "CI_KEY") ∷ [];
  start_emulator_if_offline = none;
}

abbrev config_of : (buffer_mib : Option ℕ) → ConfigFile
config_of buffer_mib = record {
  schema_version = 1;
  project = some (record { default_module = some ":app"; default_variant = none });
  android = none;
  gradle = some (record { arguments = some ("gradlew" ∷ []) });
  ui = none;
  logcat = some (record { buffer_mib = buffer_mib; minimum_priority = none; default_scope = none });
  editor = none;
  profiles = ("demo", profile) ∷ [];
  commands = [];
}

abbrev file_layer : ConfigLayer
file_layer = layer_from (config_of (some 300))

abbrev small_layer : ConfigLayer
small_layer = layer_from (config_of (some 7))

validate-file_layer : validate file_layer "a.toml" ≡ ok tt
unfolding validate validate_argv validate_environment valid_environment_name sensitive_name
validate-file_layer = refl

validate_iff_example : (validate small_layer "b.toml" ≡ ok tt) ↔ ValidLayer small_layer
validate_iff_example = validate_iff small_layer "b.toml"

file_layer-ValidLayer : ValidLayer file_layer
file_layer-ValidLayer = (validate_iff file_layer "a.toml").0 validate-file_layer

small_layer_invalid : ValidLayer small_layer → ⊥
small_layer_invalid (g, (e, (size, rest))) = absurd (omega (arith, size))

abbrev two_layers : Layers
two_layers = (layer_from (config_of none), "low.toml") ∷ (file_layer, "a.toml") ∷ []

validate_low_layer : validate (layer_from (config_of none)) "low.toml" ≡ ok tt
unfolding validate validate_argv validate_environment valid_environment_name sensitive_name
validate_low_layer = refl

two_layers-ValidLayer : All (λ entry. ValidLayer entry.0) two_layers
two_layers-ValidLayer = (
  (validate_iff (layer_from (config_of none)) "low.toml").0 validate_low_layer,
  (file_layer-ValidLayer, tt),
)

apply_all-Resolves_example :
    (r : ResolvedConfig) × ((apply_all default_config two_layers ≡ ok r) × Resolves two_layers r)
apply_all-Resolves_example = apply_all-Resolves two_layers two_layers-ValidLayer

apply_all-refuses_example :
    (failure : ConfigError) × (Refused "b.toml" failure
      × (apply_all default_config
            (((file_layer, "a.toml") ∷ []) ++ (small_layer, "b.toml") ∷ two_layers)
          ≡ err failure))
apply_all-refuses_example =
    apply_all-refuses default_config ((file_layer, "a.toml") ∷ []) two_layers small_layer "b.toml"
      (file_layer-ValidLayer, tt) small_layer_invalid

-- Each text is the document of one configuration.
abbrev toml : TomlEdit
toml = record {
  DocumentMut = ConfigFile;
  Item = Unit {0};
  Table = Unit {0};
  parse_document = λ _. ok (config_of (some 300));
  from_document = λ document. ok document;
  to_string = λ _. "";
  as_table = λ _. tt;
  get = λ _ _. none;
  entries = λ _. [];
  as_table_like = λ _. none;
  item_span_start = λ _. none;
}

abbrev broken : TomlEdit
broken = record toml {
  parse_document = λ _. err (record { message = "no key"; span_start = some 3 });
}

parse_config-Located_example :
    Located "a.toml" (parse "a.toml" (line_column "\n\nx" 3).0 (line_column "\n\nx" 3).1 "no key")
parse_config-Located_example =
    parse_config-Located broken "a.toml" "\n\nx"
      (parse "a.toml" (line_column "\n\nx" 3).0 (line_column "\n\nx" 3).1 "no key")
      (unfold parse_config in refl)

line_column_third : line_column "\n\nx" 3 ≡ (3, 2)
unfolding line_column
line_column_third = refl

abbrev read_to_string : String → Result IoError String
read_to_string _ = ok ""

abbrev sources : ConfigSources
sources = record {
  detected = some (layer_from (config_of none));
  shared = some "a.toml";
  user = none;
  explicit = none;
  cli = none;
}

abbrev parsed_file : ParsedConfig toml
parsed_file = record {
  config = config_of (some 300);
  document = record { source = ""; document = config_of (some 300) };
  warnings =
      record {
        path = "logcat.buffer_mib";
        line = 1;
        column = 1;
        message = "Logcat buffers above 256 MiB may materially increase memory use";
      }
      ∷ [];
}

abbrev loaded_config : LoadedConfig toml
loaded_config = record {
  resolved = merge (merge default_config (layer_from (config_of none))) file_layer;
  documents = parsed_file ∷ [];
  warnings = parsed_file.warnings;
}

load-sources : load toml read_to_string read_to_string sources ≡ ok loaded_config
unfolding load reject_shared_sdk_path apply_optional apply parse_config validate_file validate
    validate_argv validate_environment valid_environment_name sensitive_name collect_warnings
    check_table line_column
load-sources = refl

load-Resolves_example :
    Resolves (layers_of toml read_to_string sources) loaded_config.resolved
    × All
        (λ entry. entry.0.android.sdk_path ≡ none)
        (file_layers toml read_to_string sources.shared)
load-Resolves_example =
    load-Resolves toml read_to_string read_to_string sources loaded_config load-sources

load-Secure_example : Secure loaded_config.resolved
load-Secure_example =
    load-Secure toml read_to_string read_to_string sources loaded_config load-sources
