-- ===== src/Config.antt =====
-- crates/dexdeck-config/src/schema.rs and config_error.rs: a configuration file, the layer it
-- makes, and the failures. A `BTreeMap` is the list of its entries in the order of the keys, a path
-- is its text.
pub mod Validation
pub mod Valid
pub mod Resolver
pub mod Precedence
pub mod Parse
pub mod Loader
pub mod Sources
pub mod Secure
pub mod Failures
use dexdeck.Common.{ℕ, String, Option, none, some, Bool, List, []}
use dexdeck.Common.Int.{ℤ}
use dexdeck.Protocol.Log.{LogPriority}
use dexdeck.Storage.{StorageError}

pub data KeymapPreset : Type 0 where
  default_keys vim : KeymapPreset

pub data UnicodeMode : Type 0 where
  auto unicode ascii : UnicodeMode

pub data LogScope : Type 0 where
  application device : LogScope

pub data LaunchMode : Type 0 where
  launcher activity deep_link : LaunchMode

pub data IntentExtra : Type 0 where
  text : String → IntentExtra
  integer : ℤ → IntentExtra
  boolean : Bool → IntentExtra

pub data EnvironmentValue : Type 0 where
  literal : String → EnvironmentValue
  integer : ℤ → EnvironmentValue
  boolean : Bool → EnvironmentValue
  from_environment : (from_env : String) → EnvironmentValue

pub record ProjectConfig : Type 0 where
  pub default_module : Option String
  pub default_variant : Option String

pub record AndroidConfig : Type 0 where
  pub sdk_path : Option String

pub record GradleConfig : Type 0 where
  pub arguments : Option (List String)

pub record UiConfig : Type 0 where
  pub keymap : Option KeymapPreset
  pub reduced_motion : Option Bool
  pub unicode_mode : Option UnicodeMode

pub record LogcatConfig : Type 0 where
  pub buffer_mib : Option ℕ
  pub minimum_priority : Option LogPriority
  pub default_scope : Option LogScope

pub record EditorConfig : Type 0 where
  pub command : Option (List String)

pub record ProfileConfig : Type 0 where
  pub module_name : Option String
  pub variant : Option String
  pub device_serial : Option String
  pub gradle_arguments : List String
  pub launch_mode : Option LaunchMode
  pub launcher_activity : Option String
  pub activity_name : Option String
  pub deep_link_uri : Option String
  pub intent_action : Option String
  pub intent_categories : List String
  pub intent_extras : List (String × IntentExtra)
  pub gradle_properties : List (String × EnvironmentValue)
  pub environment : List (String × EnvironmentValue)
  pub start_emulator_if_offline : Option Bool

pub record CommandConfig : Type 0 where
  pub command : List String
  pub working_directory : String
  pub environment : List (String × EnvironmentValue)

pub record ConfigFile : Type 0 where
  pub schema_version : ℕ
  pub project : Option ProjectConfig
  pub android : Option AndroidConfig
  pub gradle : Option GradleConfig
  pub ui : Option UiConfig
  pub logcat : Option LogcatConfig
  pub editor : Option EditorConfig
  pub profiles : List (String × ProfileConfig)
  pub commands : List (String × CommandConfig)

pub record ConfigLayer : Type 0 where
  pub project : ProjectConfig
  pub android : AndroidConfig
  pub gradle : GradleConfig
  pub ui : UiConfig
  pub logcat : LogcatConfig
  pub editor : EditorConfig
  pub profiles : List (String × ProfileConfig)
  pub commands : List (String × CommandConfig)

pub record ConfigWarning : Type 0 where
  pub path : String
  pub line : ℕ
  pub column : ℕ
  pub message : String

pub data ConfigError : Type 0 where
  parse : (path : String) (line column : ℕ) (message : String) → ConfigError
  unsupported_schema : (path : String) (expected found : ℕ) → ConfigError
  validation : (path field message : String) → ConfigError
  validation_at : (path field : String) (line column : ℕ) (message : String) → ConfigError
  shared_migration_confirmation_required : (path : String) → ConfigError
  storage : StorageError → ConfigError

abbrev unwrap_or : {A : Type 0} → A → Option A → A
unwrap_or default none = default
unwrap_or default (some a) = a

-- `ConfigLayer::from(config)`.
abbrev pub layer_from : ConfigFile → ConfigLayer
layer_from config = record {
  project = unwrap_or (record { default_module = none; default_variant = none }) config.project;
  android = unwrap_or (record { sdk_path = none }) config.android;
  gradle = unwrap_or (record { arguments = none }) config.gradle;
  ui = unwrap_or (record { keymap = none; reduced_motion = none; unicode_mode = none }) config.ui;
  logcat =
      unwrap_or (record { buffer_mib = none; minimum_priority = none; default_scope = none })
        config.logcat;
  editor = unwrap_or (record { command = none }) config.editor;
  profiles = config.profiles;
  commands = config.commands;
}
