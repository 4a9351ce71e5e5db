-- ===== src/Config/Validation.antt =====
-- crates/dexdeck-config/src/schema.rs: what is refused in a layer or a file.
use Prim.Native.String
use dexdeck.Common.{
  ℕ, String, Option, none, some, Bool, true, false, not, ◌&&◌, ◌||◌, List, [], ◌∷◌, map, any, ◌==◌,
}
use dexdeck.Common.Text.{
  codes, between, is_ascii_letter, is_ascii_digit, ascii_lower, contains_codes,
}
use dexdeck.Common.Results.{Result, ok, ◌>>◌, fail_if, for_each}
use dexdeck.Config.{
  ConfigFile, ConfigLayer, ConfigError, validation, unsupported_schema, EnvironmentValue, literal,
  integer, boolean, from_environment, ProfileConfig, CommandConfig, layer_from,
}

abbrev pub config_schema_version : ℕ
config_schema_version = 1

abbrev pub all : (ℕ → Bool) → List ℕ → Bool
all p [] = true
all p (c ∷ rest) = p c && all p rest

abbrev pub is_name_start : ℕ → Bool
is_name_start c = c == 95 || is_ascii_letter c

abbrev pub is_name_part : ℕ → Bool
is_name_part c = is_name_start c || is_ascii_digit c

abbrev pub name_codes : List ℕ → Bool
name_codes [] = false
name_codes (first ∷ characters) = is_name_start first && all is_name_part characters

unfoldable pub valid_environment_name : String → Bool
valid_environment_name name = name_codes (codes name)

abbrev pub markers : List String
markers = "token" ∷ "password" ∷ "secret" ∷ "credential" ∷ "private_key" ∷ "api_key" ∷ []

unfoldable pub sensitive_name : String → Bool
sensitive_name name =
    any (λ marker. contains_codes (map ascii_lower (codes name)) (codes marker)) markers

abbrev pub has_nul : String → Bool
has_nul argument = any (λ c. c == 0) (codes argument)

abbrev pub no_executable : List String → Bool
no_executable [] = true
no_executable (String.[] ∷ _) = true
no_executable (String.◌∷◌ _ _ ∷ _) = false

unfoldable pub validate_argv :
    (path field : String) → Option (List String) → Result ConfigError (Unit {0})
validate_argv path field none = ok tt
validate_argv path field (some argv) = do
  fail_if (no_executable argv)
      (validation path field "must contain a non-empty executable and argv entries")
  fail_if (any has_nul argv) (validation path field "must not contain NUL bytes")

abbrev pub is_from_environment : EnvironmentValue → Bool
is_from_environment (from_environment _) = true
is_from_environment (literal _) = false
is_from_environment (integer _) = false
is_from_environment (boolean _) = false

abbrev pub bad_reference : EnvironmentValue → Bool
bad_reference (from_environment from_env) = not (valid_environment_name from_env)
bad_reference (literal _) = false
bad_reference (integer _) = false
bad_reference (boolean _) = false

infixl 60 ◌dot◌
abbrev pub ◌dot◌ : String → String → String
a dot b = String.◌++◌ a (String.◌++◌ "." b)

abbrev pub validate_entry :
    (path field : String) → String × EnvironmentValue → Result ConfigError (Unit {0})
validate_entry path field (name, value) = do
  fail_if (not (valid_environment_name name))
      (validation path (field dot name) "environment variable name is invalid")
  fail_if (sensitive_name name && not (is_from_environment value))
      (validation path (field dot name) "secret-like values must use { from_env = \"NAME\" }")
  fail_if (bad_reference value) (
      validation path (field dot name dot "from_env")
        "referenced environment variable name is invalid")

unfoldable pub validate_environment :
    (path field : String) → List (String × EnvironmentValue) → Result ConfigError (Unit {0})
validate_environment path field environment = for_each (validate_entry path field) environment

abbrev pub validate_profile : String → String × ProfileConfig → Result ConfigError (Unit {0})
validate_profile path (name, profile) = do
  validate_environment path ("profiles" dot name dot "environment") profile.environment
  validate_environment path ("profiles" dot name dot "gradle_properties") profile.gradle_properties

abbrev pub validate_command : String → String × CommandConfig → Result ConfigError (Unit {0})
validate_command path (name, command) = do
  validate_argv path ("commands" dot name dot "command") (some command.command)
  validate_environment path ("commands" dot name dot "environment") command.environment

abbrev pub bad_size : Option ℕ → Bool
bad_size none = false
bad_size (some buffer_mib) = not (between 8 1024 buffer_mib)

-- `ConfigLayer::validate`.
unfoldable pub validate : ConfigLayer → String → Result ConfigError (Unit {0})
validate layer path = do
  validate_argv path "gradle.arguments" layer.gradle.arguments
  validate_argv path "editor.command" layer.editor.command
  fail_if (bad_size layer.logcat.buffer_mib)
      (validation path "logcat.buffer_mib" "must be between 8 and 1024 MiB")
  for_each (validate_profile path) layer.profiles
  for_each (validate_command path) layer.commands

-- `ConfigFile::validate`.
unfoldable pub validate_file : ConfigFile → String → Result ConfigError (Unit {0})
validate_file config path = do
  fail_if (not (config.schema_version == config_schema_version))
      (unsupported_schema path config_schema_version config.schema_version)
  validate (layer_from config) path
