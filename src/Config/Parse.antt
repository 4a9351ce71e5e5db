-- ===== src/Config/Parse.antt =====
-- crates/dexdeck-config/src/parse.rs: a configuration file from its text. Argument: the
-- `toml_edit` crate, with the deserialisation that `serde` derives.
use Prim.Native.Char.{Char, code, len_utf8}
use Prim.Native.String
use Prim.Native.String.{len, slice}
use dexdeck.Common.{
  ℕ, suc, ◌+◌, min, String, String-discrete, Option, none, some, Bool, false, List, [], ◌∷◌, ◌++◌,
  ◌==◌, ltb, if◌then◌else◌, contains,
}
use dexdeck.Common.Results.{Result, ok, ◌>>=◌, map_err}
use dexdeck.Config.{
  ConfigFile, LogcatConfig, ConfigWarning, ConfigError, parse, unsupported_schema, validation,
  validation_at, shared_migration_confirmation_required, storage,
}
use dexdeck.Config.Validation.{validate_file, ◌dot◌}

-- The message of an error of the crate, and the start of its span.
pub record TomlError : Type 0 where
  pub message : String
  pub span_start : Option ℕ

pub record TomlEdit : Type 1 where
  pub DocumentMut : Type 0
  pub Item : Type 0
  pub Table : Type 0
  pub parse_document : String → Result TomlError DocumentMut
  pub from_document : DocumentMut → Result TomlError ConfigFile
  pub to_string : DocumentMut → String
  pub as_table : DocumentMut → Table
  pub get : Table → String → Option Item
  pub entries : Table → List (String × Item)
  pub as_table_like : Item → Option Table
  pub item_span_start : Item → Option ℕ

pub record ConfigDocument (toml : TomlEdit) : Type 0 where
  pub source : String
  pub document : toml.DocumentMut

pub record ParsedConfig (toml : TomlEdit) : Type 0 where
  pub config : ConfigFile
  pub document : ConfigDocument toml
  pub warnings : List ConfigWarning

abbrev newlines : String → ℕ
newlines String.[] = 0
newlines (String.◌∷◌ c rest) = if code c == 10 then suc (newlines rest) else newlines rest

-- The bytes after the last newline, after `n` bytes of a line.
abbrev last_line : ℕ → String → ℕ
last_line n String.[] = n
last_line n (String.◌∷◌ c rest) = last_line (if code c == 10 then 0 else n + len_utf8 c) rest

unfoldable pub line_column : String → ℕ → ℕ × ℕ
line_column input offset =
    let before = slice input 0 (min offset (len input)) in
    (newlines before + 1, last_line 0 before + 1)

abbrev push_front : Char → List String → List String
push_front c [] = String.◌∷◌ c String.[] ∷ []
push_front c (first ∷ rest) = String.◌∷◌ c first ∷ rest

-- `field.split('.')`.
abbrev components : String → List String
components String.[] = String.[] ∷ []
components (String.◌∷◌ c rest) =
    let later = components rest in if code c == 46 then String.[] ∷ later else push_front c later

abbrev or_start : Option ℕ → ℕ
or_start none = 0
or_start (some start) = start

module _ (toml : TomlEdit) where
  abbrev span_of : Option toml.Item → ℕ
  span_of none = 0
  span_of (some item) = or_start (toml.item_span_start item)

  abbrev table_of : Option toml.Item → Option toml.Table
  table_of none = none
  table_of (some item) = toml.as_table_like item

  abbrev pub parse_error : String → String → TomlError → ConfigError
  parse_error path input e =
      let (line, column) = line_column input (or_start e.span_start) in
      parse path line column e.message

  -- The loop over the components of the field: the last item that was looked up.
  abbrev locate : toml.Table → List String → Option toml.Item
  locate table [] = none
  locate table (component ∷ []) = toml.get table component
  locate table (component ∷ next ∷ rest) =
      let found = toml.get table component in
      elim (table_of found) [ some inner ↦ locate inner (next ∷ rest) | none ↦ found ]

  unfoldable pub attach_validation_span : ConfigError → String → toml.DocumentMut → ConfigError
  attach_validation_span (validation path field message) input document =
      let start = span_of (locate (toml.as_table document) (components field)) in
      let (line, column) = line_column input start in validation_at path field line column message
  attach_validation_span (parse path line column message) input document =
      parse path line column message
  attach_validation_span (unsupported_schema path expected found) input document =
      unsupported_schema path expected found
  attach_validation_span (validation_at path field line column message) input document =
      validation_at path field line column message
  attach_validation_span (shared_migration_confirmation_required path) input document =
      shared_migration_confirmation_required path
  attach_validation_span (storage e) input document = storage e

  abbrev prefixed : (prefix key : String) → String
  prefixed String.[] key = key
  prefixed (String.◌∷◌ c rest) key = String.◌∷◌ c rest dot key

  abbrev unknown_field : String → (path : String) → toml.Item → ConfigWarning
  unknown_field input path item =
      let (line, column) = line_column input (or_start (toml.item_span_start item)) in
      record {
        path = path;
        line = line;
        column = column;
        message = String.◌++◌ "unknown configuration field " path;
      }

  abbrev check_entries :
      String
      → (prefix : String) (allowed : List String) → List (String × toml.Item)
      → List ConfigWarning
  check_entries input prefix allowed [] = []
  check_entries input prefix allowed ((key, item) ∷ rest) =
      let later = check_entries input prefix allowed rest in
      if contains String-discrete key allowed
      then later
      else unknown_field input (prefixed prefix key) item ∷ later

  unfoldable pub check_table :
      String → toml.Table → (prefix : String) (allowed : List String) → List ConfigWarning
  check_table input table prefix allowed = check_entries input prefix allowed (toml.entries table)

  abbrev check_named_section :
      String → Option toml.Item → (path : String) (allowed : List String) → List ConfigWarning
  check_named_section input item path allowed = elim (table_of item) [
    | some table ↦ check_table input table path allowed
    | none ↦ []
  ]

  abbrev check_sections :
      String
      → (path : String) (allowed : List String) → List (String × toml.Item)
      → List ConfigWarning
  check_sections input path allowed [] = []
  check_sections input path allowed ((name, item) ∷ rest) =
      check_named_section input (some item) (path dot name) allowed
      ++ check_sections input path allowed rest

  abbrev check_dynamic_sections :
      String → Option toml.Item → (path : String) (allowed : List String) → List ConfigWarning
  check_dynamic_sections input item path allowed = elim (table_of item) [
    | some table ↦ check_sections input path allowed (toml.entries table)
    | none ↦ []
  ]

abbrev root_fields : List String
root_fields =
    "schema_version" ∷ "project" ∷ "gradle" ∷ "ui" ∷ "logcat" ∷ "editor" ∷ "profiles" ∷ "commands"
    ∷ []

abbrev profile_fields : List String
profile_fields =
    "module" ∷ "variant" ∷ "device" ∷ "launch_mode" ∷ "launcher_activity" ∷ "activity" ∷ "deep_link"
    ∷ "intent_action" ∷ "intent_categories" ∷ "intent_extras" ∷ "gradle_properties" ∷ "environment"
    ∷ "start_emulator_if_offline" ∷ []

abbrev large_buffer : Option LogcatConfig → Bool
large_buffer none = false
large_buffer (some logcat) = elim logcat.buffer_mib [
  | some buffer_mib ↦ ltb 256 buffer_mib
  | none ↦ false
]

module _ (toml : TomlEdit) where
  unfoldable pub collect_warnings : String → toml.DocumentMut → List ConfigWarning
  collect_warnings input document =
      let root = toml.as_table document in
      check_table toml input root String.[] root_fields
      ++ check_named_section toml input (toml.get root "project") "project"
          ("default_module" ∷ "default_variant" ∷ [])
      ++ check_named_section toml input (toml.get root "gradle") "gradle" ("arguments" ∷ [])
      ++ check_named_section toml input (toml.get root "ui") "ui"
          ("keymap" ∷ "reduced_motion" ∷ "unicode" ∷ [])
      ++ check_named_section toml input (toml.get root "logcat") "logcat"
          ("buffer_mib" ∷ "minimum_priority" ∷ "default_scope" ∷ [])
      ++ check_named_section toml input (toml.get root "editor") "editor" ("command" ∷ [])
      ++ check_dynamic_sections toml input (toml.get root "profiles") "profiles" profile_fields
      ++ check_dynamic_sections toml input (toml.get root "commands") "commands"
          ("command" ∷ "working_directory" ∷ "environment" ∷ [])

  abbrev logcat_item : toml.DocumentMut → Option toml.Item
  logcat_item document = elim (table_of toml (toml.get (toml.as_table document) "logcat")) [
    | some table ↦ toml.get table "buffer_mib"
    | none ↦ none
  ]

  abbrev large_buffer_warning : String → toml.DocumentMut → ConfigWarning
  large_buffer_warning input document =
      let (line, column) = line_column input (span_of toml (logcat_item document)) in
      record {
        path = "logcat.buffer_mib";
        line = line;
        column = column;
        message = "Logcat buffers above 256 MiB may materially increase memory use";
      }

  unfoldable pub parse_config : (path input : String) → Result ConfigError (ParsedConfig toml)
  parse_config path input = do
    document ← map_err (parse_error toml path input) (toml.parse_document input)
    config ← map_err (parse_error toml path input) (toml.from_document document)
    checked ←
        map_err (λ e. attach_validation_span toml e input document) (validate_file config path)
    ok (record {
      config = config;
      document = record { source = input; document = document };
      warnings =
          collect_warnings input document
          ++ (if large_buffer config.logcat then large_buffer_warning input document ∷ [] else []);
    })
