-- ===== src/Secret.antt =====
-- crates/dexdeck-core/src/secret.rs: the values that must not be shown, and the patterns they are
-- found by. Arguments: the environment of the process, and `sort_unstable_by_key`.

pub mod Redaction
use dexdeck.Common.{ℕ, String, String-discrete, List, [], ◌∷◌, ◌++◌, contains, if◌then◌else◌}

-- An `OsString`: a text, or bytes that are none.
pub data OsString : Type 0 where
  unicode : String → OsString
  raw : List ℕ → OsString

pub record SensitiveValue : Type 0 where
  pub value : OsString

pub data SecretError : Type 0 where
  missing_environment_variable : (name : String) → SecretError

pub record SecretRedactor : Type 0 where
  pub patterns : List String

module _ (sort_longest_first : List String → List String) where
  abbrev pub add_pattern : SecretRedactor → String → SecretRedactor
  add_pattern redactor String.[] = redactor
  add_pattern redactor (String.◌∷◌ c rest) =
      if contains String-discrete (String.◌∷◌ c rest) redactor.patterns
      then redactor
      else record { patterns = sort_longest_first (redactor.patterns ++ String.◌∷◌ c rest ∷ []) }

  abbrev pub register_os : SecretRedactor → OsString → SecretRedactor
  register_os redactor (raw bytes) = redactor
  register_os redactor (unicode text) = add_pattern redactor text

  unfoldable pub register : SecretRedactor → SensitiveValue → SecretRedactor
  register redactor v = register_os redactor v.value
