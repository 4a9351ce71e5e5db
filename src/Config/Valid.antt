-- ===== src/Config/Valid.antt =====
-- What a valid layer is, told without the code of crates/dexdeck-config/src/schema.rs.
pub mod Entries
pub mod Layers
use Prim.Native.String
use mathlib.Core.List.{Memᴰ}
use dexdeck.Common.{
  ℕ, ◌≤◌, ◌≡◌, ◌≢◌, ◌↔◌, ◌⊎◌, inl, inr, refl, arith, ap, subst, String, Option, none, some, Bool,
  true, false, not, ◌&&◌, ◌||◌, Bool-cases, List, [], ◌∷◌, map, any, All, ◌==◌, leb,
}
use dexdeck.Common.Text.{
  codes, between, ascii_lower, is_ascii_letter, is_ascii_digit, contains_codes, Within, between_iff,
  contains_codes_iff,
}
use dexdeck.Common.Results.{ok, fail_if, fail_if_iff, both_iff, for_each_iff, ◌>>◌}
use dexdeck.Config.{
  ConfigLayer, ConfigError, validation, EnvironmentValue, literal, integer, boolean,
  from_environment, ProfileConfig, CommandConfig,
}
use dexdeck.Config.Validation.{
  all, name_codes, is_name_start, is_name_part, valid_environment_name, markers, sensitive_name,
  has_nul, no_executable, validate_argv, is_from_environment, bad_reference, ◌dot◌, validate_entry,
  validate_environment, validate_profile, validate_command, bad_size, validate,
}

abbrev pub Letter : ℕ → Type 0
Letter c = (65 ≤ c × c ≤ 90) ⊎ (97 ≤ c × c ≤ 122)

abbrev pub Digit : ℕ → Type 0
Digit c = 48 ≤ c × c ≤ 57

abbrev pub NameStart : ℕ → Type 0
NameStart c = (c ≡ 95) ⊎ Letter c

abbrev pub NamePart : ℕ → Type 0
NamePart c = NameStart c ⊎ Digit c

-- An underscore or a letter, then underscores, letters and digits.
abbrev pub NameCodes : List ℕ → Type 0
NameCodes [] = ⊥
NameCodes (first ∷ characters) = NameStart first × All NamePart characters

abbrev pub EnvironmentName : String → Type 0
EnvironmentName name = NameCodes (codes name)

-- One of the markers stands in the name, in any case.
abbrev pub Sensitive : String → Type 0
Sensitive name =
    (marker : String) × (Memᴰ marker markers × Within (codes marker) (map ascii_lower (codes name)))

abbrev pub Referenced : EnvironmentValue → Type 0
Referenced value = (from_env : String) × (value ≡ from_environment from_env)

abbrev pub ValidEntry : String × EnvironmentValue → Type 0
ValidEntry (name, value) =
    EnvironmentName name
    × ((Sensitive name → Referenced value)
        × ((from_env : String) → value ≡ from_environment from_env → EnvironmentName from_env))

abbrev pub ValidArgv : List String → Type 0
ValidArgv argv =
    ((executable : String) × ((arguments : List String) × ((argv ≡ executable ∷ arguments)
          × (executable ≢ String.[]))))
    × All (λ argument. All (λ c. c ≢ 0) (codes argument)) argv

abbrev pub ValidSize : ℕ → Type 0
ValidSize buffer_mib = 8 ≤ buffer_mib × buffer_mib ≤ 1024

abbrev pub ValidProfile : String × ProfileConfig → Type 0
ValidProfile (_, profile) =
    All ValidEntry profile.environment × All ValidEntry profile.gradle_properties

abbrev pub ValidCommand : String × CommandConfig → Type 0
ValidCommand (_, command) = ValidArgv command.command × All ValidEntry command.environment

abbrev pub IfSome : {A : Type 0} → (A → Type 0) → Option A → Type 0
IfSome P none = Unit
IfSome P (some a) = P a

abbrev pub ValidLayer : ConfigLayer → Type 0
ValidLayer layer =
    IfSome ValidArgv layer.gradle.arguments
    × (IfSome ValidArgv layer.editor.command
        × (IfSome ValidSize layer.logcat.buffer_mib
            × (All ValidProfile layer.profiles × All ValidCommand layer.commands)))
