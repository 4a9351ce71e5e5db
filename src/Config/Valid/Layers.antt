-- ===== src/Config/Valid/Layers.antt =====
-- crates/dexdeck-config/src/schema.rs: `ConfigLayer::validate`, against the description of a layer.

use dexdeck.Common.{
  ℕ, ◌≡◌, ◌≢◌, ◌↔◌, refl, String, Option, none, some, false, List, [], ◌∷◌, any, All,
}
use dexdeck.Common.Text.{codes, between_iff}
use dexdeck.Common.Results.{ok, both_iff, for_each_iff}
use dexdeck.Config.{ConfigLayer, ProfileConfig, CommandConfig}
use dexdeck.Config.Validation.{
  has_nul, no_executable, validate_argv, validate_profile, validate_command, bad_size, validate,
}
use dexdeck.Config.Valid.{ValidArgv, ValidSize, ValidProfile, ValidCommand, IfSome, ValidLayer}
use dexdeck.Config.Valid.Entries.{none_iff, zero_iff, unless_iff, not_iff, validate_environment_iff}

no_executable_iff :
    (argv : List String)
    → (no_executable argv ≡ false) ↔ (
        (executable : String) × ((arguments : List String) × ((argv ≡ executable ∷ arguments)
            × (executable ≢ String.[]))))
no_executable_iff [] = (λ e. cc, λ h. cc)
no_executable_iff (String.[] ∷ arguments) =
    (λ e. cc, λ h. let (x, (r, (e, n))) = h in absurd (n cc))
no_executable_iff (String.◌∷◌ c rest ∷ arguments) =
    (λ e. (String.◌∷◌ c rest, (arguments, (refl, λ same. cc))), λ h. refl)

no_nul_iff :
    (argv : List String)
    → (any has_nul argv ≡ false) ↔ All (λ argument. All (λ c. c ≢ 0) (codes argument)) argv
no_nul_iff argv = none_iff (λ argument. none_iff (λ c. zero_iff c) (codes argument)) argv

validate_argv_iff :
    (path field : String) (argv : List String)
    → (validate_argv path field (some argv) ≡ ok tt) ↔ ValidArgv argv
unfolding validate_argv
validate_argv_iff path field argv =
    both_iff _ _ (unless_iff _ _ (no_executable_iff argv)) (unless_iff _ _ (no_nul_iff argv))

validate_option_iff :
    (path field : String) (argv : Option (List String))
    → (validate_argv path field argv ≡ ok tt) ↔ IfSome ValidArgv argv
validate_option_iff path field none = (λ e. tt, λ h. unfold validate_argv in refl)
validate_option_iff path field (some argv) = validate_argv_iff path field argv

bad_size_iff : (o : Option ℕ) → (bad_size o ≡ false) ↔ IfSome ValidSize o
bad_size_iff none = (λ e. tt, λ h. refl)
bad_size_iff (some m) = not_iff _ (between_iff 8 1024 m)

validate_profile_iff :
    (path : String) (entry : String × ProfileConfig)
    → (validate_profile path entry ≡ ok tt) ↔ ValidProfile entry
validate_profile_iff path (name, profile) =
    both_iff _ _ (validate_environment_iff path _ profile.environment)
      (validate_environment_iff path _ profile.gradle_properties)

validate_command_iff :
    (path : String) (entry : String × CommandConfig)
    → (validate_command path entry ≡ ok tt) ↔ ValidCommand entry
validate_command_iff path (name, command) =
    both_iff _ _ (validate_argv_iff path _ command.command)
      (validate_environment_iff path _ command.environment)

-- A layer is accepted just when it is valid: its command lines start with an executable that is
-- not empty and have no NUL, its buffer size is between 8 and 1024 MiB, and in each environment
-- the names are well formed and what has the name of a secret is a reference.
pub validate_iff :
    (layer : ConfigLayer) (path : String) → (validate layer path ≡ ok tt) ↔ ValidLayer layer
unfolding validate
validate_iff layer path = both_iff _ _ (validate_option_iff path _ layer.gradle.arguments) (
    both_iff _ _ (validate_option_iff path _ layer.editor.command) (
      both_iff _ _ (unless_iff _ _ (bad_size_iff layer.logcat.buffer_mib)) (
        both_iff _ _ (for_each_iff _ layer.profiles (validate_profile_iff path))
          (for_each_iff _ layer.commands (validate_command_iff path)))))
