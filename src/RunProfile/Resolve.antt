-- ===== src/RunProfile/Resolve.antt =====
-- crates/dexdeck-core/src/run_profile.rs: `resolve`, with the launch and the environment. What is
-- checked before the environment leaves the redactor as it was.

use dexdeck.Common.{
  ℕ, String, Option, none, some, Bool, true, false, not, ◌&&◌, ◌||◌, List, [], ◌∷◌, ◌++◌, any, ◌==◌,
  if◌then◌else◌,
}
use dexdeck.Common.Int.{ℤ}
use dexdeck.Common.Text.{codes}
use dexdeck.Common.Results.{Result, ok, err, ◌>>=◌, ◌>>◌, fail_if}
use dexdeck.Protocol.Model.{ProjectModel, AndroidModule, Variant}
use dexdeck.Config.{
  ProfileConfig, LaunchMode, launcher, activity, deep_link, EnvironmentValue, literal, integer,
  boolean, from_environment,
}
use dexdeck.Config.Resolver.{ResolvedConfig}
use dexdeck.Secret.{
  SensitiveValue, OsString, unicode, missing_environment_variable, SecretRedactor, register,
}
use dexdeck.RunProfile.{
  AndroidDevice, RunProfileSelection, LaunchRequest, launch_launcher, launch_activity,
  launch_deep_link, ResolvedRunProfile, RunProfileError, library_module, disabled_variant,
  missing_application_id, device_required, invalid_intent, secret, select_module, is_application,
  select_variant, maybe_device, check_online, no_application_id, is_none, first_of_three,
  of_profile, entries_of, find_profile, is_release,
}

-- What is chosen before the environment is resolved.
pub record Chosen : Type 0 where
  pub profile : Option ProfileConfig
  pub app_module : AndroidModule
  pub variant : Variant
  pub device : Option AndroidDevice
  pub launch : LaunchRequest

module _ (trim : String → String) (is_whitespace : ℕ → Bool) where
  abbrev is_empty : String → Bool
  is_empty String.[] = true
  is_empty (String.◌∷◌ _ _) = false

  abbrev activity_launch : Option String → Result RunProfileError LaunchRequest
  activity_launch none = err (invalid_intent "activity launch requires a non-empty activity")
  activity_launch (some name) =
      if is_empty (trim name)
      then err (invalid_intent "activity launch requires a non-empty activity")
      else ok (launch_activity name)

  abbrev has_space : String → Bool
  has_space text = any is_whitespace (codes text)

  abbrev valid_uri : String → Bool
  valid_uri uri = any (λ c. c == 58) (codes uri) && not (has_space uri)

  abbrev checked_uri : Option String → Result RunProfileError String
  checked_uri none = err (invalid_intent "deep-link launch requires a valid URI with a scheme")
  checked_uri (some uri) =
      if valid_uri uri
      then ok uri
      else err (invalid_intent "deep-link launch requires a valid URI with a scheme")

  abbrev launch_in : LaunchMode → ProfileConfig → Result RunProfileError LaunchRequest
  launch_in launcher profile = ok launch_launcher
  launch_in activity profile = activity_launch profile.activity_name
  launch_in deep_link profile = do
    uri ← checked_uri profile.deep_link_uri
    fail_if (any (λ c. is_empty (trim c) || has_space c) profile.intent_categories)
        (invalid_intent "intent categories cannot be empty or contain whitespace")
    ok (launch_deep_link uri profile.intent_action profile.intent_categories profile.intent_extras)

  abbrev launch_of : Option LaunchMode → ProfileConfig → Result RunProfileError LaunchRequest
  launch_of none profile = launch_in launcher profile
  launch_of (some mode) profile = launch_in mode profile

  abbrev resolved_launch : Option ProfileConfig → Result RunProfileError LaunchRequest
  resolved_launch none = ok launch_launcher
  resolved_launch (some profile) = launch_of profile.launch_mode profile

  unfoldable pub resolve_launch : Option ProfileConfig → Result RunProfileError LaunchRequest
  resolve_launch profile = resolved_launch profile

  unfoldable pub choose :
      ProjectModel
      → ResolvedConfig
      → List AndroidDevice
      → RunProfileSelection
      → Result RunProfileError Chosen
  choose model config devices selection = do
    profile ← find_profile config selection.profile
    app_module ← select_module model (
        first_of_three selection.module_path (of_profile (λ p. p.module_name) profile)
          config.project.default_module)
    application ← fail_if (not (is_application app_module.kind)) (library_module app_module.path)
    variant ← select_variant app_module (
        first_of_three selection.variant (of_profile (λ p. p.variant) profile)
          config.project.default_variant)
    enabled ← fail_if (not variant.enabled) (disabled_variant variant.name)
    identified ←
        fail_if (no_application_id variant.application_id) (missing_application_id variant.name)
    device ←
        maybe_device devices
          (first_of_three selection.device (of_profile (λ p. p.device_serial) profile) none)
    present ← fail_if (selection.require_device && is_none device) device_required
    online ← check_online device
    launch ← resolve_launch profile
    ok (record {
      profile = profile;
      app_module = app_module;
      variant = variant;
      device = device;
      launch = launch;
    })

-- The result with the redactor after it; an entry that fails ends the loop.
abbrev pub Registering : Type 0 → Type 0
Registering A = SecretRedactor → Result RunProfileError A × SecretRedactor

abbrev pub then_with :
    {A B : Type 0}
    → (A → Registering B)
    → Result RunProfileError A × SecretRedactor
    → Result RunProfileError B × SecretRedactor
then_with later (ok a, redactor) = later a redactor
then_with later (err failure, redactor) = (err failure, redactor)

module _ (environment_of : String → Option OsString) (decimal : ℤ → String)
    (sort_longest_first : List String → List String) where
  abbrev from_variable : (name : String) → Option OsString → Result RunProfileError SensitiveValue
  from_variable name none = err (secret (missing_environment_variable name))
  from_variable name (some value) = ok (record { value = value })

  abbrev bool_text : Bool → String
  bool_text true = "true"
  bool_text false = "false"

  abbrev pub sensitive_of : EnvironmentValue → Result RunProfileError SensitiveValue
  sensitive_of (literal text) = ok (record { value = unicode text })
  sensitive_of (integer n) = ok (record { value = unicode (decimal n) })
  sensitive_of (boolean b) = ok (record { value = unicode (bool_text b) })
  sensitive_of (from_environment name) = from_variable name (environment_of name)

  abbrev pub registered : Result RunProfileError SensitiveValue → Registering SensitiveValue
  registered (ok value) redactor = (ok value, register sort_longest_first redactor value)
  registered (err failure) redactor = (err failure, redactor)

  unfoldable pub resolve_environment :
      List (String × EnvironmentValue) → Registering (List (String × SensitiveValue))
  resolve_environment [] redactor = (ok [], redactor)
  resolve_environment ((name, value) ∷ later) redactor =
      then_with
        (λ v after.
          then_with (λ rest last. (ok ((name, v) ∷ rest), last)) (resolve_environment later after))
        (registered (sensitive_of value) redactor)

  abbrev pub completed :
      ResolvedConfig
      → RunProfileSelection
      → Chosen
      → (gradle_properties environment : List (String × SensitiveValue)) → ResolvedRunProfile
  completed config selection chosen gradle_properties environment = record {
    profile_name = selection.profile;
    app_module = chosen.app_module;
    variant = chosen.variant;
    device = chosen.device;
    launch = chosen.launch;
    gradle_arguments =
        config.gradle_arguments
        ++ (entries_of (λ p. p.gradle_arguments) chosen.profile ++ selection.gradle_arguments);
    gradle_properties = gradle_properties;
    environment = environment;
    release_confirmation_required =
        is_release chosen.variant
        && not (not (is_none selection.profile) && is_release chosen.variant);
  }

  abbrev pub complete_with :
      ResolvedConfig
      → RunProfileSelection
      → Chosen
      → (gradle_properties environment : List (String × SensitiveValue))
      → Registering ResolvedRunProfile
  complete_with config selection chosen gradle_properties environment redactor =
      (ok (completed config selection chosen gradle_properties environment), redactor)

  abbrev pub environment_step :
      ResolvedConfig
      → RunProfileSelection
      → Chosen
      → List (String × SensitiveValue)
      → Registering ResolvedRunProfile
  environment_step config selection chosen gradle_properties redactor =
      then_with (complete_with config selection chosen gradle_properties)
        (resolve_environment (entries_of (λ p. p.environment) chosen.profile) redactor)

  abbrev pub with_environment :
      ResolvedConfig
      → RunProfileSelection
      → Result RunProfileError Chosen
      → Registering ResolvedRunProfile
  with_environment config selection (err failure) redactor = (err failure, redactor)
  with_environment config selection (ok chosen) redactor =
      then_with (environment_step config selection chosen)
        (resolve_environment (entries_of (λ p. p.gradle_properties) chosen.profile) redactor)

  unfoldable pub resolve :
      (trim : String → String) (is_whitespace : ℕ → Bool)
      → ProjectModel
      → ResolvedConfig
      → List AndroidDevice
      → RunProfileSelection
      → Registering ResolvedRunProfile
  resolve trim is_whitespace model config devices selection redactor =
      with_environment config selection (choose trim is_whitespace model config devices selection)
        redactor
