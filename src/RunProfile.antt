-- ===== src/RunProfile.antt =====
-- crates/dexdeck-core/src/run_profile.rs, with the devices of crates/dexdeck-protocol/src/android.rs:
-- what is built and run, where, and how it is started. Arguments: the environment of the process,
-- the decimal form of an integer, `trim`, `char::is_whitespace`, and the sort of the redactor.
pub mod Resolve
pub mod Choice
pub mod Runnable
pub mod Redacted
use Prim.Native.String
use dexdeck.Common.{
  ℕ, String, String-discrete, Option, none, some, Bool, true, false, not, ◌&&◌, ◌||◌, List, [], ◌∷◌,
  ◌++◌, map, find, any, retain, lookup, ◌==◌, if◌then◌else◌, decide,
}
use dexdeck.Common.Int.{ℤ}
use dexdeck.Common.Text.{codes, ascii_lower}
use dexdeck.Common.Results.{Result, ok, err, ◌>>=◌, ◌>>◌, fail_if, ok_or_else}
use dexdeck.Protocol.Model.{ProjectModel, AndroidModule, ModuleKind, application, library, Variant}
use dexdeck.Config.{
  ProfileConfig, LaunchMode, launcher, activity, deep_link, IntentExtra, EnvironmentValue, literal,
  integer, boolean, from_environment,
}
use dexdeck.Config.Resolver.{ResolvedConfig, overlay_option}
use dexdeck.Secret.{
  SensitiveValue, OsString, unicode, SecretError, missing_environment_variable, SecretRedactor,
  register,
}

pub data DeviceState : Type 0 where
  online offline unauthorized no_permissions bootloader recovery sideload : DeviceState
  unknown : String → DeviceState

pub data TransportType : Type 0 where
  usb local emulator unknown : TransportType

pub record AndroidDevice : Type 0 where
  pub serial : String
  pub state : DeviceState
  pub model_name : Option String
  pub product : Option String
  pub device : Option String
  pub api_level : Option ℕ
  pub transport_id : Option ℕ
  pub transport_type : TransportType
  pub is_emulator : Bool
  pub avd_name : Option String

pub record RunProfileSelection : Type 0 where
  pub profile : Option String
  pub module_path : Option String
  pub variant : Option String
  pub device : Option String
  pub gradle_arguments : List String
  pub require_device : Bool

pub data LaunchRequest : Type 0 where
  launch_launcher : LaunchRequest
  launch_activity : (activity : String) → LaunchRequest
  launch_deep_link :
      (uri : String) (action : Option String) (categories : List String)
      (extras : List (String × IntentExtra))
      → LaunchRequest

pub record ResolvedRunProfile : Type 0 where
  pub profile_name : Option String
  pub app_module : AndroidModule
  pub variant : Variant
  pub device : Option AndroidDevice
  pub launch : LaunchRequest
  pub gradle_arguments : List String
  pub gradle_properties : List (String × SensitiveValue)
  pub environment : List (String × SensitiveValue)
  pub release_confirmation_required : Bool

pub data RunProfileError : Type 0 where
  unknown_profile : String → RunProfileError
  ambiguous_module no_application_module : RunProfileError
  unknown_module library_module : String → RunProfileError
  ambiguous_variant no_enabled_variant : RunProfileError
  unknown_variant disabled_variant missing_application_id : String → RunProfileError
  device_required : RunProfileError
  unknown_device ambiguous_device : String → RunProfileError
  device_not_online : (serial : String) (state : DeviceState) → RunProfileError
  invalid_intent : String → RunProfileError
  secret : SecretError → RunProfileError

-- The only value of a list.
abbrev pub only :
    {A : Type 0} → List A → (nothing several : RunProfileError) → Result RunProfileError A
only [] nothing several = err nothing
only (x ∷ []) nothing several = ok x
only (_ ∷ _ ∷ _) nothing several = err several

abbrev pub is_application : ModuleKind → Bool
is_application application = true
is_application library = false

abbrev pub named_module : ProjectModel → Option String → Result RunProfileError AndroidModule
named_module model (some selected) =
    ok_or_else (find (λ m. decide (String-discrete m.path selected)) model.modules)
      (unknown_module selected)
named_module model none =
    only (retain (λ m. is_application m.kind) model.modules) no_application_module ambiguous_module

unfoldable pub select_module : ProjectModel → Option String → Result RunProfileError AndroidModule
select_module model selected = named_module model selected

abbrev pub named_variant : AndroidModule → Option String → Result RunProfileError Variant
named_variant m (some selected) =
    ok_or_else (find (λ v. decide (String-discrete v.name selected)) m.variants)
      (unknown_variant selected)
named_variant m none =
    only (retain (λ v. v.enabled) m.variants) no_enabled_variant ambiguous_variant

unfoldable pub select_variant : AndroidModule → Option String → Result RunProfileError Variant
select_variant m selected = named_variant m selected

abbrev same_codes : List ℕ → List ℕ → Bool
same_codes [] [] = true
same_codes (c ∷ s) (d ∷ t) = c == d && same_codes s t
same_codes [] (_ ∷ _) = false
same_codes (_ ∷ _) [] = false

-- `a.to_ascii_lowercase() == b.to_ascii_lowercase()`.
abbrev same_ignoring_case : String → String → Bool
same_ignoring_case a b = same_codes (map ascii_lower (codes a)) (map ascii_lower (codes b))

abbrev is_called : String → Option String → Bool
is_called selector none = false
is_called selector (some value) = same_ignoring_case value selector

abbrev described_by : String → AndroidDevice → Bool
described_by selector d =
    is_called selector d.model_name
    || is_called selector d.product
    || is_called selector d.device
    || is_called selector d.avd_name

abbrev pub by_description :
    List AndroidDevice
    → (selector : String) → Option AndroidDevice
    → Result RunProfileError AndroidDevice
by_description devices selector (some d) = ok d
by_description devices selector none =
    only (retain (described_by selector) devices) (unknown_device selector)
      (ambiguous_device selector)

unfoldable pub select_device :
    List AndroidDevice → (selector : String) → Result RunProfileError AndroidDevice
select_device devices selector =
    by_description devices selector (find (λ d. decide (String-discrete d.serial selector)) devices)

abbrev pub maybe_device :
    List AndroidDevice → Option String → Result RunProfileError (Option AndroidDevice)
maybe_device devices none = ok none
maybe_device devices (some selector) = do d ← select_device devices selector; ok (some d)

abbrev pub is_online : DeviceState → Bool
is_online online = true
is_online offline = false
is_online unauthorized = false
is_online no_permissions = false
is_online bootloader = false
is_online recovery = false
is_online sideload = false
is_online (DeviceState.unknown _) = false

abbrev is_none : {A : Type 0} → Option A → Bool
is_none none = true
is_none (some _) = false

abbrev pub check_online : Option AndroidDevice → Result RunProfileError (Unit {0})
check_online none = ok tt
check_online (some d) = fail_if (not (is_online d.state)) (device_not_online d.serial d.state)

abbrev pub no_application_id : Option String → Bool
no_application_id none = true
no_application_id (some String.[]) = true
no_application_id (some (String.◌∷◌ _ _)) = false

-- The value of the first that has one.
abbrev pub first_of_three : Option String → Option String → Option String → Option String
first_of_three a b c = overlay_option a (overlay_option b c)

abbrev pub of_profile : {A : Type 0} → (ProfileConfig → Option A) → Option ProfileConfig → Option A
of_profile field none = none
of_profile field (some profile) = field profile

abbrev pub entries_of : {A : Type 0} → (ProfileConfig → List A) → Option ProfileConfig → List A
entries_of field none = []
entries_of field (some profile) = field profile

abbrev pub find_profile :
    ResolvedConfig → Option String → Result RunProfileError (Option ProfileConfig)
find_profile config none = ok none
find_profile config (some name) = do
  profile ← ok_or_else (lookup String-discrete name config.profiles) (unknown_profile name)
  ok (some profile)

abbrev is_false : Option Bool → Bool
is_false none = false
is_false (some b) = not b

unfoldable pub is_release : Variant → Bool
is_release v = is_false v.debuggable || same_ignoring_case v.build_type "release"
