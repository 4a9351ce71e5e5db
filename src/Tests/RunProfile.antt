-- ===== src/Tests/RunProfile.antt =====
-- A project with one application, run on its one device.
use dexdeck.Common.{
  ◌≡◌, refl, String, String-discrete, text_dec, Option, none, some, true, false, List, [], ◌∷◌, All,
  contains, decide,
}
use dexdeck.Common.Int.{ℤ}
use dexdeck.Common.Results.{ok}
use dexdeck.Protocol.Model.{ProjectModel, AndroidModule, application, Variant, empty}
use dexdeck.Config.{EnvironmentValue, literal, from_environment}
use dexdeck.Config.Resolver.{default_config}
use dexdeck.Secret.{OsString, unicode, SensitiveValue, SecretRedactor, register}
use dexdeck.RunProfile.{
  AndroidDevice, online, usb, RunProfileSelection, ResolvedRunProfile, launch_launcher,
  select_module, select_variant, select_device, is_release,
}
use dexdeck.RunProfile.Resolve.{resolve, choose, resolve_launch, resolve_environment}
use dexdeck.RunProfile.Runnable.{Runnable, resolve-Runnable}
use dexdeck.RunProfile.Redacted.{Covered, Extends, resolve_environment-Covered}

abbrev debug_variant : Variant
debug_variant = record {
  name = "debug";
  enabled = true;
  build_type = "debug";
  flavors = [];
  application_id = some "org.app";
  namespace = none;
  debuggable = some true;
  launcher = none;
  tasks = record { assemble = none; bundle = none; install = none; lint = none };
  artifacts = [];
  test_components = [];
}

abbrev app : AndroidModule
app = record {
  path = ":app";
  build_id = "main";
  project_directory = "app";
  kind = application;
  namespace = none;
  compile_sdk = none;
  target_sdk = none;
  minimum_sdk = none;
  flavor_dimensions = [];
  product_flavors = [];
  build_types = [];
  variants = debug_variant ∷ [];
}

abbrev model : ProjectModel
model = record (empty "/app") { modules = app ∷ [] }

abbrev phone : AndroidDevice
phone = record {
  serial = "R1";
  state = online;
  model_name = some "Pixel";
  product = none;
  device = none;
  api_level = none;
  transport_id = none;
  transport_type = usb;
  is_emulator = false;
  avd_name = none;
}

abbrev selection : RunProfileSelection
selection = record {
  profile = none;
  module_path = none;
  variant = none;
  device = some "pixel";
  gradle_arguments = [];
  require_device = true;
}

abbrev environment_of : String → Option OsString
environment_of _ = some (unicode "hush")

abbrev decimal : ℤ → String
decimal _ = "1"

abbrev as_they_are : List String → List String
as_they_are texts = texts

abbrev no_patterns : SecretRedactor
no_patterns = record { patterns = [] }

abbrev run : ResolvedRunProfile
run = record {
  profile_name = none;
  app_module = app;
  variant = debug_variant;
  device = some phone;
  launch = launch_launcher;
  gradle_arguments = [];
  gradle_properties = [];
  environment = [];
  release_confirmation_required = false;
}

resolve-run :
    resolve environment_of decimal as_they_are
      (λ text. text)
      (λ _. false)
      model
      default_config
      (phone ∷ [])
      selection
      no_patterns
    ≡ (ok run, no_patterns)
unfolding resolve choose select_module select_variant select_device resolve_launch
    resolve_environment is_release decide String-discrete text_dec
resolve-run = refl

resolve-Runnable_example : Runnable model (phone ∷ []) selection run
resolve-Runnable_example =
    resolve-Runnable environment_of decimal as_they_are (λ text. text) (λ _. false) model
      default_config (phone ∷ []) selection no_patterns no_patterns run resolve-run

abbrev entries : List (String × EnvironmentValue)
entries = ("API_TOKEN", from_environment "CI_KEY") ∷ ("flavor", literal "demo") ∷ []

abbrev values : List (String × SensitiveValue)
values =
    ("API_TOKEN", record { value = unicode "hush" })
    ∷ ("flavor", record { value = unicode "demo" })
    ∷ []

abbrev two_patterns : SecretRedactor
two_patterns = record { patterns = "hush" ∷ "demo" ∷ [] }

resolve_entries :
    resolve_environment environment_of decimal as_they_are entries no_patterns
    ≡ (ok values, two_patterns)
unfolding resolve_environment register contains decide String-discrete text_dec
resolve_entries = refl

resolve_environment-Covered_example :
    All (λ entry. Covered two_patterns entry.1.value) values × Extends no_patterns two_patterns
resolve_environment-Covered_example =
    resolve_environment-Covered as_they_are (λ text texts m. m) environment_of decimal entries
      no_patterns two_patterns values resolve_entries
