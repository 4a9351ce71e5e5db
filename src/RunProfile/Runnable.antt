-- ===== src/RunProfile/Runnable.antt =====
-- crates/dexdeck-core/src/run_profile.rs: what is resolved can be run.

use mathlib.Core.List.{Memᴰ}
use dexdeck.Common.{
  ◌≡◌, ◌≢◌, refl, ap, subst, ℕ, String, Option, none, some, Bool, true, false, not, ◌&&◌, List,
}
use dexdeck.Common.Int.{ℤ}
use dexdeck.Common.Results.{Result, ok, err, fail_if, fail_if_iff, bind_ok, ok_injective}
use dexdeck.Protocol.Model.{ProjectModel}
use dexdeck.Config.Resolver.{ResolvedConfig}
use dexdeck.Secret.{OsString, SecretRedactor, SensitiveValue}
use dexdeck.RunProfile.{
  online, AndroidDevice, RunProfileSelection, ResolvedRunProfile, RunProfileError, library_module,
  disabled_variant, missing_application_id, device_required, first_of_three, of_profile, entries_of,
  find_profile, is_application, select_module, select_variant, maybe_device, check_online,
  no_application_id, is_none, is_release,
}
use dexdeck.RunProfile.Resolve.{
  Chosen, choose, resolve_launch, completed, complete_with, environment_step, then_with,
  with_environment, resolve, resolve_environment,
}
use dexdeck.RunProfile.Choice.{
  select_module-known, select_variant-known, maybe_device-known, check_online-online,
  application_id, selected_first, given,
}

-- What is run is in the project and can be run: an enabled variant with an application id, of an
-- application module; a device that is used is connected and online, and there is one if one is
-- required; a module or variant that was selected by name is the one that is run; and without a
-- profile, a release build is to be confirmed.
pub record Runnable (model : ProjectModel) (devices : List AndroidDevice)
    (selection : RunProfileSelection) (r : ResolvedRunProfile) : Type 0 where
  pub module_known : Memᴰ r.app_module model.modules
  pub is_an_application : is_application r.app_module.kind ≡ true
  pub variant_known : Memᴰ r.variant r.app_module.variants
  pub variant_enabled : r.variant.enabled ≡ true
  pub application_id_given :
      (id : String) × ((r.variant.application_id ≡ some id) × (id ≢ String.[]))
  pub device_usable : (d : AndroidDevice) → r.device ≡ some d → Memᴰ d devices × (d.state ≡ online)
  pub device_given : selection.require_device ≡ true → (d : AndroidDevice) × (r.device ≡ some d)
  pub module_selected :
      (path : String) → selection.module_path ≡ some path → r.app_module.path ≡ path
  pub variant_selected : (name : String) → selection.variant ≡ some name → r.variant.name ≡ name
  pub release_confirmed :
      selection.profile ≡ none
      → is_release r.variant ≡ true
      → r.release_confirmation_required ≡ true

-- The choices that `choose` makes.
record Sound (model : ProjectModel) (devices : List AndroidDevice) (selection : RunProfileSelection)
    (c : Chosen) : Type 0 where
  pub known_module : Memᴰ c.app_module model.modules
  pub application_kind : is_application c.app_module.kind ≡ true
  pub known_variant : Memᴰ c.variant c.app_module.variants
  pub enabled_variant : c.variant.enabled ≡ true
  pub identified : (id : String) × ((c.variant.application_id ≡ some id) × (id ≢ String.[]))
  pub usable : (d : AndroidDevice) → c.device ≡ some d → Memᴰ d devices × (d.state ≡ online)
  pub required : selection.require_device ≡ true → (d : AndroidDevice) × (c.device ≡ some d)
  pub path_selected : (path : String) → selection.module_path ≡ some path → c.app_module.path ≡ path
  pub name_selected : (name : String) → selection.variant ≡ some name → c.variant.name ≡ name

not-false : (b : Bool) → not b ≡ false → b ≡ true
not-false true h = refl
not-false false h = cc

module _ (trim : String → String) (is_whitespace : ℕ → Bool) where
  choose-Sound :
      (model : ProjectModel) (config : ResolvedConfig) (devices : List AndroidDevice)
      (selection : RunProfileSelection) (c : Chosen)
      → choose trim is_whitespace model config devices selection ≡ ok c
      → Sound model devices selection c
  unfolding choose
  choose-Sound model config devices selection c h =
      let (profile, (e1, h1)) = bind_ok (find_profile config selection.profile) _ h in
      let module_name =
        first_of_three selection.module_path (of_profile (λ p. p.module_name) profile)
          config.project.default_module in
      let (m, (e2, h2)) = bind_ok (select_module model module_name) _ h1 in
      let (u3, (e3, h3)) =
        bind_ok (fail_if (not (is_application m.kind)) (library_module m.path)) _ h2 in
      let variant_name =
        first_of_three selection.variant (of_profile (λ p. p.variant) profile)
          config.project.default_variant in
      let (v, (e4, h4)) = bind_ok (select_variant m variant_name) _ h3 in
      let (u5, (e5, h5)) = bind_ok (fail_if (not v.enabled) (disabled_variant v.name)) _ h4 in
      let (u6, (e6, h6)) =
        bind_ok (fail_if (no_application_id v.application_id) (missing_application_id v.name)) _
          h5 in
      let selector =
        first_of_three selection.device (of_profile (λ p. p.device_serial) profile) none in
      let (d, (e7, h7)) = bind_ok (maybe_device devices selector) _ h6 in
      let (u8, (e8, h8)) =
        bind_ok (fail_if (selection.require_device && is_none d) device_required) _ h7 in
      let (u9, (e9, h9)) = bind_ok (check_online d) _ h8 in
      let (l, (e10, h10)) = bind_ok (resolve_launch trim is_whitespace profile) _ h9 in
      let modules = select_module-known model module_name m e2 in
      let variants = select_variant-known m variant_name v e4 in
      subst (Sound model devices selection) (ok_injective h10) (record {
        known_module = modules.0;
        application_kind =
            not-false _ ((fail_if_iff (not (is_application m.kind)) (library_module m.path)).0 e3);
        known_variant = variants.0;
        enabled_variant =
            not-false _ ((fail_if_iff (not v.enabled) (disabled_variant v.name)).0 e5);
        identified = application_id v.application_id (
            (fail_if_iff (no_application_id v.application_id) (missing_application_id v.name)).0
              e6);
        usable =
            λ x e. (maybe_device-known devices d selector e7 x e, check_online-online d e9 x e);
        required =
            given d selection.require_device
              ((fail_if_iff (selection.require_device && is_none d) device_required).0 e8);
        path_selected = λ path e. modules.1 path (
            selected_first selection.module_path (of_profile (λ p. p.module_name) profile)
              config.project.default_module path e);
        name_selected = λ name e. variants.1 name (
            selected_first selection.variant (of_profile (λ p. p.variant) profile)
              config.project.default_variant name e);
      })

pub then_with_ok :
    {A B : Type 0} (later : A → SecretRedactor → Result RunProfileError B × SecretRedactor)
    (first : Result RunProfileError A × SecretRedactor) {b : B} {last : SecretRedactor}
    → then_with later first ≡ (ok b, last)
    → (a : A) × ((between : SecretRedactor) × ((first ≡ (ok a, between))
          × (later a between ≡ (ok b, last))))
then_with_ok later (ok a, between) h = (a, (between, (refl, h)))
then_with_ok later (err failure, between) h = cc

module _ (environment_of : String → Option OsString) (decimal : ℤ → String)
    (sort_longest_first : List String → List String) where
  -- A profile that is resolved is completed from what was chosen.
  pub with_environment_ok :
      (config : ResolvedConfig) (selection : RunProfileSelection)
      (chosen : Result RunProfileError Chosen) (redactor last : SecretRedactor)
      (r : ResolvedRunProfile)
      → with_environment environment_of decimal sort_longest_first config selection chosen redactor
        ≡ (ok r, last)
      → (c : Chosen) × ((chosen ≡ ok c)
          × ((properties : List (String × SensitiveValue)) × ((environment : List
                  (String × SensitiveValue))
                × (completed environment_of decimal sort_longest_first config selection c properties
                      environment
                    ≡ r))))
  with_environment_ok config selection (err failure) redactor last r h = cc
  with_environment_ok config selection (ok c) redactor last r h =
      let (properties, (between, (e1, h1))) =
        then_with_ok (environment_step environment_of decimal sort_longest_first config selection c)
          (resolve_environment environment_of decimal sort_longest_first
            (entries_of (λ p. p.gradle_properties) c.profile) redactor)
          h in
      let (environment, (after, (e2, h2))) =
        then_with_ok
          (complete_with environment_of decimal sort_longest_first config selection c properties)
          (resolve_environment environment_of decimal sort_longest_first
            (entries_of (λ p. p.environment) c.profile) between)
          h1 in
      (c, (refl, (properties, (environment, ok_injective (ap (λ x. x.0) h2)))))

  completed-Runnable :
      (model : ProjectModel) (config : ResolvedConfig) (devices : List AndroidDevice)
      (selection : RunProfileSelection) (c : Chosen)
      (properties environment : List (String × SensitiveValue))
      → Sound model devices selection c
      → Runnable model devices selection (
          completed environment_of decimal sort_longest_first config selection c properties
            environment)
  completed-Runnable model config devices selection c properties environment s = record {
    module_known = s.known_module;
    is_an_application = s.application_kind;
    variant_known = s.known_variant;
    variant_enabled = s.enabled_variant;
    application_id_given = s.identified;
    device_usable = s.usable;
    device_given = s.required;
    module_selected = s.path_selected;
    variant_selected = s.name_selected;
    release_confirmed = λ no_profile release. rw (no_profile, release) refl;
  }

  -- If a run profile is resolved, it can be run: its module is an application of the project, its
  -- variant is an enabled one of that module with an application id, a device that it names is
  -- connected and online, and there is one if one is required; a module or a variant that was selected
  -- by name is the one that is run; and a release build without a profile is to be confirmed.
  pub resolve-Runnable :
      (trim : String → String) (is_whitespace : ℕ → Bool) (model : ProjectModel)
      (config : ResolvedConfig) (devices : List AndroidDevice) (selection : RunProfileSelection)
      (redactor last : SecretRedactor) (r : ResolvedRunProfile)
      → resolve environment_of decimal sort_longest_first trim is_whitespace model config devices
          selection redactor
        ≡ (ok r, last)
      → Runnable model devices selection r
  unfolding resolve
  resolve-Runnable trim is_whitespace model config devices selection redactor last r h =
      let (c, (chosen, (properties, (environment, same)))) =
        with_environment_ok config selection
          (choose trim is_whitespace model config devices selection) redactor last r h in
      subst (Runnable model devices selection) same (
        completed-Runnable model config devices selection c properties environment
          (choose-Sound trim is_whitespace model config devices selection c chosen))
