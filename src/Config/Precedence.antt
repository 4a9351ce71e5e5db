-- ===== src/Config/Precedence.antt =====
-- crates/dexdeck-config/src/resolve.rs: what several layers resolve to, told by the last layer
-- that sets a value.
use dexdeck.Common.{
  ◌≡◌, refl, ap, ◌∙◌, subst, arith, String, String-discrete, Option, none, some, false,
  Option-cases, List, [], ◌∷◌, inl, inr, lookup, All, ite,
}
use dexdeck.Common.Ordered.{extend, insert_sorted, lookup-insert_sorted}
use dexdeck.Common.Results.{Result, ok, ◌>>=◌, Result-cases}
use dexdeck.Protocol.Log.{debug}
use dexdeck.Config.{ConfigLayer, ConfigError, default_keys, auto, application}
use dexdeck.Config.Validation.{validate}
use dexdeck.Config.Valid.{ValidLayer}
use dexdeck.Config.Valid.Layers.{validate_iff}
use dexdeck.Config.Resolver.{ResolvedConfig, default_config, overlay, overlay_option, merge, apply}

abbrev pub Layers : Type 0
Layers = List (ConfigLayer × String)

-- `apply` for one layer after the other, up to the first failure.
unfoldable pub apply_all : ResolvedConfig → Layers → Result ConfigError ResolvedConfig
apply_all resolved [] = ok resolved
apply_all resolved ((layer, path) ∷ later) = do
  next ← apply resolved layer path
  apply_all next later

-- The value of the last layer that has one.
abbrev pub last_set : {A : Type 0} → (ConfigLayer → Option A) → Layers → Option A
last_set value [] = none
last_set value ((layer, _) ∷ later) = overlay_option (last_set value later) (value layer)

-- The value of a key; of several entries the last one counts.
abbrev pub last_entry : {V : Type 0} → String → List (String × V) → Option V
last_entry name [] = none
last_entry name ((key, v) ∷ m) =
    overlay_option (last_entry name m) (ite (String-discrete key name) (some v) none)

-- Each value of the resolved configuration is that of the last layer that sets it, or the default.
pub record Resolves (layers : Layers) (r : ResolvedConfig) : Type 0 where
  pub default_module_is : r.project.default_module ≡ last_set (λ l. l.project.default_module) layers
  pub default_variant_is :
      r.project.default_variant ≡ last_set (λ l. l.project.default_variant) layers
  pub sdk_path_is : r.android.sdk_path ≡ last_set (λ l. l.android.sdk_path) layers
  pub arguments_is : r.gradle_arguments ≡ overlay (last_set (λ l. l.gradle.arguments) layers) []
  pub keymap_is : r.keymap ≡ overlay (last_set (λ l. l.ui.keymap) layers) default_keys
  pub reduced_motion_is :
      r.reduced_motion ≡ overlay (last_set (λ l. l.ui.reduced_motion) layers) false
  pub unicode_is : r.unicode_mode ≡ overlay (last_set (λ l. l.ui.unicode_mode) layers) auto
  pub buffer_mib_is : r.logcat_buffer_mib ≡ overlay (last_set (λ l. l.logcat.buffer_mib) layers) 32
  pub priority_is :
      r.logcat_minimum_priority ≡ overlay (last_set (λ l. l.logcat.minimum_priority) layers) debug
  pub scope_is :
      r.logcat_default_scope ≡ overlay (last_set (λ l. l.logcat.default_scope) layers) application
  pub editor_is : r.editor_command ≡ last_set (λ l. l.editor.command) layers
  pub profiles_are :
      (name : String)
      → lookup String-discrete name r.profiles ≡ last_set (λ l. last_entry name l.profiles) layers
  pub commands_are :
      (name : String)
      → lookup String-discrete name r.commands ≡ last_set (λ l. last_entry name l.commands) layers

pub merge_all : ResolvedConfig → Layers → ResolvedConfig
merge_all resolved [] = resolved
merge_all resolved ((layer, _) ∷ later) = merge_all (merge resolved layer) later

overlay_twice :
    {A : Type 0} (late early : Option A) (a : A)
    → overlay late (overlay early a) ≡ overlay (overlay_option late early) a
overlay_twice none early a = refl
overlay_twice (some v) early a = refl

overlay_option_assoc :
    {A : Type 0} (late early first : Option A)
    → overlay_option late (overlay_option early first)
      ≡ overlay_option (overlay_option late early) first
overlay_option_assoc none early first = refl
overlay_option_assoc (some v) early first = refl

overlay_none : {A : Type 0} (o : Option A) → overlay_option o none ≡ o
overlay_none none = refl
overlay_none (some v) = refl

-- A value that one layer overlays is overlaid by the last of all.
module _ {A : Type 0} (get : ResolvedConfig → A) (value : ConfigLayer → Option A)
    (once : (r : ResolvedConfig) (l : ConfigLayer)
      → get (merge r l) ≡ overlay (value l) (get r)) where
  get-merge_all :
      (r : ResolvedConfig) (layers : Layers)
      → get (merge_all r layers) ≡ overlay (last_set value layers) (get r)
  unfolding merge_all
  get-merge_all r [] = refl
  get-merge_all r ((l, path) ∷ later) =
      get-merge_all (merge r l) later
      ∙ ap (overlay (last_set value later)) (once r l)
      ∙ overlay_twice (last_set value later) (value l) (get r)

module _ {A : Type 0} (get : ResolvedConfig → Option A) (value : ConfigLayer → Option A)
    (once : (r : ResolvedConfig) (l : ConfigLayer)
      → get (merge r l) ≡ overlay_option (value l) (get r))
    (unset : get default_config ≡ none) where
  all_from :
      (r : ResolvedConfig) (layers : Layers)
      → get (merge_all r layers) ≡ overlay_option (last_set value layers) (get r)
  unfolding merge_all
  all_from r [] = refl
  all_from r ((l, path) ∷ later) =
      all_from (merge r l) later
      ∙ ap (overlay_option (last_set value later)) (once r l)
      ∙ overlay_option_assoc (last_set value later) (value l) (get r)

  option-merge_all :
      (layers : Layers) → get (merge_all default_config layers) ≡ last_set value layers
  option-merge_all layers =
      all_from default_config layers
      ∙ ap (overlay_option (last_set value layers)) unset
      ∙ overlay_none (last_set value layers)

lookup-extend :
    {V : Type 0} (name : String) (m entries : List (String × V))
    → lookup String-discrete name (extend m entries)
      ≡ overlay_option (last_entry name entries) (lookup String-discrete name m)
lookup-extend name m [] = refl
lookup-extend name m ((key, v) ∷ later) =
    lookup-extend name (insert_sorted key v m) later
    ∙ ap (overlay_option (last_entry name later)) (lookup-insert_sorted key name v m)
    ∙ ground arith

sdk_once :
    (r : ResolvedConfig) (l : ConfigLayer)
    → (merge r l).android.sdk_path ≡ overlay_option l.android.sdk_path r.android.sdk_path
sdk_once r l = elim (Option-cases l.android.sdk_path) [
  | inl e ↦ ground (arith, e)
  | inr (path, e) ↦ ground (arith, e)
]

merge_all-Resolves : (layers : Layers) → Resolves layers (merge_all default_config layers)
merge_all-Resolves layers = record {
  default_module_is =
      option-merge_all (λ r. r.project.default_module) (λ l. l.project.default_module) (λ r l. refl)
        refl layers;
  default_variant_is =
      option-merge_all (λ r. r.project.default_variant) (λ l. l.project.default_variant)
        (λ r l. refl) refl layers;
  sdk_path_is =
      option-merge_all (λ r. r.android.sdk_path) (λ l. l.android.sdk_path) sdk_once refl layers;
  arguments_is =
      get-merge_all (λ r. r.gradle_arguments) (λ l. l.gradle.arguments) (λ r l. refl) default_config
        layers;
  keymap_is = get-merge_all (λ r. r.keymap) (λ l. l.ui.keymap) (λ r l. refl) default_config layers;
  reduced_motion_is =
      get-merge_all (λ r. r.reduced_motion) (λ l. l.ui.reduced_motion) (λ r l. refl) default_config
        layers;
  unicode_is =
      get-merge_all (λ r. r.unicode_mode) (λ l. l.ui.unicode_mode) (λ r l. refl) default_config
        layers;
  buffer_mib_is =
      get-merge_all (λ r. r.logcat_buffer_mib) (λ l. l.logcat.buffer_mib) (λ r l. refl)
        default_config layers;
  priority_is =
      get-merge_all (λ r. r.logcat_minimum_priority) (λ l. l.logcat.minimum_priority) (λ r l. refl)
        default_config layers;
  scope_is =
      get-merge_all (λ r. r.logcat_default_scope) (λ l. l.logcat.default_scope) (λ r l. refl)
        default_config layers;
  editor_is =
      option-merge_all (λ r. r.editor_command) (λ l. l.editor.command) (λ r l. refl) refl layers;
  profiles_are = λ name.
      option-merge_all (λ r. lookup String-discrete name r.profiles)
        (λ l. last_entry name l.profiles) (λ r l. lookup-extend name r.profiles l.profiles)
        (unfold lookup in refl) layers;
  commands_are = λ name.
      option-merge_all (λ r. lookup String-discrete name r.commands)
        (λ l. last_entry name l.commands) (λ r l. lookup-extend name r.commands l.commands)
        (unfold lookup in refl) layers;
}

pub apply-valid :
    (r : ResolvedConfig) (l : ConfigLayer) (path : String)
    → ValidLayer l
    → apply r l path ≡ ok (merge r l)
unfolding apply
apply-valid r l path valid = rw ((validate_iff l path).1 valid) refl

pub apply-ok :
    (r next : ResolvedConfig) (l : ConfigLayer) (path : String)
    → apply r l path ≡ ok next
    → ValidLayer l × (merge r l ≡ next)
unfolding apply
apply-ok r next l path h = elim (Result-cases (validate l path)) [
  | inl (tt, e) ↦ ((validate_iff l path).0 e, ground (arith, e))
  | inr (f, e) ↦ absurd (ground (arith, e))
]

apply_all-valid :
    (r : ResolvedConfig) (layers : Layers)
    → All (λ entry. ValidLayer entry.0) layers
    → apply_all r layers ≡ ok (merge_all r layers)
unfolding apply_all merge_all
apply_all-valid r [] h = refl
apply_all-valid r ((l, path) ∷ later) (here, rest) =
    rw (apply-valid r l path here) (apply_all-valid (merge r l) later rest)

pub apply_all-ok :
    (r last : ResolvedConfig) (layers : Layers)
    → apply_all r layers ≡ ok last
    → All (λ entry. ValidLayer entry.0) layers × (merge_all r layers ≡ last)
unfolding apply_all merge_all
apply_all-ok r last [] h = (tt, ground arith)
apply_all-ok r last ((l, path) ∷ later) h = elim (Result-cases (apply r l path)) [
  | inl (next, e) ↦
      let (valid, same) = apply-ok r next l path e in
      let (rest, final) = apply_all-ok next last later (ground (arith, e)) in
      ((valid, rest), ap (λ c. merge_all c later) same ∙ final)
  | inr (f, e) ↦ absurd (ground (arith, e))
]

-- If every layer is valid, they are all applied, and each value of the configuration they resolve
-- to is that of the last layer that sets it, or else the default; each profile and each command is
-- that of the last layer with its name.
pub apply_all-Resolves :
    (layers : Layers)
    → All (λ entry. ValidLayer entry.0) layers
    → (r : ResolvedConfig) × ((apply_all default_config layers ≡ ok r) × Resolves layers r)
apply_all-Resolves layers valid = (
  merge_all default_config layers,
  (apply_all-valid default_config layers valid, merge_all-Resolves layers),
)

pub resolved-Resolves :
    (layers : Layers) (r : ResolvedConfig)
    → apply_all default_config layers ≡ ok r
    → Resolves layers r
resolved-Resolves layers r h =
    subst (Resolves layers) (apply_all-ok default_config r layers h).1 (merge_all-Resolves layers)
