-- ===== src/Config/Resolver.antt =====
-- crates/dexdeck-config/src/resolve.rs: the layers applied one over the other. A `&mut self`
-- method returns the resolver after it, or the failure; a failed `apply` has changed nothing.
use dexdeck.Common.{ℕ, String, Option, none, some, Bool, false, List, []}
use dexdeck.Common.Ordered.{extend}
use dexdeck.Common.Results.{Result, ok, ◌>>=◌}
use dexdeck.Protocol.Log.{LogPriority, debug}
use dexdeck.Config.{
  ProjectConfig, AndroidConfig, GradleConfig, UiConfig, LogcatConfig, EditorConfig, ProfileConfig,
  CommandConfig, ConfigLayer, ConfigError, KeymapPreset, default_keys, UnicodeMode, auto, LogScope,
  application,
}
use dexdeck.Config.Validation.{validate}

pub record ResolvedConfig : Type 0 where
  pub project : ProjectConfig
  pub android : AndroidConfig
  pub gradle_arguments : List String
  pub keymap : KeymapPreset
  pub reduced_motion : Bool
  pub unicode_mode : UnicodeMode
  pub logcat_buffer_mib : ℕ
  pub logcat_minimum_priority : LogPriority
  pub logcat_default_scope : LogScope
  pub editor_command : Option (List String)
  pub profiles : List (String × ProfileConfig)
  pub commands : List (String × CommandConfig)

-- `ConfigResolver::new`; the resolver is the configuration it has resolved.
abbrev pub default_config : ResolvedConfig
default_config = record {
  project = record { default_module = none; default_variant = none };
  android = record { sdk_path = none };
  gradle_arguments = [];
  keymap = default_keys;
  reduced_motion = false;
  unicode_mode = auto;
  logcat_buffer_mib = 32;
  logcat_minimum_priority = debug;
  logcat_default_scope = application;
  editor_command = none;
  profiles = [];
  commands = [];
}

-- `if let Some(value) = layer { resolved = value }`.
abbrev pub overlay : {A : Type 0} → Option A → A → A
overlay none resolved = resolved
overlay (some value) resolved = value

abbrev pub overlay_option : {A : Type 0} → Option A → Option A → Option A
overlay_option none resolved = resolved
overlay_option (some value) resolved = some value

abbrev apply_project : ProjectConfig → ProjectConfig → ProjectConfig
apply_project resolved layer = record {
  default_module = overlay_option layer.default_module resolved.default_module;
  default_variant = overlay_option layer.default_variant resolved.default_variant;
}

abbrev apply_android : AndroidConfig → AndroidConfig → AndroidConfig
apply_android resolved layer = over layer.sdk_path
  where
    over : Option String → AndroidConfig
    over none = resolved
    over (some _) = layer

abbrev apply_gradle : ResolvedConfig → GradleConfig → ResolvedConfig
apply_gradle resolved layer = record resolved {
  gradle_arguments = overlay layer.arguments resolved.gradle_arguments;
}

abbrev apply_ui : ResolvedConfig → UiConfig → ResolvedConfig
apply_ui resolved layer = record resolved {
  keymap = overlay layer.keymap resolved.keymap;
  reduced_motion = overlay layer.reduced_motion resolved.reduced_motion;
  unicode_mode = overlay layer.unicode_mode resolved.unicode_mode;
}

abbrev apply_logcat : ResolvedConfig → LogcatConfig → ResolvedConfig
apply_logcat resolved layer = record resolved {
  logcat_buffer_mib = overlay layer.buffer_mib resolved.logcat_buffer_mib;
  logcat_minimum_priority = overlay layer.minimum_priority resolved.logcat_minimum_priority;
  logcat_default_scope = overlay layer.default_scope resolved.logcat_default_scope;
}

abbrev apply_editor : ResolvedConfig → EditorConfig → ResolvedConfig
apply_editor resolved layer = record resolved {
  editor_command = overlay_option layer.command resolved.editor_command;
}

abbrev apply_maps : ResolvedConfig → ConfigLayer → ResolvedConfig
apply_maps resolved layer = record resolved {
  profiles = extend resolved.profiles layer.profiles;
  commands = extend resolved.commands layer.commands;
}

-- What `apply` does once the layer is valid.
abbrev pub merge : ResolvedConfig → ConfigLayer → ResolvedConfig
merge resolved layer =
    apply_maps
      (apply_editor
        (apply_logcat
          (apply_ui
            (apply_gradle
              (record resolved {
                project = apply_project resolved.project layer.project;
                android = apply_android resolved.android layer.android;
              })
              layer.gradle)
            layer.ui)
          layer.logcat)
        layer.editor)
      layer

unfoldable pub apply : ResolvedConfig → ConfigLayer → String → Result ConfigError ResolvedConfig
apply resolved layer source_path = do
  checked ← validate layer source_path
  ok (merge resolved layer)
