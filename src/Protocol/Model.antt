-- ===== src/Protocol/Model.antt =====
-- crates/dexdeck-protocol/src/model.rs. Paths are texts.
use dexdeck.Common.{ℕ, String, Option, none, List, [], Bool}
use dexdeck.Protocol.Diagnostic.{Diagnostic}

pub record BuildInfo : Type 0 where
  pub root : String
  pub gradle_version : String
  pub agp_version : Option String
  pub java_version : Option String
  pub kotlin_plugin_version : Option String

pub record IncludedBuild : Type 0 where
  pub id : String
  pub root : String
  pub primary : Bool

pub data ModuleKind : Type 0 where
  application library : ModuleKind

pub record FlavorDimension : Type 0 where
  pub name : String
  pub order : ℕ

pub record ProductFlavor : Type 0 where
  pub name : String
  pub dimension : String

pub record BuildType : Type 0 where
  pub name : String
  pub debuggable : Option Bool

pub record VariantFlavor : Type 0 where
  pub dimension : String
  pub flavor : String

pub record VariantTasks : Type 0 where
  pub assemble : Option String
  pub bundle : Option String
  pub install : Option String
  pub lint : Option String

pub record LaunchComponent : Type 0 where
  pub package_name : Option String
  pub activity : String

pub data ArtifactKind : Type 0 where
  apk test_apk bundle aar other : ArtifactKind

pub record Artifact : Type 0 where
  pub kind : ArtifactKind
  pub path : String
  pub filters : List String

pub data TestComponentKind : Type 0 where
  unit instrumentation other : TestComponentKind

pub record TestComponent : Type 0 where
  pub name : String
  pub kind : TestComponentKind
  pub task : String
  pub runner : Option String
  pub result_directories : List String

pub record Variant : Type 0 where
  pub name : String
  pub enabled : Bool
  pub build_type : String
  pub flavors : List VariantFlavor
  pub application_id : Option String
  pub namespace : Option String
  pub debuggable : Option Bool
  pub launcher : Option LaunchComponent
  pub tasks : VariantTasks
  pub artifacts : List Artifact
  pub test_components : List TestComponent

pub record AndroidModule : Type 0 where
  pub path : String
  pub build_id : String
  pub project_directory : String
  pub kind : ModuleKind
  pub namespace : Option String
  pub compile_sdk : Option ℕ
  pub target_sdk : Option ℕ
  pub minimum_sdk : Option ℕ
  pub flavor_dimensions : List FlavorDimension
  pub product_flavors : List ProductFlavor
  pub build_types : List BuildType
  pub variants : List Variant

pub data TaskKind : Type 0 where
  assemble bundle install unit_test instrumentation_test lint verification other : TaskKind

pub record GradleTask : Type 0 where
  pub path : String
  pub name : String
  pub group : Option String
  pub description : Option String
  pub origin_build : String
  pub module_name : Option String
  pub variant : Option String
  pub kind : TaskKind

pub record ProjectModel : Type 0 where
  pub root : String
  pub build : BuildInfo
  pub included_builds : List IncludedBuild
  pub modules : List AndroidModule
  pub tasks : List GradleTask
  pub diagnostics : List Diagnostic

unfoldable pub empty : String → ProjectModel
empty root = record {
  root = root;
  build = record {
    root = root;
    gradle_version = "";
    agp_version = none;
    java_version = none;
    kotlin_plugin_version = none;
  };
  included_builds = [];
  modules = [];
  tasks = [];
  diagnostics = [];
}
