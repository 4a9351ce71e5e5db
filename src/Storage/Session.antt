-- ===== src/Storage/Session.antt =====
-- crates/dexdeck-config/src/session.rs: what is selected, kept on disk from one run to the next.
use dexdeck.Common.{
  ◌≡◌, refl, ap, ◌∙◌, arith, ℕ, String, String-discrete, Option, none, some, Bool, false,
  Bool-cases, Option-cases, inl, inr, List, [], ◌∷◌, any, find, find-any, decide, if◌then◌else◌,
}
use dexdeck.Protocol.Log.{LogFilterSpec}
use dexdeck.Protocol.Model.{ProjectModel, AndroidModule}
use dexdeck.ModelWatch.{SessionSelection, is_at, has_variant, restored, keep_if}
use dexdeck.Storage.{StorageError}
use dexdeck.Storage.Files.{
  OnDisk, FileSystem, Json, RecoveredFile, write_json_atomic, load_json_recovering,
}

abbrev pub session_schema_version : ℕ
session_schema_version = 1

pub record SessionState : Type 0 where
  pub module_path : Option String
  pub variant : Option String
  pub device : Option String
  pub workspace : Option String
  pub log_filter : Option LogFilterSpec
  pub reduced_motion : Bool

-- `find` where the module that is looked for may be none.
abbrev pub find_module : Option ProjectModel → Option String → Option AndroidModule
find_module none path = none
find_module (some model) none = none
find_module (some model) (some path) = find (is_at path) model.modules

abbrev pub has_selected : Option String → AndroidModule → Bool
has_selected none m = false
has_selected (some name) m = has_variant name m

abbrev pub retain_selected : Option AndroidModule → SessionState → SessionState
retain_selected none s = record s { module_path = none; variant = none }
retain_selected (some m) s = if has_selected s.variant m then s else record s { variant = none }

abbrev pub is_one_of : List String → String → Bool
is_one_of serials serial = any (λ other. decide (String-discrete other serial)) serials

abbrev pub has_device : List String → Option String → Bool
has_device serials none = false
has_device serials (some serial) = is_one_of serials serial

unfoldable pub retain_valid : Option ProjectModel → List String → SessionState → SessionState
retain_valid model device_serials s =
    let kept = retain_selected (find_module model s.module_path) s in
    if has_device device_serials kept.device then kept else record kept { device = none }

module _ (fs : FileSystem) (json : Json fs SessionState) where
  unfoldable pub load_session :
      (display : StorageError → String) (now : ℕ) (path : String)
      → OnDisk fs.Disk StorageError (RecoveredFile SessionState)
  load_session display now path =
      load_json_recovering fs display now json path session_schema_version

  unfoldable pub save_session :
      (path : String) → SessionState → OnDisk fs.Disk StorageError (Unit {0})
  save_session path session =
      write_json_atomic fs json path
        (record { schema_version = session_schema_version; data_of = session })

-- The part of a session that `ModelWatch` knows.
abbrev pub selection_of : SessionState → SessionSelection
selection_of s = record { module_path = s.module_path; variant = s.variant }

-- `find` finds nothing where `any` says so.
find-none {ℓ} : {A : Type ℓ} (p : A → Bool) (xs : List A) → any p xs ≡ false → find p xs ≡ none
find-none p [] h = refl
find-none p (x ∷ xs) h = elim (Bool-cases (p x)) [
  | inl t ↦ absurd (ground (arith, t, h))
  | inr f ↦ rw f (find-none p xs (ground (arith, f, h)))
]

selected-restored :
    (model : ProjectModel) (s : SessionState)
    → selection_of (retain_selected (find_module (some model) s.module_path) s)
      ≡ restored (selection_of s) model
unfolding restored
selected-restored model s = elim (Option-cases s.module_path) [
  | inl e ↦ rw e refl
  | inr (path, e) ↦ elim (Bool-cases (any (is_at path) model.modules)) [
    | inr gone ↦ rw (e, gone, find-none (is_at path) model.modules gone) refl
    | inl there ↦
        let (m, found) = find-any (is_at path) model.modules there in
        elim (Option-cases s.variant) [
          | inl n ↦ rw (e, there, found, n) refl
          | inr (name, n) ↦ elim (Bool-cases (has_variant name m)) [
            | inl has ↦ rw (e, there, found, n, has) refl
            | inr lacks ↦ rw (e, there, found, n, lacks) refl
          ]
        ]
  ]
]

retain_selected-device :
    (m : Option AndroidModule) (s : SessionState) → (retain_selected m s).device ≡ s.device
retain_selected-device none s = refl
retain_selected-device (some m) s = elim (Bool-cases (has_selected s.variant m)) [
  | inl has ↦ rw has refl
  | inr lacks ↦ rw lacks refl
]

keep_device :
    (serials : List String) (s : SessionState)
    → (if has_device serials s.device then s else record s { device = none }).device
      ≡ keep_if (is_one_of serials) s.device
keep_device serials s = elim (Option-cases s.device) [
  | inl n ↦ rw n refl
  | inr (serial, e) ↦ elim (Bool-cases (is_one_of serials serial)) [
    | inl present ↦ rw (e, present) refl
    | inr gone ↦ rw (e, gone) refl
  ]
]

keep_selection :
    (serials : List String) (s : SessionState)
    → selection_of (if has_device serials s.device then s else record s { device = none })
      ≡ selection_of s
keep_selection serials s = elim (Bool-cases (has_device serials s.device)) [
  | inl present ↦ rw present refl
  | inr gone ↦ rw gone refl
]

-- With a model, a session keeps the module and the variant that the watch of the model restores,
-- and its device just when the device is present.
pub retain_valid-restored :
    (model : ProjectModel) (device_serials : List String) (s : SessionState)
    → (selection_of (retain_valid (some model) device_serials s) ≡ restored (selection_of s) model)
      × ((retain_valid (some model) device_serials s).device
          ≡ keep_if (is_one_of device_serials) s.device)
unfolding retain_valid
retain_valid-restored model device_serials s =
    let kept = retain_selected (find_module (some model) s.module_path) s in
    (
      keep_selection device_serials kept ∙ selected-restored model s,
      keep_device device_serials kept
          ∙ ap (keep_if (is_one_of device_serials))
              (retain_selected-device (find_module (some model) s.module_path) s),
    )
