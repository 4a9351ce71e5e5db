-- ===== src/ModelWatch/Selection.antt =====
-- A selection is restored only as far as the new model still has it.
use dexdeck.Common.{
  String, String-discrete, ◌≡◌, arith, ◌⊎◌, inl, inr, none, some, true, Bool-cases, Option-cases,
  any, decide, find-Memᴰ, find-any,
}
use dexdeck.Protocol.Model.{ProjectModel, AndroidModule}
use dexdeck.ModelWatch.{SessionSelection, is_at, has_variant, restored}
use mathlib.Core.List.{Memᴰ}

-- A module of the model is selected, and a selected variant is one of that module's.
abbrev pub IsIn : ProjectModel → SessionSelection → Type 0
IsIn model s =
    ((s.module_path ≡ none) × (s.variant ≡ none))
    ⊎ ((path : String) × (m : AndroidModule) × (s.module_path ≡ some path)
        × Memᴰ m model.modules
        × (m.path ≡ path)
        × ((s.variant ≡ none)
            ⊎ ((name : String) × (s.variant ≡ some name)
                × (any (λ v. decide (String-discrete v.name name)) m.variants ≡ true))))

-- Whatever was selected before, the restored selection is empty, or names a module of the model,
-- and with it no variant or one of that module's variants.
pub restored-IsIn : (s : SessionSelection) (model : ProjectModel) → IsIn model (restored s model)
unfolding restored decide
restored-IsIn s model = elim (Option-cases s.module_path) [
  | inl e ↦ inl (rw e, rw e)
  | inr (path, e) ↦ elim (Bool-cases (any (is_at path) model.modules)) [
    | inr gone ↦ inl (rw (e, gone), rw (e, gone))
    | inl there ↦
        let (m, found) = find-any (is_at path) model.modules there in
        let (member, at) = find-Memᴰ (is_at path) model.modules found in
        inr (
          path,
          m,
          rw (e, there),
          member,
          ground arith,
          elim (Option-cases s.variant) [
            | inl n ↦ inl (rw (e, there, n))
            | inr (name, n) ↦ elim (Bool-cases (has_variant name m)) [
              | inl has ↦ inr (name, rw (e, there, n, found, has), has)
              | inr lacks ↦ inl (rw (e, there, n, found, lacks))
            ]
          ],
        )
  ]
]
