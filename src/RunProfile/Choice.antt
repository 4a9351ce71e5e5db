-- ===== src/RunProfile/Choice.antt =====
-- crates/dexdeck-core/src/run_profile.rs: each choice is among what there is.

use mathlib.Core.List.{Memᴰ}
use dexdeck.Common.{
  ◌≡◌, ◌≢◌, refl, sym, ap, ◌∙◌, subst, arith, String, String-discrete, Option, none, some, Bool,
  true, false, ◌&&◌, Bool-cases, Option-cases, inl, inr, List, [], ◌∷◌, retain, find, find-Memᴰ,
  decide,
}
use dexdeck.Common.Results.{ok, fail_if_iff, bind_ok, ok_or_else, ok_injective}
use dexdeck.Protocol.Model.{ProjectModel, AndroidModule, Variant}
use dexdeck.Config.Resolver.{overlay_option}
use dexdeck.RunProfile.{
  DeviceState, online, AndroidDevice, RunProfileError, only, select_module, select_variant,
  by_description, select_device, maybe_device, is_online, check_online, no_application_id, is_none,
}

module _ {A : Type 0} where
  only-Memᴰ :
      (xs : List A) (nothing several : RunProfileError) {x : A}
      → only xs nothing several ≡ ok x
      → Memᴰ x xs
  only-Memᴰ [] nothing several h = cc
  only-Memᴰ (y ∷ []) nothing several h = Memᴰ.head (sym (ok_injective h))
  only-Memᴰ (y ∷ z ∷ xs) nothing several h = cc

  longer : {x y : A} {xs ys : List A} → (Memᴰ x xs → Memᴰ x ys) → Memᴰ x (y ∷ xs) → Memᴰ x (y ∷ ys)
  longer f (Memᴰ.head e) = Memᴰ.head e
  longer f (Memᴰ.tail m) = Memᴰ.tail (f m)

  retain-Memᴰ : (p : A → Bool) (xs : List A) {x : A} → Memᴰ x (retain p xs) → Memᴰ x xs
  retain-Memᴰ p [] m = m
  retain-Memᴰ p (y ∷ xs) {x} m = elim (Bool-cases (p y)) [
    | inl t ↦ longer (retain-Memᴰ p xs) (subst (λ ys. Memᴰ x ys) (rw t refl) m)
    | inr f ↦ Memᴰ.tail (retain-Memᴰ p xs (subst (λ ys. Memᴰ x ys) (rw f refl) m))
  ]

  found :
      (o : Option A) (failure : RunProfileError) {x : A} → ok_or_else o failure ≡ ok x → o ≡ some x
  found none failure h = cc
  found (some y) failure h = ap some (ok_injective h)

decided : (a b : String) → decide (String-discrete a b) ≡ true → a ≡ b
unfolding decide
decided a b h = elim (String-discrete a b) [ yes e ↦ e | no n ↦ absurd (ground arith) ]

some_injective : {a b : String} → ◌≡◌ {A = Option String} (some a) (some b) → a ≡ b
some_injective h = cc

pub select_module-known :
    (model : ProjectModel) (o : Option String) (m : AndroidModule)
    → select_module model o ≡ ok m
    → Memᴰ m model.modules × ((path : String) → o ≡ some path → m.path ≡ path)
unfolding select_module
select_module-known model none m h = (retain-Memᴰ _ model.modules (only-Memᴰ _ _ _ h), λ path e. cc)
select_module-known model (some selected) m h =
    let (member, at) = find-Memᴰ _ model.modules (found _ _ h) in
    (member, λ path e. decided m.path selected at ∙ some_injective e)

pub select_variant-known :
    (m : AndroidModule) (o : Option String) (v : Variant)
    → select_variant m o ≡ ok v
    → Memᴰ v m.variants × ((name : String) → o ≡ some name → v.name ≡ name)
unfolding select_variant
select_variant-known m none v h = (retain-Memᴰ _ m.variants (only-Memᴰ _ _ _ h), λ name e. cc)
select_variant-known m (some selected) v h =
    let (member, at) = find-Memᴰ _ m.variants (found _ _ h) in
    (member, λ name e. decided v.name selected at ∙ some_injective e)

select_device-known :
    (devices : List AndroidDevice) (selector : String) (d : AndroidDevice)
    → select_device devices selector ≡ ok d
    → Memᴰ d devices
unfolding select_device
select_device-known devices selector d h =
    elim (Option-cases (find (λ e. decide (String-discrete e.serial selector)) devices)) [
      | inl e ↦
          retain-Memᴰ _ devices
            (only-Memᴰ _ _ _ (subst (λ o. by_description devices selector o ≡ ok d) e h))
      | inr (x, e) ↦
          (find-Memᴰ _ devices (
            e
            ∙ ap some (ok_injective (subst (λ o. by_description devices selector o ≡ ok d) e h)))).0
    ]

pub maybe_device-known :
    (devices : List AndroidDevice) (chosen : Option AndroidDevice) (selector : Option String)
    → maybe_device devices selector ≡ ok chosen
    → (d : AndroidDevice) → chosen ≡ some d
    → Memᴰ d devices
maybe_device-known devices chosen none h d e = cc
maybe_device-known devices chosen (some selector) h d e =
    let (x, (ex, hx)) = bind_ok (select_device devices selector) _ h in
    select_device-known devices selector d (ex ∙ ap ok (cc))

online_state : (state : DeviceState) → is_online state ≡ true → state ≡ online
online_state online h = refl
online_state DeviceState.offline h = cc
online_state DeviceState.unauthorized h = cc
online_state DeviceState.no_permissions h = cc
online_state DeviceState.bootloader h = cc
online_state DeviceState.recovery h = cc
online_state DeviceState.sideload h = cc
online_state (DeviceState.unknown name) h = cc

pub check_online-online :
    (o : Option AndroidDevice)
    → check_online o ≡ ok tt
    → (d : AndroidDevice) → o ≡ some d
    → d.state ≡ online
check_online-online none h d e = cc
check_online-online (some x) h d e =
    subst (λ y. y.state ≡ online) (some_device e)
      (online_state x.state (ground (arith, (fail_if_iff _ _).0 h)))
  where
    some_device : {a b : AndroidDevice} → ◌≡◌ {A = Option AndroidDevice} (some a) (some b) → a ≡ b
    some_device h = cc

pub application_id :
    (o : Option String)
    → no_application_id o ≡ false
    → (id : String) × ((o ≡ some id) × (id ≢ String.[]))
application_id none h = cc
application_id (some String.[]) h = cc
application_id (some (String.◌∷◌ c rest)) h = (String.◌∷◌ c rest, (refl, λ e. cc))

pub selected_first :
    (a b c : Option String) (v : String)
    → a ≡ some v
    → overlay_option a (overlay_option b c) ≡ some v
selected_first a b c v e = rw e refl

pub given :
    (o : Option AndroidDevice) (required : Bool)
    → (required && is_none o) ≡ false
    → required ≡ true
    → (d : AndroidDevice) × (o ≡ some d)
given none required h e = absurd (ground arith)
given (some d) required h e = (d, refl)
