-- ===== src/Config/Secure.antt =====
-- crates/dexdeck-config: what every loaded configuration keeps to, whatever its sources say.
use dexdeck.Common.{
  ◌≡◌, sym, ◌∙◌, subst, arith, ◌*◌, String, String-discrete, Option, none, some, Option-cases, List,
  [], ◌∷◌, inl, inr, lookup, All, ite,
}
use dexdeck.Common.Results.{ok}
use dexdeck.LogBuffer.{empty_buffer, new, from_mib}
use dexdeck.Storage.{IoError}
use dexdeck.Common.Results.{Result}
use dexdeck.Config.{ConfigLayer, ProfileConfig, CommandConfig}
use dexdeck.Config.Valid.{ValidLayer, ValidSize, ValidProfile, ValidCommand, IfSome}
use dexdeck.Config.Resolver.{ResolvedConfig, default_config, overlay}
use dexdeck.Config.Precedence.{
  Layers, apply_all, last_set, last_entry, Resolves, apply_all-ok, resolved-Resolves,
}
use dexdeck.Config.Parse.{TomlEdit}
use dexdeck.Config.Loader.{ConfigSources, LoadedConfig, load}
use dexdeck.Config.Sources.{layers_of, load-layers}

-- What the resolved values are good for.
pub record Secure (r : ResolvedConfig) : Type 0 where
  pub size_fits : ValidSize r.logcat_buffer_mib
  pub profiles_valid :
      (name : String) (profile : ProfileConfig)
      → lookup String-discrete name r.profiles ≡ some profile
      → ValidProfile (name, profile)
  pub commands_valid :
      (name : String) (command : CommandConfig)
      → lookup String-discrete name r.commands ≡ some command
      → ValidCommand (name, command)

module _ {A : Type 0} (P : A → Type 0) (value : ConfigLayer → Option A)
    (each : (l : ConfigLayer) → ValidLayer l → IfSome P (value l)) where
  last_set_holds :
      (layers : Layers)
      → All (λ entry. ValidLayer entry.0) layers
      → IfSome P (last_set value layers)
  last_set_holds [] h = tt
  last_set_holds ((l, path) ∷ later) (here, rest) = elim (Option-cases (last_set value later)) [
    | inl e ↦ rw e (each l here)
    | inr (a, e) ↦ rw e (subst (IfSome P) e (last_set_holds later rest))
  ]

module _ {V : Type 0} (P : String × V → Type 0) where
  named_holds :
      (name key : String) (v : V) (same : Dec (key ≡ name))
      → P (key, v)
      → IfSome (λ w. P (name, w)) (ite same (some v) none)
  named_holds name key v (yes e) here = subst (λ k. P (k, v)) e here
  named_holds name key v (no n) here = tt

  last_entry_holds :
      (name : String) (entries : List (String × V))
      → All P entries
      → IfSome (λ v. P (name, v)) (last_entry name entries)
  last_entry_holds name [] h = tt
  last_entry_holds name ((key, v) ∷ m) (here, rest) = elim (Option-cases (last_entry name m)) [
    | inl e ↦ rw e (named_holds name key v (String-discrete key name) here)
    | inr (a, e) ↦ rw e (subst (IfSome (λ w. P (name, w))) e (last_entry_holds name m rest))
  ]

overlay_holds :
    {A : Type 0} (P : A → Type 0) (o : Option A) (a : A) → IfSome P o → P a → P (overlay o a)
overlay_holds P none a h k = k
overlay_holds P (some b) a h k = h

resolved-Secure :
    (layers : Layers) (r : ResolvedConfig) → apply_all default_config layers ≡ ok r → Secure r
resolved-Secure layers r h = record {
  size_fits = subst ValidSize (sym values.buffer_mib_is) (
      overlay_holds ValidSize _ 32
        (last_set_holds ValidSize (λ l. l.logcat.buffer_mib) (λ l valid. valid.1.1.0) layers valid)
        (omega arith, omega arith));
  profiles_valid = λ name profile e.
      subst (IfSome (λ v. ValidProfile (name, v))) (sym (values.profiles_are name) ∙ e) (
        last_set_holds _ (λ l. last_entry name l.profiles)
          (λ l v. last_entry_holds ValidProfile name l.profiles v.1.1.1.0) layers valid);
  commands_valid = λ name command e.
      subst (IfSome (λ v. ValidCommand (name, v))) (sym (values.commands_are name) ∙ e) (
        last_set_holds _ (λ l. last_entry name l.commands)
          (λ l v. last_entry_holds ValidCommand name l.commands v.1.1.1.1) layers valid);
}
  where
    valid : All (λ entry. ValidLayer entry.0) layers
    valid = (apply_all-ok default_config r layers h).0

    values : Resolves layers r
    values = resolved-Resolves layers r h

module _ (toml : TomlEdit) (checked_read read_to_string : String → Result IoError String) where
  -- If loading succeeds, whatever the sources were, the size of the log buffer is between 8 and
  -- 1024 MiB, and in each profile and command found by its name the environment is valid: the names
  -- are well formed, and a name that contains the mark of a secret has a reference for its value.
  pub load-Secure :
      (sources : ConfigSources) (loaded : LoadedConfig toml)
      → load toml checked_read read_to_string sources ≡ ok loaded
      → Secure loaded.resolved
  load-Secure sources loaded h =
      resolved-Secure (layers_of toml read_to_string sources) loaded.resolved
        (load-layers toml checked_read read_to_string sources loaded h).1

  -- If loading succeeds, a log buffer of the configured size can be made.
  pub load-from_mib :
      (sources : ConfigSources) (loaded : LoadedConfig toml)
      → load toml checked_read read_to_string sources ≡ ok loaded
      → from_mib loaded.resolved.logcat_buffer_mib
        ≡ some (empty_buffer (loaded.resolved.logcat_buffer_mib * 1024 * 1024))
  unfolding from_mib new
  load-from_mib sources loaded h =
      let (low, high) = (load-Secure sources loaded h).size_fits in ground arith
