-- ===== src/ModelRefresh.antt =====
-- crates/dexdeck-gradle/src/refresh.rs: which answer of a model refresh is taken. The model itself
-- is any type, since it is only stored. The generation is a `u64`, which wraps.

pub mod Sessions
use dexdeck.Common.{ℕ, ◌+◌, ◌%◌, ◌^◌, Option, none, some, Bool, true, false, if◌then◌else◌, ◌==◌}

pub data Freshness : Type 0 where
  current refreshing stale degraded provisional : Freshness

module _ (Model : Type 0) where
  pub record ModelRefresh : Type 0 where
    pub model : Option Model
    pub freshness : Freshness
    pub generation : ℕ

module _ {Model : Type 0} where
  -- `stale` if a model is there.
  abbrev pub resting : Option Model → Freshness
  resting none = provisional
  resting (some _) = stale

  unfoldable pub new : Option Model → ModelRefresh Model
  new m = record { model = m; freshness = resting m; generation = 0 }

  unfoldable pub begin : ModelRefresh Model → ModelRefresh Model × ℕ
  begin r =
      let next = (r.generation + 1) % 2 ^ 64 in
      (record r { generation = next; freshness = refreshing }, next)

  unfoldable pub complete : ℕ → Model → ModelRefresh Model → ModelRefresh Model × Bool
  complete generation m r =
      if generation == r.generation
      then (record r { model = some m; freshness = current }, true)
      else (r, false)

  unfoldable pub fail : ℕ → Bool → ModelRefresh Model → ModelRefresh Model
  fail generation is_degraded r =
      if generation == r.generation
      then record r { freshness = if is_degraded then degraded else stale }
      else r

  unfoldable pub cancel : ModelRefresh Model → ModelRefresh Model
  cancel r = record r { generation = (r.generation + 1) % 2 ^ 64; freshness = resting r.model }
