-- ===== src/Runtime.antt =====
-- crates/dexdeck-core/src/runtime.rs: actions in, a new state and effect requests out, with a
-- cancellation token for each effect that is under way. A token is shared by its clones: it is
-- named by a number, and `cancelled` lists the tokens that have been cancelled. Whether the
-- receiver of the effects still takes the next request is an argument, as are the reducer and the
-- clock. The ids are those of `AtomicIdGenerator`, whose `fetch_add` wraps.
pub mod Cancellation
use dexdeck.Common.{
  ℕ, ◌+◌, ◌%◌, ◌^◌, Option, none, some, Bool, List, [], ◌∷◌, ◌++◌, if◌then◌else◌, lookup, insert,
  remove, ℕ_discrete, ◌==◌,
}

pub data RuntimeError : Type 0 where
  invalid_capacity effect_channel_closed : RuntimeError

module _ (E : Type 0) where
  pub record EffectRequest : Type 0 where
    pub id : ℕ
    pub requested_at_ms : ℕ
    pub effect : E
    pub cancellation : ℕ

module _ (S E : Type 0) where
  pub record Reduction : Type 0 where
    pub state : S
    pub effects : List E

  pub record Runtime : Type 0 where
    pub state : S
    pub next_id : ℕ
    pub cancellations : List (ℕ × ℕ)
    pub next_token : ℕ
    pub cancelled : List ℕ
    pub sent : List (EffectRequest E)

module _ {S E : Type 0} where
  -- `none` is the error `InvalidCapacity`.
  unfoldable pub new : S → ℕ → ℕ → ℕ → Option (Runtime S E)
  new initial first action_capacity effect_capacity =
      if action_capacity == 0
      then none
      else (if effect_capacity == 0
          then none
          else some (record {
            state = initial;
            next_id = first;
            cancellations = [];
            next_token = 0;
            cancelled = [];
            sent = [];
          }))

  -- `token.cancel()` on the token of an effect that is under way.
  unfoldable pub cancel_target : Option ℕ → Runtime S E → Runtime S E
  cancel_target none r = r
  cancel_target (some id) r = elim (lookup ℕ_discrete id r.cancellations) [
    | none ↦ r
    | some token ↦ record r { cancelled = token ∷ r.cancelled }
  ]

  unfoldable pub forget_completed : Option ℕ → Runtime S E → Runtime S E
  forget_completed none r = r
  forget_completed (some id) r = record r { cancellations = remove ℕ_discrete id r.cancellations }

  -- A new id and token for the effect, entered before the request is sent.
  unfoldable pub register : Runtime S E → Runtime S E
  register r = record r {
    next_id = (r.next_id + 1) % 2 ^ 64;
    next_token = r.next_token + 1;
    cancellations = insert ℕ_discrete r.next_id r.next_token r.cancellations;
  }

  abbrev pub request : ℕ → E → Runtime S E → EffectRequest E
  request now e r = record {
    id = r.next_id;
    requested_at_ms = now;
    effect = e;
    cancellation = r.next_token;
  }

  -- The `for` loop over the effects; `accepts` says whether a send finds the receiver there.
  unfoldable pub send_effects :
      (ℕ → Bool) → ℕ → List E → Runtime S E → Runtime S E × Option RuntimeError
  unfolding register
  send_effects accepts now [] r = (r, none)
  send_effects accepts now (e ∷ es) r =
      let q = register r in
      let rest = send_effects accepts now es (record q { sent = q.sent ++ request now e r ∷ [] }) in
      if accepts r.next_id then rest else (
        record q { cancellations = remove ℕ_discrete r.next_id q.cancellations },
        some effect_channel_closed,
      )

  module _ {A : Type 0} (completed_effect cancellation_target : A → Option ℕ)
      (reducer : S → A → ℕ → Reduction S E) where
    -- `none` is success.
    unfoldable pub step : (ℕ → Bool) → ℕ → A → Runtime S E → Runtime S E × Option RuntimeError
    unfolding cancel_target forget_completed send_effects
    step accepts now a r =
        let r' = forget_completed (completed_effect a) (cancel_target (cancellation_target a) r) in
        let reduction = reducer r'.state a now in
        send_effects accepts now reduction.effects (record r' { state = reduction.state })

    -- `run`: the actions as they are received, each with the time; an error ends it.
    unfoldable pub run : (ℕ → Bool) → List (ℕ × A) → Runtime S E → Runtime S E × Option RuntimeError
    unfolding step
    run accepts [] r = (r, none)
    run accepts ((now, a) ∷ actions) r =
        let r' = (step accepts now a r).0 in
        elim (step accepts now a r).1 [ none ↦ run accepts actions r' | some e ↦ (r', some e) ]
