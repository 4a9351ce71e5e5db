-- ===== src/Runtime/Cancellation.antt =====
-- Which effects a cancellation reaches.
use dexdeck.Common.{
  ℕ, ◌+◌, ◌≤◌, ◌<◌, ◌≡◌, ◌≢◌, ◌⊎◌, inl, inr, refl, sym, ap, subst, ◌∙◌, arith, Option, none, some,
  Bool, true, false, List, [], ◌∷◌, ◌++◌, length, decide, lookup, insert, remove, lookup-insert,
  lookup-remove, contains, ℕ_discrete, u64_max, Bool-cases,
}
use dexdeck.Runtime.{
  Reduction, Runtime, cancel_target, forget_completed, register, request, send_effects, step,
}

inserted :
    (g k v w : ℕ) (m : List (ℕ × ℕ))
    → lookup ℕ_discrete k (insert ℕ_discrete g v m) ≡ some w
    → ((g ≡ k) × (v ≡ w)) ⊎ ((g ≢ k) × (lookup ℕ_discrete k m ≡ some w))
inserted g k v w m h = elim (ℕ_discrete g k) [
  | yes e ↦ inl (e, ground (arith, lookup-insert ℕ_discrete g k v m))
  | no n ↦ inr (n, ground (arith, lookup-insert ℕ_discrete g k v m))
]

left_over :
    (g k w : ℕ) (m : List (ℕ × ℕ))
    → lookup ℕ_discrete k (remove ℕ_discrete g m) ≡ some w
    → lookup ℕ_discrete k m ≡ some w
left_over g k w m h = elim (ℕ_discrete g k) [
  | yes e ↦ absurd (ground (arith, lookup-remove ℕ_discrete g k m))
  | no n ↦ ground (arith, lookup-remove ℕ_discrete g k m)
]

module _ {S E : Type 0} where
  -- An effect is under way with this token.
  abbrev pub Active : Runtime S E → ℕ → ℕ → Type 0
  Active r id token = lookup ℕ_discrete id r.cancellations ≡ some token

  pub record Inv (r : Runtime S E) : Type 0 where
    pub ids_used : (id token : ℕ) → Active r id token → id < r.next_id
    pub tokens_used : (id token : ℕ) → Active r id token → token < r.next_token
    pub own_token : (i k token : ℕ) → Active r i token → Active r k token → i ≡ k
    pub cancelled_used :
        (token : ℕ) → contains ℕ_discrete token r.cancelled ≡ true → token < r.next_token

  remove-Inv :
      (r : Runtime S E) (g : ℕ)
      → Inv r
      → Inv (record r { cancellations = remove ℕ_discrete g r.cancellations })
  remove-Inv r g v = record {
    ids_used = λ i t h. v.ids_used i t (left_over g i t r.cancellations h);
    tokens_used = λ i t h. v.tokens_used i t (left_over g i t r.cancellations h);
    own_token = λ i k t h l.
        v.own_token i k t (left_over g i t r.cancellations h) (left_over g k t r.cancellations l);
    cancelled_used = v.cancelled_used;
  }

  register-Inv : (r : Runtime S E) → Inv r → r.next_id < u64_max → Inv (register r)
  unfolding register
  register-Inv r v fits = record {
    ids_used = λ i t h. elim (inserted r.next_id i r.next_token t r.cancellations h) [
      | inl (e, _) ↦ omega arith
      | inr (_, l) ↦ omega (arith, v.ids_used i t l)
    ];
    tokens_used = λ i t h. elim (inserted r.next_id i r.next_token t r.cancellations h) [
      | inl (_, e) ↦ omega arith
      | inr (_, l) ↦ omega (arith, v.tokens_used i t l)
    ];
    own_token = λ i k t h l.
        both i k t (inserted r.next_id i r.next_token t r.cancellations h)
          (inserted r.next_id k r.next_token t r.cancellations l);
    cancelled_used = λ t c. omega (arith, v.cancelled_used t c);
  }
    where
      both :
          (i k t : ℕ)
          → ((r.next_id ≡ i) × (r.next_token ≡ t)) ⊎ ((r.next_id ≢ i) × Active r i t)
          → ((r.next_id ≡ k) × (r.next_token ≡ t)) ⊎ ((r.next_id ≢ k) × Active r k t)
          → i ≡ k
      both i k t (inl a) (inl b) = sym a.0 ∙ b.0
      both i k t (inl a) (inr b) = absurd (omega (arith, v.tokens_used k t b.1))
      both i k t (inr a) (inl b) = absurd (omega (arith, v.tokens_used i t a.1))
      both i k t (inr a) (inr b) = v.own_token i k t a.1 b.1

  send-Inv :
      (accepts : ℕ → Bool) (now : ℕ) (es : List E) (r : Runtime S E)
      → Inv r
      → r.next_id + length es ≤ u64_max
      → Inv (send_effects accepts now es r).0
  unfolding send_effects
  send-Inv accepts now [] r v fits = v
  send-Inv accepts now (e ∷ es) r v fits = elim (Bool-cases (accepts r.next_id)) [
    | inl t ↦ rw t (send-Inv accepts now es sent_one (kept (register-Inv r v (omega arith))) more)
    | inr t ↦ rw t (remove-Inv (register r) r.next_id (register-Inv r v (omega arith)))
  ]
    where
      sent_one : Runtime S E
      sent_one = record (register r) { sent = (register r).sent ++ request now e r ∷ [] }

      kept : Inv (register r) → Inv sent_one
      kept v = record {
        ids_used = v.ids_used;
        tokens_used = v.tokens_used;
        own_token = v.own_token;
        cancelled_used = v.cancelled_used;
      }

      more : sent_one.next_id + length es ≤ u64_max
      more = unfold register in omega arith

  -- Sending changes no token.
  send-cancelled :
      (accepts : ℕ → Bool) (now : ℕ) (es : List E) (r : Runtime S E)
      → (send_effects accepts now es r).0.cancelled ≡ r.cancelled
  unfolding send_effects register
  send-cancelled accepts now [] r = refl
  send-cancelled accepts now (e ∷ es) r = elim (Bool-cases (accepts r.next_id)) [
    | inl t ↦ rw t (
        send-cancelled accepts now es
          (record (register r) { sent = (register r).sent ++ request now e r ∷ [] }))
    | inr t ↦ rw t
  ]

  cancel-Inv :
      (r : Runtime S E) (id token : ℕ)
      → Inv r
      → Active r id token
      → Inv (record r { cancelled = token ∷ r.cancelled })
  unfolding contains decide
  cancel-Inv r id token v here = record {
    ids_used = v.ids_used;
    tokens_used = v.tokens_used;
    own_token = v.own_token;
    cancelled_used = λ t c. elim (ℕ_discrete token t) [
      | yes e ↦ omega (arith, v.tokens_used id token here)
      | no n ↦ v.cancelled_used t (ground (arith, n))
    ];
  }

  target-here :
      (r : Runtime S E) (id token : ℕ)
      → Active r id token
      → cancel_target (some id) r ≡ record r { cancelled = token ∷ r.cancelled }
  unfolding cancel_target
  target-here r id token h = ground arith

  forget-Inv : (o : Option ℕ) (r : Runtime S E) → Inv r → Inv (forget_completed o r)
  unfolding forget_completed
  forget-Inv none r v = v
  forget-Inv (some id) r v = remove-Inv r id v

  forget-kept :
      (o : Option ℕ) (r : Runtime S E)
      → ((forget_completed o r).cancelled ≡ r.cancelled)
        × ((forget_completed o r).state ≡ r.state)
        × ((forget_completed o r).next_id ≡ r.next_id)
  unfolding forget_completed
  forget-kept none r = (refl, refl, refl)
  forget-kept (some id) r = (refl, refl, refl)

  with_state-Inv : (s : S) (r : Runtime S E) → Inv r → Inv (record r { state = s })
  with_state-Inv s r v = record {
    ids_used = v.ids_used;
    tokens_used = v.tokens_used;
    own_token = v.own_token;
    cancelled_used = v.cancelled_used;
  }

  module _ {A : Type 0} (completed_effect cancellation_target : A → Option ℕ)
      (reducer : S → A → ℕ → Reduction S E) where
    -- In a runtime with the invariant whose ids are not used up, an action that asks for the
    -- cancellation of an effect that is under way cancels the token of this effect; the token of
    -- any other effect under way is as it was, no token handed out from now on is cancelled, and
    -- the invariant holds again, whether or not the receiver takes the new effects.
    pub step_cancels :
        (accepts : ℕ → Bool) (now : ℕ) (a : A) (r : Runtime S E) {id token : ℕ}
        → Inv r
        → cancellation_target a ≡ some id
        → Active r id token
        → r.next_id + length (reducer r.state a now).effects ≤ u64_max
        → let after = (step completed_effect cancellation_target reducer accepts now a r).0 in
          (contains ℕ_discrete token after.cancelled ≡ true)
          × ((other t : ℕ)
              → other ≢ id
              → Active r other t
              → contains ℕ_discrete t after.cancelled ≡ contains ℕ_discrete t r.cancelled)
          × ((t : ℕ) → r.next_token ≤ t → contains ℕ_discrete t after.cancelled ≡ false)
          × Inv after
    step_cancels accepts now a r {id} {token} v target here fits =
        rw cancelled_after (mine, λ other t n h. others other t n h, λ t h. fresh t h, after-Inv)
      where
        marked : Runtime S E
        marked = record r { cancelled = token ∷ r.cancelled }

        left : Runtime S E
        left = forget_completed (completed_effect a) (cancel_target (cancellation_target a) r)

        at_marked : cancel_target (cancellation_target a) r ≡ marked
        at_marked = ap (λ o. cancel_target o r) target ∙ target-here r id token here

        after : Runtime S E
        after = (step completed_effect cancellation_target reducer accepts now a r).0

        same_state : left.state ≡ r.state
        same_state =
            (forget-kept (completed_effect a) (cancel_target (cancellation_target a) r)).1
            ∙ ap (λ x. x.state) at_marked

        same_id : left.next_id ≡ r.next_id
        same_id =
            (forget-kept (completed_effect a) (cancel_target (cancellation_target a) r)).2
            ∙ ap (λ x. x.next_id) at_marked

        cancelled_after : after.cancelled ≡ token ∷ r.cancelled
        cancelled_after =
            unfold step in
            send-cancelled accepts now (reducer left.state a now).effects
              (record left { state = (reducer left.state a now).state })
            ∙ (forget-kept (completed_effect a) (cancel_target (cancellation_target a) r)).0
            ∙ ap (λ x. x.cancelled) at_marked

        left-Inv : Inv left
        left-Inv =
            forget-Inv (completed_effect a) (cancel_target (cancellation_target a) r)
              (subst Inv (sym at_marked) (cancel-Inv r id token v here))

        room : left.next_id + length (reducer left.state a now).effects ≤ u64_max
        room =
            subst (λ x. left.next_id + length (reducer x a now).effects ≤ u64_max) (sym same_state)
              (omega (arith, same_id))

        after-Inv : Inv after
        after-Inv =
            unfold step in
            send-Inv accepts now (reducer left.state a now).effects
              (record left { state = (reducer left.state a now).state })
              (with_state-Inv (reducer left.state a now).state left left-Inv) room

        mine : contains ℕ_discrete token (token ∷ r.cancelled) ≡ true
        mine =
            unfold contains decide in
            elim (ℕ_discrete token token) [ yes e ↦ ground arith | no n ↦ absurd (n refl) ]

        others :
            (other t : ℕ)
            → other ≢ id
            → Active r other t
            → contains ℕ_discrete t (token ∷ r.cancelled) ≡ contains ℕ_discrete t r.cancelled
        others other t n h =
            unfold contains decide in
            elim (ℕ_discrete token t) [
              | yes e ↦ absurd (n (v.own_token other id t h (here ∙ ap some e)))
              | no m ↦ ground arith
            ]

        fresh : (t : ℕ) → r.next_token ≤ t → contains ℕ_discrete t (token ∷ r.cancelled) ≡ false
        fresh t h = elim (Bool-cases (contains ℕ_discrete t r.cancelled)) [
          | inl c ↦ absurd (omega (arith, v.cancelled_used t c))
          | inr c ↦
              unfold contains decide in
              elim (ℕ_discrete token t) [
                | yes e ↦ absurd (omega (arith, v.tokens_used id token here))
                | no m ↦ ground arith
              ]
        ]
