-- ===== src/Node/Sampling/Waiting.antt =====
-- No caller waits for a round that nobody works on.
use sshe.Prelude.{
  ◌∙◌, sym, arith, Bool-cases, subst, refl, ◌≢◌, inl, ◌⊎◌, inr, ◌++◌, ◌≡◌, List, Bool, ℕ, [], ◌∷◌,
  true, false,
}
use sshe.Node.History.{History}
use sshe.Node.Sampling.{
  set_round, idle, enter, is_open, publish, entered, Slot, Round, Step, Steps, closed,
}
use sshe.Node.Sampling.Leader.{only_leader, enter-over, enter-busy, no_leader, Steps-Led, Led}

module _ {Value : Type 0} where
  -- An open round is the one that the leader works on.
  abbrev OpenLed : Slot Value → Type 0
  OpenLed s = (r : ℕ) → is_open (s.rounds r) ≡ true → s.leaders ≡ r ∷ []

  not_open :
      (v : Round Value)
      → (r k : ℕ) (rounds : ℕ → Round Value) → is_open v ≡ false
      → is_open (set_round r v rounds k) ≡ true
      → (k ≢ r) × (is_open (rounds k) ≡ true)
  not_open v r k rounds over h = ground (arith, over, h)

  entered-OpenLed :
      (due_only : Bool) (s : Slot Value)
      → Led s
      → OpenLed s
      → OpenLed (entered (enter due_only s) s)
  unfolding entered
  entered-OpenLed due_only s (inr (k, led, running, opened)) open_led =
      subst (λ e. OpenLed (entered e s)) (sym (enter-busy due_only s k running opened)) open_led
  entered-OpenLed due_only s (inl (none_led, over)) open_led = elim (enter-over due_only s over) [
    | inl e ↦ subst (λ e. OpenLed (entered e s)) (sym e) open_led
    | inr e ↦
        subst (λ e. OpenLed (entered e s)) (sym e) λ k h. ground (arith, h, none_led, open_led k)
  ]

  -- A leader's round ends, with a result or without: no round is open then.
  none_open :
      (r : ℕ) (v : Round Value) (before after : List ℕ) (s : Slot Value)
      → is_open v ≡ false
      → s.leaders ≡ before ++ r ∷ after
      → Led s
      → OpenLed s
      → (k : ℕ) → is_open (set_round r v s.rounds k) ≡ true
      → ⊥
  none_open r v before after s over split (inl (none_led, _)) open_led k h =
      no_leader r before after (sym split ∙ none_led)
  none_open r v before after s over split (inr (l, led, running, opened)) open_led k h =
      let only = only_leader r l before after (sym split ∙ led) in
      let kept = not_open v r k s.rounds over h in
      ground (arith, kept, open_led k kept.1, led, only)

  Step-OpenLed :
      {interval : ℕ} {s t : Slot Value} → Step interval s t → Led s → OpenLed s → OpenLed t
  unfolding publish
  Step-OpenLed (Step.call due_only s) led h = entered-OpenLed due_only s led h
  Step-OpenLed (Step.finish r result before after s split) led h =
      λ k o. absurd (none_open r _ before after s refl split led h k o)
  Step-OpenLed (Step.drop_leader r before after s split) led h =
      λ k o. absurd (none_open r closed before after s refl split led h k o)
  Step-OpenLed (Step.answer r before after s split over) led h = h
  Step-OpenLed (Step.other h' s) led h = h
  Step-OpenLed (Step.pass d s) led h = h

  Steps-OpenLed :
      {interval : ℕ} {s t : Slot Value} → Steps interval s t → Led s → OpenLed s → OpenLed t
  Steps-OpenLed Steps.stay led h = h
  Steps-OpenLed (Steps.more ss st) led h =
      Step-OpenLed st (Steps-Led ss led) (Steps-OpenLed ss led h)

  -- A caller that waits is never forgotten: in every reachable state either the leader works on
  -- its round, or the caller can be answered now, with the round's result or because the round was
  -- cancelled.
  pub waiter_answered :
      (interval : ℕ) (h : History Value) (at r : ℕ) (before after : List ℕ) (s : Slot Value)
      → Steps interval (idle h at) s
      → s.waiters ≡ before ++ r ∷ after
      → (s.leaders ≡ r ∷ []) ⊎ Step interval s (record s { waiters = before ++ after })
  waiter_answered interval h at r before after s steps waits =
      elim (Bool-cases (is_open (s.rounds r))) [
        | inl opened ↦
            inl
              (Steps-OpenLed steps (inl (refl, refl)) (λ k h. absurd (ground (arith, h))) r opened)
        | inr over ↦ inr (Step.answer r before after s waits over)
      ]
