-- ===== src/Node/Sampling/Leader.antt =====
-- At most one leader works, and callers join only the round of a leader that works.
use sshe.Node.Error.{Error}
use sshe.Protocol.Message.{Record}
use sshe.Node.Sampling.{
  idle, publish, is_open, entered, set_round, enter, Slot, Round, Step, Steps, open_round, closed,
  skip, join, lead,
}
use sshe.Prelude.{
  ◌↔◌, ◌≤◌, length, ap, ◌∙◌, Result, sym, refl, subst, some, inr, ltb, ◌⊎◌, is_some_and, none, ◌∷◌,
  ◌&&◌, filter_option, ◌++◌, Bool-cases, arith, inl, List, [], Bool, ℕ, ◌≡◌,
}
use sshe.Node.History.{History}

pub only_leader :
    (r k : ℕ) (before after : List ℕ)
    → before ++ r ∷ after ≡ k ∷ []
    → (before ≡ []) × (after ≡ []) × (r ≡ k)
only_leader r k [] after h = ground (arith, h)
only_leader r k (x ∷ []) after h = absurd (ground (arith, h))
only_leader r k (x ∷ y ∷ before) after h = absurd (ground (arith, h))

pub no_leader : (r : ℕ) (before after : List ℕ) → before ++ r ∷ after ≡ [] → ⊥
no_leader r [] after h = ground (arith, h)
no_leader r (x ∷ before) after h = ground (arith, h)

module _ {Value : Type 0} where
  -- Either no leader works and the running round, if any, is over; or one does, on the running
  -- round, which is open.
  abbrev pub Led : Slot Value → Type 0
  Led s =
      ((s.leaders ≡ []) × (filter_option (λ r. is_open (s.rounds r)) s.running ≡ none))
      ⊎ ((r : ℕ) × (s.leaders ≡ r ∷ []) × (s.running ≡ some r) × (s.rounds r ≡ open_round))

  set_round_self : (r : ℕ) (v : Round Value) (rounds : ℕ → Round Value) → set_round r v rounds r ≡ v
  set_round_self r v rounds = ground arith

  pub enter-busy :
      (due_only : Bool) (s : Slot Value) (r : ℕ)
      → s.running ≡ some r
      → s.rounds r ≡ open_round
      → enter due_only s ≡ join r
  unfolding enter
  enter-busy due_only s r running opened = ground (arith, running, opened)

  pub enter-over :
      (due_only : Bool) (s : Slot Value)
      → filter_option (λ r. is_open (s.rounds r)) s.running ≡ none
      → (enter due_only s ≡ skip) ⊎ (enter due_only s ≡ lead s.count)
  unfolding enter
  enter-over due_only s over =
      elim (Bool-cases (due_only && is_some_and (λ due. ltb s.now due) s.next)) [
        | inl wait ↦ inl (rw (over, enter) (rw (wait, enter) refl))
        | inr go ↦ inr (rw (over, enter) (rw (go, enter) refl))
      ]

  entered-Led : (due_only : Bool) (s : Slot Value) → Led s → Led (entered (enter due_only s) s)
  unfolding entered
  entered-Led due_only s (inl (none_led, over)) = elim (enter-over due_only s over) [
    | inl e ↦ subst (λ e. Led (entered e s)) (sym e) (inl (none_led, over))
    | inr e ↦
        subst (λ e. Led (entered e s)) (sym e)
          (inr (
            s.count,
            ap (λ l. s.count ∷ l) none_led,
            refl,
            set_round_self s.count open_round s.rounds,
          ))
  ]
  entered-Led due_only s (inr (r, led, running, opened)) =
      subst (λ e. Led (entered e s)) (sym (enter-busy due_only s r running opened))
        (inr (r, led, running, opened))

  finish-Led :
      (interval r : ℕ) (result : Result Error (List (Record Value))) (before after : List ℕ)
      (s : Slot Value)
      → s.leaders ≡ before ++ r ∷ after
      → Led s
      → Led (record (publish interval r result s) { leaders = before ++ after })
  unfolding publish
  finish-Led interval r result before after s split (inl (none_led, over)) =
      absurd (no_leader r before after (sym split ∙ none_led))
  finish-Led interval r result before after s split (inr (k, led, running, opened)) =
      let (b, a, same) = only_leader r k before after (sym split ∙ led) in
      inl (ap (λ l. l ++ after) b ∙ a, refl)

  drop_leader-Led :
      (r : ℕ) (before after : List ℕ) (s : Slot Value)
      → s.leaders ≡ before ++ r ∷ after
      → Led s
      → Led (record s { rounds = set_round r closed s.rounds; leaders = before ++ after })
  drop_leader-Led r before after s split (inl (none_led, over)) =
      absurd (no_leader r before after (sym split ∙ none_led))
  drop_leader-Led r before after s split (inr (k, led, running, opened)) =
      let (b, a, same) = only_leader r k before after (sym split ∙ led) in
      inl (ap (λ l. l ++ after) b ∙ a, ground (arith, running, same))

  pub Step-Led : {interval : ℕ} {s t : Slot Value} → Step interval s t → Led s → Led t
  Step-Led (Step.call due_only s) h = entered-Led due_only s h
  Step-Led (Step.finish r result before after s split) h =
      finish-Led _ r result before after s split h
  Step-Led (Step.drop_leader r before after s split) h = drop_leader-Led r before after s split h
  Step-Led (Step.answer r before after s split over) h = h
  Step-Led (Step.other h' s) h = h
  Step-Led (Step.pass d s) h = h

  pub Steps-Led : {interval : ℕ} {s t : Slot Value} → Steps interval s t → Led s → Led t
  Steps-Led Steps.stay h = h
  Steps-Led (Steps.more ss st) h = Step-Led st (Steps-Led ss h)

  -- In any interleaving of calls, ends, cancellations and waits: at most one leader works, and a
  -- call, due or manual, joins a round exactly if a leader works on that round.
  pub single_leader :
      (interval : ℕ) (h : History Value) (at : ℕ) (s : Slot Value) (due_only : Bool) (r : ℕ)
      → Steps interval (idle h at) s
      → (length s.leaders ≤ 1) × ((enter due_only s ≡ join r) ↔ (s.leaders ≡ r ∷ []))
  single_leader interval h at s due_only r steps = elim (Steps-Led steps (inl (refl, refl))) [
    | inl (none_led, over) ↦
        (ground (arith, none_led), ground (arith, none_led, enter-over due_only s over))
    | inr (k, led, running, opened) ↦
        (ground (arith, led), ground (arith, led, enter-busy due_only s k running opened))
  ]
