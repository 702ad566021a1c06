-- ===== src/Node/Sampling/Kept.antt =====
-- The result of a round stays what it is, so each waiter gets that of the round it joined.
use sshe.Prelude.{
  ltb, inr, sym, refl, ◌∙◌, subst, Bool-cases, ap, ◌++◌, ◌<◌, inl, ◌⊎◌, arith, ◌≤◌, List, Result,
  ◌≡◌, ◌≢◌, Bool, ℕ, ◌∷◌,
}
use sshe.Node.Error.{Error}
use sshe.Protocol.Message.{Record}
use sshe.Node.History.{History}
use sshe.Node.Sampling.{
  enter, set_round, idle, entered, publish, Slot, Round, Step, Steps, Entry, open_round, closed,
  published, skip, join, lead,
}
use sshe.Node.Sampling.Leader.{only_leader, enter-busy, enter-over, no_leader, Steps-Led, Led}

module _ {Value : Type 0} where
  -- Numbers that no round has yet.
  abbrev Unused : Slot Value → Type 0
  Unused s = (k : ℕ) → s.count ≤ k → s.rounds k ≡ closed

  -- The rounds after a step, read at one number.
  abbrev Reads : ℕ → Round Value → Slot Value → Type 0
  Reads r v s = s.rounds r ≡ v

  leader_used : (s : Slot Value) (r : ℕ) → Unused s → s.rounds r ≡ open_round → r < s.count
  leader_used s r unused opened = elim (Bool-cases (ltb r s.count)) [
    | inl h ↦ ground (arith, h)
    | inr h ↦ absurd (ground (arith, opened, unused r (ground (arith, h))))
  ]

  set_round_ne :
      (r k : ℕ) (v : Round Value) (rounds : ℕ → Round Value)
      → k ≢ r
      → set_round r v rounds k ≡ rounds k
  set_round_ne r k v rounds h = ground (arith, h)

  entered-Unused :
      (e : Entry) (s : Slot Value)
      → (e ≡ skip) ⊎ ((r : ℕ) × (e ≡ join r)) ⊎ (e ≡ lead s.count)
      → Unused s
      → Unused (entered e s)
  unfolding entered
  entered-Unused e s (inl h) unused = subst (λ e. Unused (entered e s)) (sym h) unused
  entered-Unused e s (inr (inl (r, h))) unused = subst (λ e. Unused (entered e s)) (sym h) unused
  entered-Unused e s (inr (inr h)) unused =
      subst (λ e. Unused (entered e s)) (sym h)
        λ k more.
          set_round_ne s.count k open_round s.rounds (λ same. omega (arith, same, more))
          ∙ unused k (omega (arith, more))

  enter-cases :
      (due_only : Bool) (s : Slot Value)
      → Led s
      → (enter due_only s ≡ skip)
        ⊎ ((r : ℕ) × (enter due_only s ≡ join r))
        ⊎ (enter due_only s ≡ lead s.count)
  enter-cases due_only s (inl (none_led, over)) = elim (enter-over due_only s over) [
    | inl h ↦ inl h
    | inr h ↦ inr (inr h)
  ]
  enter-cases due_only s (inr (r, led, running, opened)) =
      inr (inl (r, enter-busy due_only s r running opened))

  -- The leader of a list that is split at it.
  leader_open :
      (s : Slot Value) (r : ℕ) (before after : List ℕ)
      → s.leaders ≡ before ++ r ∷ after
      → Led s
      → s.rounds r ≡ open_round
  leader_open s r before after split (inl (none_led, over)) =
      absurd (no_leader r before after (sym split ∙ none_led))
  leader_open s r before after split (inr (k, led, running, opened)) =
      let (b, a, same) = only_leader r k before after (sym split ∙ led) in ap s.rounds same ∙ opened

  Step-Unused : {interval : ℕ} {s t : Slot Value} → Step interval s t → Led s → Unused s → Unused t
  unfolding publish
  Step-Unused (Step.call due_only s) led unused =
      entered-Unused _ s (enter-cases due_only s led) unused
  Step-Unused (Step.finish r result before after s split) led unused =
      let used = leader_used s r unused (leader_open s r before after split led) in
      λ k more.
        set_round_ne r k _ s.rounds (λ same. omega (arith, same, more, used)) ∙ unused k more
  Step-Unused (Step.drop_leader r before after s split) led unused =
      let used = leader_used s r unused (leader_open s r before after split led) in
      λ k more.
        set_round_ne r k _ s.rounds (λ same. omega (arith, same, more, used)) ∙ unused k more
  Step-Unused (Step.answer r before after s split over) led unused = unused
  Step-Unused (Step.other h s) led unused = unused
  Step-Unused (Step.pass d s) led unused = unused

  -- A round with a result is neither open nor unused.
  differs :
      (s : Slot Value) (r k : ℕ) (v : Result Error (List (Record Value)))
      → s.rounds r ≡ published v
      → (s.rounds k ≡ open_round) ⊎ (s.rounds k ≡ closed)
      → r ≢ k
  differs s r k v done (inl h) same = absurd (ground (arith, ap s.rounds same, done, h))
  differs s r k v done (inr h) same = absurd (ground (arith, ap s.rounds same, done, h))

  entered-kept :
      (e : Entry) (s : Slot Value) (r : ℕ) (v : Result Error (List (Record Value)))
      → (e ≡ skip) ⊎ ((k : ℕ) × (e ≡ join k)) ⊎ (e ≡ lead s.count)
      → Unused s
      → s.rounds r ≡ published v
      → (entered e s).rounds r ≡ published v
  unfolding entered
  entered-kept e s r v (inl h) unused done =
      subst (λ e. Reads r (published v) (entered e s)) (sym h) done
  entered-kept e s r v (inr (inl (k, h))) unused done =
      subst (λ e. Reads r (published v) (entered e s)) (sym h) done
  entered-kept e s r v (inr (inr h)) unused done =
      subst (λ e. Reads r (published v) (entered e s)) (sym h)
        (set_round_ne s.count r open_round s.rounds
            (differs s r s.count v done (inr (unused s.count (omega arith))))
          ∙ done)

  Step-kept :
      {interval : ℕ} {s t : Slot Value} (r : ℕ) (v : Result Error (List (Record Value)))
      → Step interval s t
      → Led s
      → Unused s
      → s.rounds r ≡ published v
      → t.rounds r ≡ published v
  unfolding publish
  Step-kept r v (Step.call due_only s) led unused done =
      entered-kept _ s r v (enter-cases due_only s led) unused done
  Step-kept r v (Step.finish k result before after s split) led unused done =
      set_round_ne k r _ s.rounds
        (differs s r k v done (inl (leader_open s k before after split led)))
      ∙ done
  Step-kept r v (Step.drop_leader k before after s split) led unused done =
      set_round_ne k r _ s.rounds
        (differs s r k v done (inl (leader_open s k before after split led)))
      ∙ done
  Step-kept r v (Step.answer k before after s split over) led unused done = done
  Step-kept r v (Step.other h s) led unused done = done
  Step-kept r v (Step.pass d s) led unused done = done

  Steps-Unused :
      {interval : ℕ} {s t : Slot Value} → Steps interval s t → Led s → Unused s → Unused t
  Steps-Unused Steps.stay led unused = unused
  Steps-Unused (Steps.more ss st) led unused =
      Step-Unused st (Steps-Led ss led) (Steps-Unused ss led unused)

  Steps-kept :
      {interval : ℕ} {s t : Slot Value} (r : ℕ) (v : Result Error (List (Record Value)))
      → Steps interval s t
      → Led s
      → Unused s
      → s.rounds r ≡ published v
      → t.rounds r ≡ published v
  Steps-kept r v Steps.stay led unused done = done
  Steps-kept r v (Steps.more ss st) led unused done =
      Step-kept r v st (Steps-Led ss led) (Steps-Unused ss led unused)
        (Steps-kept r v ss led unused done)

  -- A result that was published for a round is the round's result in every later state: no later
  -- round, cancelled or not, replaces what its waiters read.
  pub result_kept :
      (interval : ℕ) (h : History Value) (at r : ℕ) (v : Result Error (List (Record Value)))
      (s t : Slot Value)
      → Steps interval (idle h at) s
      → s.rounds r ≡ published v
      → Steps interval s t
      → t.rounds r ≡ published v
  result_kept interval h at r v s t before done after =
      let led = Steps-Led before (inl (refl, refl)) in
      let unused = Steps-Unused before (inl (refl, refl)) (λ k more. refl) in
      Steps-kept r v after led unused done
