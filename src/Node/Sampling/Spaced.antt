-- ===== src/Node/Sampling/Spaced.antt =====
-- The schedule counts from the end of a round.
use sshe.Prelude.{
  inr, inl, Bool-cases, ltb, ◌≤◌, ◌≡◌, List, arith, Result, leb, is_some_and, ◌+◌, ℕ, true,
}
use sshe.Node.Error.{Error}
use sshe.Protocol.Message.{Record}
use sshe.Node.Sampling.{enter, entered, publish, Slot, Step, Steps, Entry, skip, join, lead}

module _ {Value : Type 0} where
  -- The next round is due no earlier than this, and it is at least the other time now.
  abbrev pub DueAfter : ℕ → ℕ → Slot Value → Type 0
  DueAfter due ended s = (is_some_and (λ d. leb due d) s.next ≡ true) × (ended ≤ s.now)

  entered-DueAfter :
      (due ended : ℕ) (e : Entry) (s : Slot Value)
      → DueAfter due ended s
      → DueAfter due ended (entered e s)
  unfolding entered
  entered-DueAfter due ended skip s h = h
  entered-DueAfter due ended (join r) s h = h
  entered-DueAfter due ended (lead r) s h = h

  Step-DueAfter :
      (interval ended : ℕ) {s t : Slot Value}
      → Step interval s t
      → DueAfter (ended + interval) ended s
      → DueAfter (ended + interval) ended t
  unfolding publish
  Step-DueAfter interval ended (Step.call due_only s) h =
      entered-DueAfter _ ended (enter due_only s) s h
  Step-DueAfter interval ended (Step.finish r result before after s split) h = ground (arith, h)
  Step-DueAfter interval ended (Step.drop_leader r before after s split) h = h
  Step-DueAfter interval ended (Step.answer r before after s split over) h = h
  Step-DueAfter interval ended (Step.other h' s) h = h
  Step-DueAfter interval ended (Step.pass d s) h = (h.0, omega (arith, h.1))

  Steps-DueAfter :
      (interval ended : ℕ) {s t : Slot Value}
      → Steps interval s t
      → DueAfter (ended + interval) ended s
      → DueAfter (ended + interval) ended t
  Steps-DueAfter interval ended Steps.stay h = h
  Steps-DueAfter interval ended (Steps.more ss st) h =
      Step-DueAfter interval ended st (Steps-DueAfter interval ended ss h)

  not_led :
      (s : Slot Value) (k : ℕ)
      → is_some_and (λ d. ltb s.now d) s.next ≡ true
      → enter true s ≡ lead k
      → ⊥
  unfolding enter
  not_led s k early led = ground (arith, early, led)

  -- From a slot that is due no earlier than an interval after a time, a scheduled call starts no
  -- round before then.
  pub lead-after :
      (interval ended k : ℕ) (s t : Slot Value)
      → DueAfter (ended + interval) ended s
      → Steps interval s t
      → enter true t ≡ lead k
      → ended + interval ≤ t.now
  lead-after interval ended k s t due steps led =
      let h = Steps-DueAfter interval ended steps due in
      elim (Bool-cases (is_some_and (λ d. ltb t.now d) t.next)) [
        | inl early ↦ absurd (not_led t k early led)
        | inr late ↦ ground (arith, h, late)
      ]

  -- Once a round ended, be it a manual one, a scheduled call starts none before the interval has
  -- passed since that end, whatever happens in between.
  scheduled_spaced :
      (interval : ℕ) (r k : ℕ) (result : Result Error (List (Record Value))) (s t : Slot Value)
      → Steps interval (publish interval r result s) t
      → enter true t ≡ lead k
      → s.now + interval ≤ t.now
  unfolding publish
  scheduled_spaced interval r k result s t steps led =
      lead-after interval s.now k (publish interval r result s) t (ground arith) steps led
