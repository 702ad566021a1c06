-- ===== src/Node/Scheduler/Due.antt =====
-- What the scheduler does when a check is due.
use sshe.Prelude.{
  ℕ, arith, ◌≡◌, ◌≤◌, ◌⊎◌, Option-cases, inl, inr, ltb, is_some_and, filter_option, true, false,
}
use sshe.Node.Sampling.{Slot, enter, is_open, join, lead}
use sshe.Node.Scheduler.{Turn, due_of}

module _ {Value : Type 0} where
  -- A round that is joined, or one that is started.
  abbrev Works : Slot Value → Type 0
  Works s = ((r : ℕ) × (enter true s ≡ join r)) ⊎ (enter true s ≡ lead s.count)

  not_early :
      (s : Slot Value) → due_of s ≤ s.now → is_some_and (λ due. ltb s.now due) s.next ≡ false
  not_early s due = elim (Option-cases s.next) [
    | inl unset ↦ ground (arith, unset)
    | inr (at, set) ↦ ground (arith, set, due)
  ]

  due-Works : (s : Slot Value) → due_of s ≤ s.now → Works s
  unfolding enter
  due-Works s due = elim (Option-cases (filter_option (λ r. is_open (s.rounds r)) s.running)) [
    | inr (r, runs) ↦ inl (r, ground (arith, runs))
    | inl idle ↦ inr (ground (arith, idle, not_early s due))
  ]

  -- The timer is ready, and no other task has changed the deadline.
  abbrev IsTimer : {interval : ℕ} {a b : Slot Value × ℕ} → Turn interval a b → Type 0
  IsTimer (Turn.changed s due) = ⊥
  IsTimer (Turn.timer s t due past steps returned) = due_of s ≡ due

  ready :
      {interval : ℕ} {a b : Slot Value × ℕ} (turn : Turn interval a b)
      → IsTimer turn
      → due_of a.0 ≤ a.0.now
  ready (Turn.changed s due) timer = absurd timer
  ready (Turn.timer s t due past steps returned) timer = omega (arith, past, timer)

  -- When the timer of a kind is ready and the deadline that it was set to still stands, the
  -- scheduler starts a round or joins the one that runs: a check that is due is never skipped.
  timer-Works :
      (interval : ℕ) (s t : Slot Value) (due next_due : ℕ)
      (turn : Turn interval (s, due) (t, next_due))
      → IsTimer turn
      → Works s
  timer-Works interval s t due next_due turn timer = due-Works s (ready turn timer)
