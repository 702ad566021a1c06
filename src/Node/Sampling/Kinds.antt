-- ===== src/Node/Sampling/Kinds.antt =====
-- The kinds of a sampler do not disturb each other.
mod Tests
use sshe.Prelude.{
  ◌⊎◌, ◌++◌, map_err, List, [], ◌∷◌, Result, ◌↔◌, length, ap, Bool, ◌∙◌, sym, inr, inl, Bool-cases,
  refl, true, ◌+◌, any, ◌-◌, arith, subst, some, ◌≤◌, ◌*◌, ℕ, ◌≡◌,
}
use sshe.Node.Sampling.Sampler.{
  round_result, result_for, Acts, Act, with_slot, shared, Sampler, new,
}
use sshe.Node.Config.{DaemonConfig}
use sshe.Node.Sampling.{
  published, Error, join, lead, skip, Entry, enter, entered, idle, Steps, Step, History, Slot,
  publish,
}
use sshe.Protocol.Message.{Record, all_kinds, ProbeKind}
use sshe.Node.History.{rank_injective, same_kind}
use sshe.Node.Sampling.Leader.{single_leader}
use sshe.Node.Sampling.Kept.{result_kept}
use sshe.Node.Sampling.Waiting.{waiter_answered}

all_slots : (kind : ProbeKind) → any (same_kind kind) all_kinds ≡ true
all_slots kind = ground arith

module _ {Value : Type 0} where
  entered-now : (e : Entry) (s : Slot Value) → (entered e s).now ≡ s.now
  unfolding entered
  entered-now skip s = refl
  entered-now (join r) s = refl
  entered-now (lead r) s = refl

  Step-now : {interval : ℕ} {s t : Slot Value} → Step interval s t → s.now ≤ t.now
  unfolding publish
  Step-now (Step.call due_only s) = omega (arith, entered-now (enter due_only s) s)
  Step-now (Step.finish r result before after s split) = omega arith
  Step-now (Step.drop_leader r before after s split) = omega arith
  Step-now (Step.answer r before after s split over) = omega arith
  Step-now (Step.other h s) = omega arith
  Step-now (Step.pass d s) = omega arith

  -- What the tasks of the other kinds do to a slot: time passes and the history is written.
  Steps-outside :
      {interval : ℕ} {s : Slot Value} (t : Slot Value) (now : ℕ) (h : History Value)
      → Steps interval s t
      → t.now ≤ now
      → Steps interval s (record t { now = now; history = h })
  Steps-outside {interval} {s} t now h steps le =
      let passed = Steps.more steps (Step.pass (now - t.now) t) in
      subst (λ n. Steps interval s (record t { now = n; history = h })) (omega (arith, le))
        (Steps.more passed (Step.other h (record t { now = t.now + (now - t.now) })))

  -- Each kind has a slot, which only steps of that kind, and what the others do to the clock and
  -- the history, have led to from a first one.
  abbrev pub Runs : ℕ → (ProbeKind → Slot Value) → Sampler Value → Type 0
  Runs interval first s =
      (s.interval ≡ interval)
      × ((kind : ProbeKind)
          → (slot : Slot Value) × (s.slots kind ≡ some slot)
            × Steps interval (first kind) (shared s slot))

  abbrev pub first_slot : DaemonConfig → ℕ → Slot Value
  first_slot settings at = idle (sshe.Node.History.new settings.history_size) at

  pub new-Runs :
      (settings : DaemonConfig) (at : ℕ)
      → Runs (settings.interval_secs * 1000) (λ kind. first_slot settings at) (new settings at)
  unfolding new
  new-Runs settings at =
      (refl, λ kind. (first_slot settings at, rw (all_slots kind) refl, Steps.stay))

  -- A step of a kind's own, from the slot that was found under it.
  own_step :
      {interval interval' : ℕ} {i t : Slot Value} (s : Sampler Value) (own slot : Slot Value)
      → Steps interval i (shared s own)
      → some own ≡ some slot
      → interval' ≡ interval
      → Step interval' (shared s slot) t
      → Steps interval i t
  own_step {interval} {i} {t} s own slot steps same kept step =
      let same_slot : own ≡ slot = ground (arith, same) in
      Steps.more (subst (λ o. Steps interval i (shared s o)) same_slot steps)
        (subst (λ d. Step d (shared s slot) t) kept step)

  Act-Runs :
      (interval : ℕ) (first : ProbeKind → Slot Value) {s t : Sampler Value}
      → Act s t
      → Runs interval first s
      → Runs interval first t
  unfolding with_slot
  Act-Runs interval first (Act.act kind s slot t found step) (kept, runs) = (
    kept,
    λ k. elim (Bool-cases (same_kind k kind)) [
      | inl same ↦
          let (own, there, steps) = runs kind in
          let same_first : first kind ≡ first k =
            ap first (sym (rank_injective k kind (ground (arith, same)))) in
          (
            t,
            rw same refl,
            subst (λ i. Steps interval i t) same_first
                (own_step s own slot steps (sym there ∙ found) kept step),
          )
      | inr differ ↦
          let (own, there, steps) = runs k in
          (own, rw differ there, Steps-outside (shared s own) t.now t.history steps (Step-now step))
    ],
  )

  pub Acts-Runs :
      (interval : ℕ) (first : ProbeKind → Slot Value) {s t : Sampler Value}
      → Acts s t
      → Runs interval first s
      → Runs interval first t
  Acts-Runs interval first Acts.rest runs = runs
  Acts-Runs interval first (Acts.then_act acts last) runs =
      Act-Runs interval first last (Acts-Runs interval first acts runs)

  -- Whatever the tasks of all kinds do, in any order: each kind has its slot, at most one leader
  -- works on it, and a call of the kind, due or manual, joins a round exactly if a leader of this
  -- kind works on that round.
  pub kind-single_leader :
      (settings : DaemonConfig) (at : ℕ) (s : Sampler Value) (kind : ProbeKind) (due_only : Bool)
      (r : ℕ)
      → Acts (new settings at) s
      → (slot : Slot Value) × (s.slots kind ≡ some slot)
        × (length slot.leaders ≤ 1)
        × ((enter due_only (shared s slot) ≡ join r) ↔ (slot.leaders ≡ r ∷ []))
  kind-single_leader settings at s kind due_only r acts =
      let (slot, there, steps) = (Acts-Runs _ _ acts (new-Runs settings at)).1 kind in
      let (one, joins) = single_leader _ _ at (shared s slot) due_only r steps in
      (slot, there, one, joins)

  -- Once a round of a kind has a result, its waiters get what its leader returned, in every later
  -- state, whatever later rounds of this and of other kinds do: the records of the result, or its
  -- error as `ProbeFailed`.
  pub callers_agree :
      (settings : DaemonConfig) (at : ℕ) (s t : Sampler Value) (kind : ProbeKind)
      (slot : Slot Value) (r : ℕ) (v : Result Error (List (Record Value)))
      → Acts (new settings at) s
      → s.slots kind ≡ some slot
      → slot.rounds r ≡ published v
      → Acts s t
      → (slot' : Slot Value) × (t.slots kind ≡ some slot')
        × (result_for (join r) slot' ≡ result_for (lead r) slot)
        × (result_for (lead r) slot ≡ some (map_err Error.probe_failed v))
  unfolding result_for round_result
  callers_agree settings at s t kind slot r v before found done after =
      let (kept, runs) = Acts-Runs _ _ before (new-Runs settings at) in
      let (own, there, steps) = runs kind in
      let (slot', there', steps') =
        (Acts-Runs _ (λ k. shared s (runs k).0) after
            (kept, λ k. ((runs k).0, (runs k).1, Steps.stay))).1
          kind in
      let same : own ≡ slot = ground (arith, there, found) in
      let later =
        result_kept _ _ at r v (shared s own) (shared t slot') steps
          (ap (λ o. o.rounds r) same ∙ done) steps' in
      (slot', there', rw (later, done) refl, rw done refl)

  -- A caller of any kind that waits is never forgotten, whatever the tasks of all kinds do: a
  -- leader of its kind works on its round, or the caller can be answered now.
  pub kind-waiter_answered :
      (settings : DaemonConfig) (at : ℕ) (s : Sampler Value) (kind : ProbeKind) (slot : Slot Value)
      (r : ℕ) (before after : List ℕ)
      → Acts (new settings at) s
      → s.slots kind ≡ some slot
      → slot.waiters ≡ before ++ r ∷ after
      → (slot.leaders ≡ r ∷ [])
        ⊎ Act s (with_slot kind (record (shared s slot) { waiters = before ++ after }) s)
  kind-waiter_answered settings at s kind slot r before after acts found waits =
      let (kept, runs) = Acts-Runs _ _ acts (new-Runs settings at) in
      let (own, there, steps) = runs kind in
      let same : own ≡ slot = ground (arith, there, found) in
      let mine =
        subst (λ o. Steps (settings.interval_secs * 1000) (first_slot settings at) (shared s o))
          same steps in
      elim (waiter_answered _ _ at r before after (shared s slot) mine waits) [
        | inl led ↦ inl led
        | inr step ↦ inr (
            Act.act kind s slot _ found (
              subst
                (λ d. Step d (shared s slot) (record (shared s slot) { waiters = before ++ after }))
                (sym kept) step))
      ]
