-- ===== src/Node/Sampling/Deadlines.antt =====
-- The schedule of each kind of a sampler.
use sshe.Prelude.{subst, ◌≤◌, ◌*◌, ◌+◌, true, ◌∷◌, ◌++◌, arith, some, List, Result, ℕ, ◌≡◌}
use sshe.Protocol.Message.{Record, ProbeKind}
use sshe.Node.Sampling.{Steps, Step, lead, enter, Error, Slot, publish}
use sshe.Node.Sampling.Sampler.{Act, new, shared, Acts, Sampler, with_slot}
use sshe.Node.Config.{DaemonConfig}
use sshe.Node.Sampling.Spaced.{lead-after, DueAfter}
use sshe.Node.Sampling.Kinds.{new-Runs, Acts-Runs}

module _ {Value : Type 0} where
  -- The sampler once the leader of a round of a kind has ended with a result.
  abbrev pub round_ended :
      ProbeKind
      → Slot Value
      → ℕ
      → Result Error (List (Record Value))
      → List ℕ
      → Sampler Value
      → Sampler Value
  round_ended kind slot r result others s =
      with_slot kind (record (publish s.interval r result (shared s slot)) { leaders = others }) s

  published_slot :
      (kind : ProbeKind) (slot : Slot Value) (r : ℕ) (result : Result Error (List (Record Value)))
      (others : List ℕ) (s : Sampler Value)
      → (round_ended kind slot r result others s).slots kind
        ≡ some (record (publish s.interval r result (shared s slot)) { leaders = others })
  unfolding with_slot
  published_slot kind slot r result others s = ground arith

  due :
      (kind : ProbeKind) (slot : Slot Value) (r : ℕ) (result : Result Error (List (Record Value)))
      (others : List ℕ) (s : Sampler Value) (interval : ℕ)
      → s.interval ≡ interval
      → DueAfter (s.now + interval) s.now (
          shared
            (round_ended kind slot r result others s)
            (record (publish s.interval r result (shared s slot)) { leaders = others }))
  unfolding publish with_slot
  due kind slot r result others s interval kept = ground (arith, kept)

  -- Once a round of a kind has ended, be it a manual one, a scheduled call of this kind starts none
  -- before the interval of the settings has passed since that end, whatever the tasks of all kinds
  -- do in between.
  pub kind-spaced :
      (settings : DaemonConfig) (at : ℕ) (s t : Sampler Value) (kind : ProbeKind)
      (slot slot' : Slot Value) (r k : ℕ) (result : Result Error (List (Record Value)))
      (before after : List ℕ)
      → Acts (new settings at) s
      → s.slots kind ≡ some slot
      → slot.leaders ≡ before ++ r ∷ after
      → Acts (round_ended kind slot r result (before ++ after) s) t
      → t.slots kind ≡ some slot'
      → enter true (shared t slot') ≡ lead k
      → s.now + settings.interval_secs * 1000 ≤ t.now
  kind-spaced settings at s t kind slot slot' r k result before after reached found leads later
        found' led =
      let interval = settings.interval_secs * 1000 in
      let s' = round_ended kind slot r result (before ++ after) s in
      let ended = record (publish s.interval r result (shared s slot)) {
        leaders = before ++ after;
      } in
      let (kept, _) = Acts-Runs _ _ reached (new-Runs settings at) in
      let ends =
        Act.act kind s slot ended found (Step.finish r result before after (shared s slot) leads) in
      let (kept', runs) = Acts-Runs _ _ (Acts.then_act reached ends) (new-Runs settings at) in
      let (_, runs') =
        Acts-Runs interval (λ k. shared s' (runs k).0) later
          (kept', λ k. ((runs k).0, (runs k).1, Steps.stay)) in
      let (own, there, steps) = runs' kind in
      let same : own ≡ slot' = ground (arith, there, found') in
      let first : (runs kind).0 ≡ ended =
        ground (arith, (runs kind).1, published_slot kind slot r result (before ++ after) s) in
      lead-after interval s.now k (shared s' ended) (shared t slot')
        (due kind slot r result (before ++ after) s interval kept)
        (subst (λ o. Steps interval (shared s' ended) (shared t o)) same
          (subst (λ o. Steps interval (shared s' o) (shared t own)) first steps))
        led
