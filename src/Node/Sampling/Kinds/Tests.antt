-- ===== src/Node/Sampling/Kinds/Tests.antt =====
-- A sampler in use: of wan a round fails, while lan is asked for.
use sshe.Protocol.Message.{ProbeKind}
use sshe.Prelude.{
  ◌*◌, err, ◌+◌, ◌⊎◌, refl, ◌↔◌, ◌≡◌, ◌≤◌, subst, length, ℕ, [], ◌∷◌, some, true, false,
}
use sshe.Node.History.{History}
use sshe.Node.Sampling.{
  recorded, entered, set_round, publish, idle, enter, Slot, Round, Step, join, lead,
}
use sshe.Node.Sampling.Sampler.{
  result_for, sample, Acts, shared, round_result, run_due, Act, Sampler, with_slot, new,
}
use sshe.Node.Config.{default_daemon}
use sshe.Node.Error.{Error}
use sshe.Node.Sampling.Kinds.{kind-waiter_answered, kind-single_leader, callers_agree}
use sshe.Node.Sampling.Deadlines.{kind-spaced, round_ended}

-- A sampler of which wan and then lan are asked for, while the time is 100.
abbrev asked : Sampler ℕ
asked = new default_daemon 100

abbrev first : Slot ℕ
first = idle (sshe.Node.History.new 64) 100

abbrev wan_begun : Slot ℕ
wan_begun = record first {
  running = some 0;
  rounds = set_round 0 Round.open_round (λ r. Round.closed);
  count = 1;
  leaders = 0 ∷ [];
}

asks : entered (enter false first) first ≡ wan_begun
unfolding enter entered
asks = refl

abbrev wan_asked : Sampler ℕ
wan_asked = with_slot ProbeKind.wan wan_begun asked

asked_wan : Act asked wan_asked
unfolding new
asked_wan =
    Act.act ProbeKind.wan asked first wan_begun refl
      (subst (Step 60000 first) asks (Step.call false first))

abbrev wan_ended : Slot ℕ
wan_ended = record (publish 60000 0 (err Error.timeout) wan_begun) { leaders = [] }

abbrev wan_over : Sampler ℕ
wan_over = with_slot ProbeKind.wan wan_ended wan_asked

ended_wan : Act wan_asked wan_over
unfolding new with_slot
ended_wan =
    Act.act ProbeKind.wan wan_asked wan_begun wan_ended refl
      (Step.finish 0 (err Error.timeout) [] [] wan_begun refl)

wan_failed : wan_ended.rounds 0 ≡ Round.published (err Error.timeout)
unfolding publish recorded
wan_failed = refl

abbrev lan_asked : Sampler ℕ
lan_asked =
    with_slot ProbeKind.lan (entered (enter true (shared wan_over first)) (shared wan_over first))
      wan_over

asked_lan : Act wan_over lan_asked
unfolding new with_slot
asked_lan = Act.act ProbeKind.lan wan_over first _ refl (Step.call true (shared wan_over first))

over_found : wan_over.slots ProbeKind.wan ≡ some wan_ended
unfolding with_slot
over_found = refl

kind-single_leader_example :
    (slot : Slot ℕ) × (wan_asked.slots ProbeKind.wan ≡ some slot)
    × (length slot.leaders ≤ 1)
    × ((enter true (shared wan_asked slot) ≡ join 0) ↔ (slot.leaders ≡ 0 ∷ []))
kind-single_leader_example =
    kind-single_leader default_daemon 100 wan_asked ProbeKind.wan true 0
      (Acts.then_act Acts.rest asked_wan)

callers_agree_example :
    (slot' : Slot ℕ) × (lan_asked.slots ProbeKind.wan ≡ some slot')
    × (result_for (join 0) slot' ≡ result_for (lead 0) wan_ended)
    × (result_for (lead 0) wan_ended ≡ some (err (Error.probe_failed Error.timeout)))
callers_agree_example =
    callers_agree default_daemon 100 wan_over lan_asked ProbeKind.wan wan_ended 0
      (err Error.timeout) (Acts.then_act (Acts.then_act Acts.rest asked_wan) ended_wan) over_found
      wan_failed (Acts.then_act Acts.rest asked_lan)

-- The scheduler's call does not get the records.
due_result : (run_due first).1 wan_ended ≡ some (err (Error.probe_failed Error.timeout))
unfolding run_due sample enter result_for round_result publish recorded
due_result = refl

asked_found : wan_asked.slots ProbeKind.wan ≡ some wan_begun
unfolding with_slot
asked_found = refl

-- Another caller waits for wan.
abbrev wan_joined : Slot ℕ
wan_joined = record wan_begun { waiters = 0 ∷ [] }

joins : entered (enter false wan_begun) wan_begun ≡ wan_joined
unfolding enter entered
joins = refl

joined_wan : Act wan_asked (with_slot ProbeKind.wan wan_joined wan_asked)
unfolding new with_slot
joined_wan =
    Act.act ProbeKind.wan wan_asked wan_begun wan_joined refl
      (subst (Step 60000 wan_begun) joins (Step.call false wan_begun))

joined_found : (with_slot ProbeKind.wan wan_joined wan_asked).slots ProbeKind.wan ≡ some wan_joined
unfolding with_slot
joined_found = refl

kind-waiter_answered_example :
    (wan_joined.leaders ≡ 0 ∷ [])
    ⊎ Act (with_slot ProbeKind.wan wan_joined wan_asked) (
        with_slot ProbeKind.wan
          (record (shared (with_slot ProbeKind.wan wan_joined wan_asked) wan_joined) {
            waiters = [];
          })
          (with_slot ProbeKind.wan wan_joined wan_asked))
kind-waiter_answered_example =
    kind-waiter_answered default_daemon 100 (with_slot ProbeKind.wan wan_joined wan_asked)
      ProbeKind.wan wan_joined 0 [] []
      (Acts.then_act (Acts.then_act Acts.rest asked_wan) joined_wan) joined_found refl

-- A minute after the round of wan has ended.
abbrev over : Sampler ℕ
over = round_ended ProbeKind.wan wan_begun 0 (err Error.timeout) [] wan_asked

abbrev wan_later : Slot ℕ
wan_later = record (shared over wan_ended) { now = 60100 }

over_wan : over.slots ProbeKind.wan ≡ some wan_ended
unfolding with_slot new publish
over_wan = refl

passed : Act over (with_slot ProbeKind.wan wan_later over)
unfolding with_slot new publish
passed =
    Act.act ProbeKind.wan over wan_ended wan_later over_wan
      (Step.pass 60000 (shared over wan_ended))

later_found : (with_slot ProbeKind.wan wan_later over).slots ProbeKind.wan ≡ some wan_later
unfolding with_slot
later_found = refl

due_again : enter true (shared (with_slot ProbeKind.wan wan_later over) wan_later) ≡ lead 1
unfolding enter publish recorded with_slot new
due_again = refl

kind-spaced_example : 100 + 60 * 1000 ≤ 60100
unfolding with_slot new publish
kind-spaced_example =
    kind-spaced default_daemon 100 wan_asked (with_slot ProbeKind.wan wan_later over) ProbeKind.wan
      wan_begun wan_later 0 1 (err Error.timeout) [] [] (Acts.then_act Acts.rest asked_wan)
      asked_found refl (Acts.then_act Acts.rest passed) later_found due_again
