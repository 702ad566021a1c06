-- ===== src/Node/Sampling/Tests.antt =====
-- A manual round that a scheduled call joins, and what the schedule does after it.
use sshe.Prelude.{ok, refl, ◌≡◌, subst, ℕ, [], ◌∷◌, some, true, false}
use sshe.Node.History.{History}
use sshe.Node.Sampling.{
  insert_all, recorded, entered, set_round, publish, idle, enter, Slot, Round, Step, Steps, skip,
  lead,
}

abbrev empty : History ℕ
empty = record { capacity = 1; series = [] }

abbrev begun : Slot ℕ
begun = record (idle empty 100) {
  running = some 0;
  rounds = set_round 0 Round.open_round (λ r. Round.closed);
  count = 1;
  leaders = 0 ∷ [];
}

manual : entered (enter false (idle empty 100)) (idle empty 100) ≡ begun
unfolding enter entered
manual = refl

began : Steps 60 (idle empty 100) begun
began =
    subst (Steps 60 (idle empty 100)) manual
      (Steps.more Steps.stay (Step.call false (idle empty 100)))

-- A round that ended at 105 is due again at 165.
too_early :
    enter true (record (publish 60 0 (ok []) (record begun { now = 105 })) { now = 164 }) ≡ skip
unfolding enter publish recorded insert_all
too_early = refl

due : enter true (record (publish 60 0 (ok []) (record begun { now = 105 })) { now = 165 }) ≡ lead 1
unfolding enter publish recorded insert_all
due = refl

abbrev ended : Slot ℕ
ended = record (publish 60 0 (ok []) begun) { leaders = [] }

until_end : Steps 60 (idle empty 100) ended
until_end = Steps.more began (Step.finish 0 (ok []) [] [] begun refl)

ended_ok : ended.rounds 0 ≡ Round.published (ok [])
unfolding publish recorded insert_all
ended_ok = refl

abbrev joined : Slot ℕ
joined = entered (enter false begun) begun

waits : Steps 60 (idle empty 100) joined
waits = Steps.more began (Step.call false begun)

waits_one : joined.waiters ≡ 0 ∷ []
unfolding enter entered
waits_one = refl

abbrev later : Slot ℕ
later = record (publish 60 0 (ok []) begun) { now = 160 }

led_again : enter true later ≡ lead 1
unfolding enter publish recorded insert_all
led_again = refl

a_minute : Steps 60 (publish 60 0 (ok []) begun) later
unfolding publish
a_minute = Steps.more Steps.stay (Step.pass 60 (publish 60 0 (ok []) begun))
