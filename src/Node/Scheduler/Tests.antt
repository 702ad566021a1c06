-- ===== src/Node/Scheduler/Tests.antt =====
-- A kind that was never checked, and the kinds of the default settings.
use sshe.Prelude.{none, true, ℕ, ◌≡◌, arith, refl, [], ◌∷◌}
use sshe.Protocol.Message.{ProbeKind}
use sshe.Node.Config.{default_daemon}
use sshe.Node.Sampling.{Slot, Step, Steps, idle, enter, entered, publish, recorded, insert_all}
use sshe.Prelude.{ok, ◌++◌}
use sshe.Node.Scheduler.{run, Turn, Returned, due_of, kinds_of}
use sshe.Node.Scheduler.Started.{run-once, count}

default_kinds :
    kinds_of
      (record default_daemon { probes = ProbeKind.peers ∷ ProbeKind.wan ∷ ProbeKind.wan ∷ [] })
    ≡ ProbeKind.wan ∷ ProbeKind.peers ∷ []
unfolding kinds_of
default_kinds = refl

abbrev never : Slot ℕ
never = idle (record { capacity = 1; series = [] }) 100

-- the round that the timer starts, and its end
abbrev started : Slot ℕ
started = entered (enter true never) never

abbrev over : Slot ℕ
over = record (publish 60000 0 (ok []) started) { leaders = [] }

program : Unit {0}
unfolding enter entered publish recorded insert_all
program = tt

led : started.leaders ≡ [] ++ 0 ∷ []
unfolding program
led = refl

returned : Returned (enter true never) over
unfolding program
returned = refl

abbrev first_turn : Turn 60000 (never, 100) (over, due_of over)
first_turn =
    Turn.timer never over 100 (omega arith)
      (Steps.more Steps.stay (Step.finish 0 (ok []) [] [] started led)) returned

-- The next one is due an interval later.
next_due : due_of over ≡ 60100
unfolding program
next_due = refl

run-once_example :
    ((run default_daemon none).0 ≡ 10000) × (count ProbeKind.peers (run default_daemon none).1 ≡ 1)
run-once_example = run-once default_daemon none ProbeKind.peers
