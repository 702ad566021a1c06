-- ===== src/Node/Scheduler.antt =====
-- crates/sshe-node/src/scheduler.rs: which kinds are scheduled, and the loop of one of them over the
-- slot that it shares with manual requests (Node/Sampling). Times are milliseconds.
pub mod Due
pub mod Started
mod Tests
use sshe.Prelude.{
  true, ◌*◌, Option, ℕ, Bool, List, any, keep, ◌==◌, ◌≤◌, unwrap_or, [], ◌∷◌, none, some,
}
use sshe.Protocol.Message.{ProbeKind, all_kinds}
use sshe.Core.Probe.{Timed, timed}
use sshe.Node.Config.{DaemonConfig}
use sshe.Node.History.{rank}
use sshe.Node.Sampling.{Slot, Entry, Steps, enter, entered, is_open, skip, join, lead}
use sshe.Prelude.{◌≡◌, false}

abbrev pub online_wait : ℕ
online_wait = 10 * 1000

-- `BTreeSet` of the configured kinds: each once, in their order
pub kinds_of : DaemonConfig → List ProbeKind
kinds_of daemon = keep (λ kind. any (λ k. rank k == rank kind) daemon.probes) all_kinds

-- When `wait_online` is over, whether the endpoint comes online or not.
pub wait_online : Timed Unit → ℕ
wait_online online = (timed online_wait online).0

-- `run`: when the loops start, and the kind of each of them. None of them ends.
unfoldable pub run : DaemonConfig → Timed Unit → ℕ × List ProbeKind
run daemon online = (wait_online online, kinds_of daemon)

module _ {Value : Type 0} where
  -- `borrow_and_update().unwrap_or_else(Instant::now)`
  abbrev pub due_of : Slot Value → ℕ
  due_of s = unwrap_or s.next s.now

  -- `sample` has returned to the caller of this entry.
  abbrev pub Returned : Entry → Slot Value → Type 0
  Returned skip t = Unit
  Returned (join r) t = is_open (t.rounds r) ≡ false
  Returned (lead r) t = is_open (t.rounds r) ≡ false

  -- The loop of `run_kind`: the slot, and the time that the timer is set to. Other tasks act on
  -- the slot between its turns and while `run_due` waits. The sampler outlives the loop, so that
  -- the channel of the deadline is never closed.
  pub data Turn (interval : ℕ) : Slot Value × ℕ → Slot Value × ℕ → Type 0 where
    -- the deadline has changed
    changed : (s : Slot Value) (due : ℕ) → Turn interval (s, due) (s, due_of s)
    -- the timer is ready: `run_due`, until it returns
    timer :
        (s t : Slot Value) (due : ℕ)
        → due ≤ s.now
        → Steps interval (entered (enter true s) s) t
        → Returned (enter true s) t
        → Turn interval (s, due) (t, due_of t)
