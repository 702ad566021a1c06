-- ===== src/Node/Sampling/Sampler.antt =====
-- crates/sshe-node/src/sampling.rs: the slots of all kinds, which share a clock and the history, and
-- what `run` and `run_due` give to their callers.
use sshe.Prelude.{
  true, false, Bool, map_err, [], err, map_ok, ok, ◌*◌, none, List, any, Result, some, Option,
  if◌then◌else◌, ◌≡◌, ℕ,
}
use sshe.Node.Sampling.{
  enter, entered, join, lead, skip, closed, open_round, published, idle, Step, Round, Entry, Slot,
}
use sshe.Protocol.Message.{Record, all_kinds, ProbeKind}
use sshe.Node.Config.{DaemonConfig}
use sshe.Node.History.{same_kind, History}
use sshe.Node.Error.{Error}

pub record Sampler (Value : Type 0) : Type 0 where
  pub slots : ProbeKind → Option (Slot Value)
  -- milliseconds
  pub interval : ℕ
  pub now : ℕ
  pub history : History Value

-- The slot once a call has entered, and what the call returns from the slot later.
abbrev pub Call : Type 0 → Type 0 → Type 0
Call Value A = Slot Value × (Slot Value → Option (Result Error A))

module _ {Value : Type 0} where
  -- `Sampler::new`, at a time
  unfoldable pub new : DaemonConfig → ℕ → Sampler Value
  new settings now = record {
    slots = λ kind.
        if any (same_kind kind) all_kinds
        then some (idle (sshe.Node.History.new settings.history_size) now)
        else none;
    interval = settings.interval_secs * 1000;
    now = now;
    history = sshe.Node.History.new settings.history_size;
  }

  -- the slot as a task finds it, with the clock and the history of all kinds
  abbrev pub shared : Sampler Value → Slot Value → Slot Value
  shared s slot = record slot { now = s.now; history = s.history }

  -- the sampler after a step on the slot of a kind
  unfoldable pub with_slot : ProbeKind → Slot Value → Sampler Value → Sampler Value
  with_slot kind slot s = record s {
    slots = λ k. if same_kind k kind then some slot else s.slots k;
    now = slot.now;
    history = slot.history;
  }

  -- A step of a task on the slot of its kind. `slots[&kind]` panics without a slot.
  pub data Act : Sampler Value → Sampler Value → Type 0 where
    act :
        (kind : ProbeKind) (s : Sampler Value) (slot t : Slot Value)
        → s.slots kind ≡ some slot
        → Step s.interval (shared s slot) t
        → Act s (with_slot kind t s)

  pub data Acts (s : Sampler Value) : Sampler Value → Type 0 where
    rest : Acts s s
    then_act : {t u : Sampler Value} → Acts s t → Act t u → Acts s u

  -- the `match` of a waiter on its round: none while it waits
  unfoldable pub round_result : Round Value → Option (Result Error (List (Record Value)))
  round_result open_round = none
  round_result closed = some (err Error.probe_cancelled)
  round_result (published r) = some (map_err Error.probe_failed r)

  -- What `sample` returns to the caller of an entry, once it does, from the slot as it is then.
  -- (A leader that is dropped returns nothing.)
  unfoldable pub result_for : Entry → Slot Value → Option (Result Error (List (Record Value)))
  result_for skip slot = some (ok [])
  result_for (join r) slot = round_result (slot.rounds r)
  result_for (lead r) slot = round_result (slot.rounds r)

  unfoldable pub sample : Bool → Slot Value → Call Value (List (Record Value))
  sample due_only s = (entered (enter due_only s) s, result_for (enter due_only s))

  unfoldable pub run : Slot Value → Call Value (List (Record Value))
  run s = sample false s

  abbrev without_records : Option (Result Error (List (Record Value))) → Option (Result Error Unit)
  without_records none = none
  without_records (some r) = some (map_ok (λ records. tt) r)

  unfoldable pub run_due : Slot Value → Call Value Unit
  run_due s = let (s', returns) = sample true s in (s', λ t. without_records (returns t))

  -- `deadline`: the channel's value
  abbrev pub deadline : Sampler Value → ProbeKind → Option (Option ℕ)
  deadline s kind = elim (s.slots kind) [ none ↦ none | some slot ↦ some slot.next ]
