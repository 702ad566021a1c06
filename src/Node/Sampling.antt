-- ===== src/Node/Sampling.antt =====
-- crates/sshe-node/src/sampling.rs: the rounds of one probe kind, which manual requests and the
-- scheduler share. Tasks run concurrently, so what they do is a step relation: a call enters, a
-- leader ends its round or is dropped, a waiter gets its answer, and time passes. A round is named
-- by its number; the result of a leader's probe is any result.
pub mod Leader
pub mod Kept
pub mod Waiting
pub mod Spaced
pub mod Lines
pub mod Sampler
pub mod Kinds
pub mod Deadlines
mod Tests
use sshe.Protocol.Message.{Record}
use sshe.Node.Error.{Error}
use sshe.Node.History.{History, insert}
use sshe.Prelude.{
  ltb, is_some_and, ◌+◌, ok, false, ◌==◌, ◌&&◌, ◌++◌, true, err, if◌then◌else◌, ◌≡◌, Option, some,
  [], filter_option, none, ℕ, Result, Bool, ◌∷◌, List,
}

-- A round's channel: its sender lives, it has a result, or its sender was dropped without one
-- (a number that no round has yet counts as dropped).
pub data Round (Value : Type 0) : Type 0 where
  open_round closed : Round Value
  published : Result Error (List (Record Value)) → Round Value

-- What `sample` finds under the lock.
pub data Entry : Type 0 where
  skip : Entry
  join lead : ℕ → Entry

-- The slot of a kind, with the history and the tasks: the rounds of the leaders at work and those
-- of the callers that wait.
pub record Slot (Value : Type 0) : Type 0 where
  pub now : ℕ
  pub running : Option ℕ
  pub next : Option ℕ
  pub rounds : ℕ → Round Value
  pub count : ℕ
  pub history : History Value
  pub leaders : List ℕ
  pub waiters : List ℕ

module _ {Value : Type 0} where
  -- `Slot::default`
  abbrev pub idle : History Value → ℕ → Slot Value
  idle history now = record {
    now = now;
    running = none;
    next = none;
    rounds = λ r. closed;
    count = 0;
    history = history;
    leaders = [];
    waiters = [];
  }

  -- `has_changed().is_ok()`: the sender lives
  abbrev pub is_open : Round Value → Bool
  is_open open_round = true
  is_open _ = false

  abbrev pub set_round : ℕ → Round Value → (ℕ → Round Value) → ℕ → Round Value
  set_round r v rounds k = if k == r then v else rounds k

  unfoldable pub enter : Bool → Slot Value → Entry
  enter due_only s = elim (filter_option (λ r. is_open (s.rounds r)) s.running) [
    | some r ↦ join r
    | none ↦ if due_only && is_some_and (λ due. ltb s.now due) s.next then skip else lead s.count
  ]

  unfoldable pub entered : Entry → Slot Value → Slot Value
  entered skip s = s
  entered (join r) s = record s { waiters = r ∷ s.waiters }
  entered (lead r) s = record s {
    running = some r;
    rounds = set_round r open_round s.rounds;
    count = s.count + 1;
    leaders = r ∷ s.leaders;
  }

  -- each record is inserted, which writes its `last_success_at`
  unfoldable pub insert_all :
      History Value → List (Record Value) → History Value × List (Record Value)
  insert_all h [] = (h, [])
  insert_all h (r ∷ rs) =
      let (h', r', _) = insert h r in let (h'', rs') = insert_all h' rs in (h'', r' ∷ rs')

  unfoldable pub recorded :
      Result Error (List (Record Value))
      → History Value
      → History Value × Result Error (List (Record Value))
  recorded (err e) h = (h, err e)
  recorded (ok records) h = let (h', records') = insert_all h records in (h', ok records')

  -- The leader's end: history first, then the deadline, the result and the slot at once.
  unfoldable pub publish : ℕ → ℕ → Result Error (List (Record Value)) → Slot Value → Slot Value
  publish interval r result s =
      let (h, result') = recorded result s.history in
      record s {
        history = h;
        next = some (s.now + interval);
        rounds = set_round r (published result') s.rounds;
        running = none;
      }

  pub data Step (interval : ℕ) : Slot Value → Slot Value → Type 0 where
    call : (due_only : Bool) (s : Slot Value) → Step interval s (entered (enter due_only s) s)
    finish :
        (r : ℕ) (result : Result Error (List (Record Value))) (before after : List ℕ)
        (s : Slot Value)
        → s.leaders ≡ before ++ r ∷ after
        → Step interval s (record (publish interval r result s) { leaders = before ++ after })
    -- the leader's future is dropped, and its sender with it
    drop_leader :
        (r : ℕ) (before after : List ℕ) (s : Slot Value)
        → s.leaders ≡ before ++ r ∷ after
        → Step interval s
            (record s { rounds = set_round r closed s.rounds; leaders = before ++ after })
    -- a waiter whose round has a result, or no sender
    answer :
        (r : ℕ) (before after : List ℕ) (s : Slot Value)
        → s.waiters ≡ before ++ r ∷ after
        → is_open (s.rounds r) ≡ false
        → Step interval s (record s { waiters = before ++ after })
    -- a round of another kind writes the history that all kinds share
    other : (h : History Value) (s : Slot Value) → Step interval s (record s { history = h })
    pass : (d : ℕ) (s : Slot Value) → Step interval s (record s { now = s.now + d })

  pub data Steps (interval : ℕ) (s : Slot Value) : Slot Value → Type 0 where
    stay : Steps interval s s
    more : {t u : Slot Value} → Steps interval s t → Step interval t u → Steps interval s u
