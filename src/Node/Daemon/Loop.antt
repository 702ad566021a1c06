-- ===== src/Node/Daemon/Loop.antt =====
-- crates/sshe-node/src/daemon.rs: the loop of a daemon. The values that its `select!` was ready with
-- are `Turn` and `Break`.
use sshe.Prelude.{
  Option, ℕ, List, Result, ok, err, length, zero, suc, ◌+◌, ◌*◌, [], ◌∷◌, none, some,
}
use sshe.Io.{IoError}
use sshe.Node.Error.{Error, io}
use sshe.Node.Server.{try_acquire}

abbrev pub max_connections : ℕ
max_connections = 64

-- The slots that are left, and the tasks of peers and of local connections, each by its number.
pub record Tasks : Type 0 where
  pub connection_slots : ℕ
  pub local_slots : ℕ
  pub peers : List ℕ
  pub locals : List ℕ

abbrev pub initial : ℕ → Tasks
initial max = record {
  connection_slots = max_connections;
  local_slots = 2 * max;
  peers = [];
  locals = [];
}

-- What the loop goes on after: a connection, by its number, or a task that has ended, by its place.
pub data Turn : Type 0 where
  incoming accepted : ℕ → Turn
  peer_joined local_joined : ℕ → Turn
  scheduler_joined : Turn

-- What ends the loop.
pub data Break : Type 0 where
  interrupted terminated endpoint_closed : Break
  accept_failed : IoError → Break

abbrev pub remove_at : ℕ → List ℕ → Option (List ℕ)
remove_at n [] = none
remove_at zero (x ∷ xs) = some xs
remove_at (suc n) (x ∷ xs) = elim (remove_at n xs) [ none ↦ none | some rest ↦ some (x ∷ rest) ]

-- `handle_peer`, with a slot that is given back when the task ends, or `refuse`
unfoldable pub admit_peer : ℕ → Tasks → Tasks
admit_peer n t = elim (try_acquire t.connection_slots) [
  | some left ↦ record t { connection_slots = left; peers = n ∷ t.peers }
  | none ↦ t
]

-- `handle_local`, or the stream is dropped unread
unfoldable pub admit_local : ℕ → Tasks → Tasks
admit_local n t = elim (try_acquire t.local_slots) [
  | some left ↦ record t { local_slots = left; locals = n ∷ t.locals }
  | none ↦ t
]

unfoldable pub turn : Turn → Tasks → Tasks
turn (incoming n) t = admit_peer n t
turn (accepted n) t = admit_local n t
turn (peer_joined place) t = elim (remove_at place t.peers) [
  | some peers ↦ record t { connection_slots = t.connection_slots + 1; peers = peers }
  | none ↦ t
]
turn (local_joined place) t = elim (remove_at place t.locals) [
  | some locals ↦ record t { local_slots = t.local_slots + 1; locals = locals }
  | none ↦ t
]
turn scheduler_joined t = t

unfoldable pub turns : List Turn → Tasks → Tasks
turns [] t = t
turns (x ∷ xs) t = turns xs (turn x t)

-- `abort_all`, and `join_next` until no task is left: each gives its slot back
unfoldable pub abort_all : Tasks → Tasks
abort_all t = record {
  connection_slots = t.connection_slots + length t.peers;
  local_slots = t.local_slots + length t.locals;
  peers = [];
  locals = [];
}

unfoldable pub broken : Break → Result Error Unit
broken (accept_failed e) = err (io e)
broken _ = ok tt
