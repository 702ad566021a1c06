-- ===== src/Node/Server.antt =====
-- crates/sshe-node/src/server.rs: requests from peers and from the local command line. A stream is
-- the parameter `Stream`; permits are counted, and a permit that was taken is given back when the
-- request is done.
pub mod Peers
pub mod Wire
pub mod Called
mod Tests
use sshe.Prelude.Maps
use sshe.Prelude.{
  ◌-◌, ◌==◌, str_eq, if◌then◌else◌, ok, Option, ◌++◌, Bool, err, String, ℕ, List, Result, [], ◌∷◌,
  none, some, true, false,
}
use sshe.Protocol.Message.{Request, Response}
use sshe.Node.Error.{Error, transport_other, unauthorized_code}
use sshe.Node.Config.{Config, Peer, peer as find_peer}
use sshe.Node.Dispatch.{response, dispatch, Parts, Node}
use sshe.Node.Client.{LocalRequest}

abbrev pub busy : String
busy = "daemon busy; request not executed"

-- `Semaphore::try_acquire`: the permits that are left
abbrev pub try_acquire : ℕ → Option ℕ
try_acquire permits = if permits == 0 then none else some (permits - 1)

-- The name of a peer by its key.
pub find_alias : Maps.Map String Peer → String → Option String
find_alias [] remote = none
find_alias ((alias, p) ∷ rest) remote =
    let found = find_alias rest remote in if str_eq p.id remote then some alias else found

module _ {Value : Type 0} (parts : Parts Value) where
  open parts use {World, call}

  -- The stream of a request: what is read and written, each within IO_TIMEOUT.
  pub record Stream (M : Type 0) : Type 0 where
    pub read : World → Result Error M × World
    pub write : World → Response Value → Result Error Unit × World
    -- false: the stream is closed already
    pub finish : World → Bool

  -- A request that gets a permit is carried out; another one is answered at once.
  pub peer_reply : Node → ℕ → Request → World → Response Value × World
  peer_reply node permits request w = elim (try_acquire permits) [
    | some _ ↦ let (r, w') = dispatch parts node request w in (response parts r, w')
    | none ↦ (Response.error busy, w)
  ]

  finished : Stream Request → Result Error Unit × World → Result Error Unit × World
  finished stream (err e, w) = (err e, w)
  finished stream (ok _, w) = ((if stream.finish w then ok tt else err transport_other), w)

  pub serve_stream : Stream Request → Node → ℕ → World → Result Error Unit × World
  serve_stream stream node permits w =
      let (r, w') = stream.read w in
      elim r [
        | err e ↦ (err e, w')
        | ok request ↦
            let (reply, w'') = peer_reply node permits request w' in
            finished stream (stream.write w'' reply)
      ]

  pub forward : Node → String → Request → World → Result Error (Response Value) × World
  forward node alias request w = elim (find_peer node.config alias) [
    | err e ↦ (err e, w)
    | ok p ↦
        if node.has_dialer
        then call p.id request w
        else (err (Error.invalid "forwarding requires an endpoint"), w)
  ]

  pub local_result : Node → ℕ → LocalRequest → World → Result Error (Response Value) × World
  local_result node permits message w = elim (try_acquire permits) [
    | none ↦ (err (Error.invalid busy), w)
    | some _ ↦ elim message.target [
      | some alias ↦ forward node alias message.request w
      | none ↦ dispatch parts node message.request w
    ]
  ]

  pub serve_local : Stream LocalRequest → Node → ℕ → World → Result Error Unit × World
  serve_local stream node permits w =
      let (r, w') = stream.read w in
      elim r [
        | err e ↦ (err e, w')
        | ok message ↦
            let (result, w'') = local_result node permits message w' in
            stream.write w'' (response parts result)
      ]

-- One connection of `serve_peer`: the requests in flight, and those that are done.
pub data Connection : Type 0 where
  -- closed with this code
  rejected : ℕ → Connection
  accepting draining : List ℕ → List ℕ → Connection

pub connected : Config → String → Connection
connected config remote = elim (find_alias config.peers remote) [
  | none ↦ rejected unauthorized_code
  | some alias ↦ accepting [] []
]

-- The turns of the `select!` loop, and of the loop after it: a stream (by its number) is accepted,
-- one in flight is done, the peer closes the connection.
pub data Turn : Connection → Connection → Type 0 where
  accept :
      (n : ℕ) (inflight ended : List ℕ)
      → Turn (accepting inflight ended) (accepting (n ∷ inflight) ended)
  end :
      (n : ℕ) (before after ended : List ℕ)
      → Turn (accepting (before ++ n ∷ after) ended) (accepting (before ++ after) (n ∷ ended))
  close : (inflight ended : List ℕ) → Turn (accepting inflight ended) (draining inflight ended)
  drain :
      (n : ℕ) (before after ended : List ℕ)
      → Turn (draining (before ++ n ∷ after) ended) (draining (before ++ after) (n ∷ ended))

-- The turns of a connection so far.
pub data Turns (c : Connection) : Connection → Type 0 where
  start : Turns c c
  then_turn : {d e : Connection} → Turns c d → Turn d e → Turns c e
