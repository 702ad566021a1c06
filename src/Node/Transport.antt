-- ===== src/Node/Transport.antt =====
-- crates/sshe-node/src/transport.rs: one RPC over a cached connection, its deadlines and its one
-- retry. Times are milliseconds. iroh, the framing of a stream and the other callers of the same
-- `Dialer` are the parameter `Iroh`: each operation that is awaited says how long it takes.
-- `trace` records what the code did to the outside, and no code reads it.
pub mod Timeouts
pub mod Network
pub mod Setup
pub mod Follows
pub mod Deadlines
pub mod Plain
pub mod Submits
mod Tests
pub use sshe.Node.Transport.Timeouts.{
  dial_timeout, io_timeout, handshake_timeout, rpc_timeout, call_timeout, local_timeout,
}
pub use sshe.Node.Transport.Network.{EndpointId, Iroh}
use Prim.Native.String.{◌++◌ as append}
use sshe.Io.{ConnectionError}
use sshe.Protocol.Codec
use sshe.Protocol.Message.{failure_as_str, Request, Response, FailureKind, exec}
use sshe.Protocol.Limits.{max_exec_seconds}
use sshe.Node.Error.{
  failure_kind, transport_other, connection_lost, connect_failed, Error, ConnectError,
}
use sshe.Prelude.{
  ◌||◌, [], max, min, ◌∷◌, not, ◌==◌, map_err, none, filter_option, ok, ◌+◌, ◌*◌, ◌&&◌, ◌-◌, any,
  leb, ◌++◌, err, str_eq, false, some, Result, List, true, if◌then◌else◌, Option, String, ℕ, Bool,
}

-- What the code did, and when.
pub data Event : Type 0 where
  dialed : ℕ → EndpointId → Event
  submitted : ℕ → Request → Event

unfoldable pub is_exec : Request → Bool
is_exec (exec program args timeout_secs) = true
is_exec _ = false

-- `unknown_if_exec`: an exec that failed after submission may still have run
unfoldable pub unknown_if_exec : {A : Type 0} → Request → Result Error A → Result Error A
unknown_if_exec request (ok a) = ok a
unknown_if_exec request (err e) = if is_exec request then err (Error.outcome_unknown e) else err e

-- `== FailureKind::ConnectionLost`
is_connection_lost : FailureKind → Bool
is_connection_lost FailureKind.connection_lost = true
is_connection_lost _ = false

module _ {Value : Type 0} (iroh : Iroh Value) where
  open iroh use {
    World, Conn, Stream, lock, connect, is_closed, open_bi, write_frame, finish, read_frame,
  }

  -- The clock, the cached connections and the outside, with the local variable `submitted` of
  -- `exchange` and the trace, which holds a request from when its first byte may be written.
  pub record Net : Type 0 where
    pub now : ℕ
    pub slots : EndpointId → Option Conn
    pub world : World
    pub submitted : Bool
    pub trace : List Event

  -- A future that is polled until a cut-off: `none` if it is dropped there.
  abbrev pub Async : Type 0 → Type 0
  Async A = ℕ → Net → Option (Result Error A) × Net

  abbrev pub continue : {A B : Type 0} → Option (Result Error A) → (A → Async B) → Async B
  continue none f cutoff n = (none, n)
  continue (some (err e)) f cutoff n = (some (err e), n)
  continue (some (ok a)) f cutoff n = f a cutoff n

  infixl 5 ◌>>=◌ ◌>>◌
  -- `.await?` and what follows it
  unfoldable pub ◌>>=◌ : {A B : Type 0} → Async A → (A → Async B) → Async B
  (m >>= f) cutoff n = let (r, n') = m cutoff n in continue r f cutoff n'

  abbrev pub ◌>>◌ : {B : Type 0} → Async Unit → Async B → Async B
  m >> k = m >>= λ _. k

  -- What is ready at once.
  unfoldable pub ready : {A : Type 0} → Result Error A → Async A
  ready r cutoff n = (some r, n)

  -- Waits for an answer. The timer is looked at after the answer: one that comes at the cut-off
  -- counts.
  unfoldable pub await : {A E : Type 0} → (E → Error) → (World → ℕ × Result E A × World) → Async A
  await into op cutoff n =
      let (d, r, w) = op n.world in
      if leb (n.now + d) cutoff
      then (some (map_err into r), record n { now = n.now + d; world = w })
      else (none, record n { now = max n.now cutoff; world = w })

  abbrev or_timeout : {A : Type 0} → Option (Result Error A) → Result Error A
  or_timeout none = err Error.timeout
  or_timeout (some r) = r

  unfoldable pub within : {A : Type 0} → ℕ → Async A → Net → Result Error A × Net
  within limit f n = let (r, n') = f (n.now + limit) n in (or_timeout r, n')

  -- Each phase keeps its own limit but cannot extend the original call deadline.
  unfoldable pub within_deadline : {A : Type 0} → ℕ → ℕ → Async A → Net → Result Error A × Net
  within_deadline deadline limit f n =
      let remaining = deadline - n.now in
      if remaining == 0 then (err Error.timeout, n) else within (min limit remaining) f n

  unfoldable pub modify : (Net → Net) → Async Unit
  modify f cutoff n = (some (ok tt), f n)

  unfoldable pub note : (ℕ → Event) → Net → Net
  note e n = record n { trace = n.trace ++ e n.now ∷ [] }

  -- A slot's connection, if it is alive: `cached.as_ref().filter(|c| c.close_reason().is_none())`
  abbrev alive : World → Option Conn → Option Conn
  alive w = filter_option (λ c. not (is_closed w c))

  unfoldable pub set_slot : EndpointId → Conn → Net → Net
  set_slot id c n = record n { slots = λ j. if str_eq j id then some c else n.slots j }

  -- Waits for the lock of a peer.
  unfoldable pub lock_slot : EndpointId → Async (Option Conn)
  lock_slot id cutoff n =
      let (d, slots, w) = lock n.world n.slots id in
      if leb (n.now + d) cutoff
      then (some (ok (slots id)), record n { now = n.now + d; slots = slots; world = w })
      else (none, record n { now = max n.now cutoff; slots = slots; world = w })

  -- A new connection, kept in the slot.
  unfoldable pub dial : EndpointId → Async (Conn × Bool)
  dial id = do
    modify (note (λ t. dialed t id))
    c ← await connect_failed (λ w. connect w id)
    modify (set_slot id c)
    ready (ok (c, false))

  -- The cached connection while it lives, or a new one; `true` for a cached one.
  unfoldable pub reuse_or_dial : EndpointId → Option Conn → Async (Conn × Bool)
  reuse_or_dial id cached cutoff n = elim (alive n.world cached) [
    | some c ↦ (some (ok (c, true)), n)
    | none ↦ dial id cutoff n
  ]

  unfoldable pub not_configured : EndpointId → Error
  not_configured id = Error.invalid (append id " is not a configured peer")

  -- The async block of `Dialer::connection`; `peers` are the keys of the map of slots.
  unfoldable pub acquire : List EndpointId → EndpointId → Async (Conn × Bool)
  acquire peers id = do
    ready (if any (str_eq id) peers then ok tt else err (not_configured id))
    cached ← lock_slot id
    reuse_or_dial id cached

  unfoldable pub connection :
      List EndpointId → EndpointId → ℕ → Net → Result Error (Conn × Bool) × Net
  connection peers id deadline = within_deadline deadline dial_timeout (acquire peers id)

  pub record Failed : Type 0 where
    pub submitted : Bool
    pub error : Error

  unfoldable pub finish_stream : Stream → Async Unit
  finish_stream s cutoff n = (some (if finish n.world s then ok tt else err transport_other), n)

  -- From when `write_frame` begins, the peer may have the request.
  unfoldable pub send_request : Stream → Request → Async Unit
  send_request s request = do
    modify (note (λ t. submitted t request))
    await Error.protocol (λ w. write_frame w s request)

  unfoldable pub talk : Stream → Request → Async (Response Value)
  talk s request = do
    send_request s request
    finish_stream s
    await Error.protocol (λ w. read_frame w s)

  unfoldable pub mark_submitted : Net → Net
  mark_submitted n = record n { submitted = true }

  -- the async block that sends the request and reads the reply
  unfoldable pub submit : Stream → Request → Async (Response Value)
  submit s request = do modify mark_submitted; talk s request

  unfoldable pub reply_on : Stream → Request → ℕ → Net → Result Failed (Response Value) × Net
  reply_on s request deadline n =
      let (r, n') =
        within_deadline deadline rpc_timeout (submit s request) (record n { submitted = false }) in
      (map_err (λ e. record { submitted = n'.submitted; error = e }) r, n')

  unfoldable pub exchange : Conn → Request → ℕ → Net → Result Failed (Response Value) × Net
  exchange c request deadline n =
      let (r, n') =
        within_deadline deadline io_timeout (await connection_lost (λ w. open_bi w c)) n in
      elim r [
        | err e ↦ (err (record { submitted = false; error = e }), n')
        | ok s ↦ reply_on s request deadline n'
      ]

  -- the guard of the retry
  pub may_retry : Conn → Bool → Request → Failed → Net → Bool
  may_retry c reused request failed n =
      reused
      && (not failed.submitted || not (is_exec request))
      && is_connection_lost (failure_kind failed.error)
      && is_closed n.world c

  unfoldable pub finally : Request → Result Failed (Response Value) → Result Error (Response Value)
  finally request (ok response) = ok response
  finally request (err failed) =
      if failed.submitted then unknown_if_exec request (err failed.error) else err failed.error

  module _ (peers : List EndpointId) (id : EndpointId) (request : Request) (deadline : ℕ) where
    -- one more exchange, on a connection asked for again
    pub retry : Net → Result Error (Response Value) × Net
    retry n =
        let (r, n') = connection peers id deadline n in
        elim r [
          | err e ↦ (err e, n')
          | ok (c, _) ↦ let (r', n'') = exchange c request deadline n' in (finally request r', n'')
        ]

    unfoldable pub first_reply :
        Conn → Bool → Result Failed (Response Value) → Net → Result Error (Response Value) × Net
    first_reply c reused (ok response) n = (finally request (ok response), n)
    first_reply c reused (err failed) n =
        let again = retry n in
        if may_retry c reused request failed n then again else (finally request (err failed), n)

    unfoldable pub call_until : Net → Result Error (Response Value) × Net
    call_until n =
        let (r, n') = connection peers id deadline n in
        elim r [
          | err e ↦ (err e, n')
          | ok (c, reused) ↦
              let (r', n'') = exchange c request deadline n' in first_reply c reused r' n''
        ]

  unfoldable pub call :
      List EndpointId → EndpointId → Request → Net → Result Error (Response Value) × Net
  call peers id request n = call_until peers id request (n.now + call_timeout) n
