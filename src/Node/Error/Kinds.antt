-- ===== src/Node/Error/Kinds.antt =====
-- How the failures of a connection are told apart.
use sshe.Prelude.{arith, ◌↔◌, ◌⊎◌, ◌≡◌, some}
use sshe.Io.{ConnectionError, StreamCause, IoError}
use sshe.Protocol.Message.{FailureKind}
use sshe.Protocol.Codec
use sshe.Node.Error.{
  lost_cause, stream_io_kind, connection_kind, connect_failed, failure_kind, connection_lost, Error,
  ConnectError,
}

-- A peer is reported as refusing this node's key exactly if it closed the connection with the code
-- for strangers: when a stream is opened on a connection that is there, when the handshake of a
-- dialed connection is lost, and when a dialed connection is lost right after it.
pub unauthorized_iff :
    (c : ConnectionError)
    → ((failure_kind (connection_lost c) ≡ FailureKind.unauthorized)
        ↔ (c ≡ ConnectionError.application_closed 1))
      × ((failure_kind (connect_failed (ConnectError.connecting c)) ≡ FailureKind.unauthorized)
          ↔ (c ≡ ConnectionError.application_closed 1))
      × ((failure_kind (connect_failed (ConnectError.connection c)) ≡ FailureKind.unauthorized)
          ↔ (c ≡ ConnectionError.application_closed 1))
unfolding connection_lost connect_failed failure_kind connection_kind
unauthorized_iff c = ground arith

-- A lost connection is reported in the same way wherever it shows: when a stream is opened, and
-- inside the I/O error of a read or a write, in a frame or not, also when an outcome is unknown.
lost_in_stream :
    (e : IoError) (c : ConnectionError)
    → (e.inner ≡ some (StreamCause.read_lost c)) ⊎ (e.inner ≡ some (StreamCause.write_lost c))
    → (failure_kind (Error.io e) ≡ failure_kind (connection_lost c))
      × (failure_kind (Error.protocol (Codec.Error.io e)) ≡ failure_kind (connection_lost c))
      × (failure_kind (Error.outcome_unknown (Error.protocol (Codec.Error.io e)))
          ≡ failure_kind (connection_lost c))
unfolding connection_lost failure_kind stream_io_kind lost_cause
lost_in_stream e c h = ground (arith, h)
