-- ===== src/Node/Error.antt =====
-- crates/sshe-node/src/error.rs. The sources that an error only prints are left out.
pub mod Kinds
mod Tests
use sshe.Prelude.{and_then, ℕ, ◌==◌, if◌then◌else◌, Option, none, some, String}
use sshe.Io.{ConnectionError, StreamCause, IoError}
use sshe.Protocol.Message.{FailureKind}
use sshe.Protocol.Codec
use sshe.Core.Error as CoreError

pub data Error : Type 0 where
  io : IoError → Error
  config_read config_write identity_busy timeout probe_cancelled : Error
  protocol : Codec.Error → Error
  core : CoreError.Error → Error
  transport : FailureKind → Error
  outcome_unknown probe_failed : Error → Error
  remote invalid : String → Error

-- the close code for peers outside `[peers]`
abbrev pub unauthorized_code : ℕ
unauthorized_code = 1

unfoldable pub connection_kind : ConnectionError → FailureKind
connection_kind (ConnectionError.application_closed code) =
    if code == unauthorized_code then FailureKind.unauthorized else FailureKind.connection_lost
connection_kind ConnectionError.connection_closed = FailureKind.refused
connection_kind ConnectionError.timed_out = FailureKind.timeout
connection_kind ConnectionError.reset = FailureKind.connection_lost
connection_kind ConnectionError.locally_closed = FailureKind.connection_lost
connection_kind ConnectionError.other_connection_error = FailureKind.other

-- `iroh::endpoint::ConnectError`, as far as the source tells its variants apart
pub data ConnectError : Type 0 where
  no_address other_connect_error : ConnectError
  connecting connection : ConnectionError → ConnectError

unfoldable pub connect_failed : ConnectError → Error
unfolding connection_kind
connect_failed ConnectError.no_address = transport FailureKind.no_address
connect_failed (ConnectError.connecting source) = transport (connection_kind source)
connect_failed (ConnectError.connection source) = transport (connection_kind source)
connect_failed ConnectError.other_connect_error = transport FailureKind.other

unfoldable pub connection_lost : ConnectionError → Error
unfolding connection_kind
connection_lost e = transport (connection_kind e)

-- `transport(e)`: any other error of iroh
abbrev pub transport_other : Error
transport_other = transport FailureKind.other

lost_cause : StreamCause → Option ConnectionError
lost_cause (StreamCause.read_lost c) = some c
lost_cause (StreamCause.write_lost c) = some c
lost_cause _ = none

unfoldable pub stream_io_kind : IoError → FailureKind
unfolding connection_kind CoreError.io_failure_kind lost_cause
stream_io_kind e = elim (and_then e.inner lost_cause) [
  | some c ↦ connection_kind c
  | none ↦ CoreError.io_failure_kind e
]

-- `Classify for Error`
unfoldable pub failure_kind : Error → FailureKind
unfolding stream_io_kind CoreError.failure_kind
failure_kind (transport kind) = kind
failure_kind timeout = FailureKind.timeout
failure_kind (protocol (Codec.Error.io e)) = stream_io_kind e
failure_kind (io e) = stream_io_kind e
failure_kind (core e) = CoreError.failure_kind e
failure_kind (outcome_unknown e) = failure_kind e
failure_kind (probe_failed e) = failure_kind e
failure_kind (remote _) = FailureKind.remote
failure_kind _ = FailureKind.other
