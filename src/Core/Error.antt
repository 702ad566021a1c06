-- ===== src/Core/Error.antt =====
-- crates/sshe-core/src/error.rs
use sshe.Io.{ErrorKind, IoError}
use sshe.Protocol.Message.{FailureKind}
use sshe.Prelude.{String}

pub data Error : Type 0 where
  io : IoError → Error
  system json timeout output_limit invalid_timeout : Error
  dns inactive invalid : String → Error

kind_of_io : ErrorKind → FailureKind
kind_of_io ErrorKind.connection_refused = FailureKind.refused
kind_of_io ErrorKind.timed_out = FailureKind.timeout
kind_of_io ErrorKind.host_unreachable = FailureKind.unreachable
kind_of_io ErrorKind.network_unreachable = FailureKind.unreachable
kind_of_io ErrorKind.connection_reset = FailureKind.connection_lost
kind_of_io ErrorKind.connection_aborted = FailureKind.connection_lost
kind_of_io ErrorKind.not_connected = FailureKind.connection_lost
kind_of_io ErrorKind.broken_pipe = FailureKind.connection_lost
kind_of_io _ = FailureKind.other

unfoldable pub io_failure_kind : IoError → FailureKind
unfolding kind_of_io
io_failure_kind e = kind_of_io e.kind

-- `Classify for Error`
unfoldable pub failure_kind : Error → FailureKind
unfolding io_failure_kind
failure_kind (io e) = io_failure_kind e
failure_kind timeout = FailureKind.timeout
failure_kind (dns _) = FailureKind.dns
failure_kind (inactive _) = FailureKind.remote
failure_kind _ = FailureKind.other
