-- ===== src/Node/Error/Tests.antt =====
-- A stranger, and a connection that is lost while a reply is read.
use sshe.Prelude.{◌↔◌, ◌≡◌, some}
use sshe.Io.{ConnectionError, StreamCause, IoError, ErrorKind}
use sshe.Protocol.Message.{FailureKind}
use sshe.Node.Error.{connect_failed, connection_lost, failure_kind, ConnectError}
use sshe.Node.Error.Kinds.{unauthorized_iff}

-- the code that a daemon closes a stranger's connection with
abbrev stranger : ConnectionError
stranger = ConnectionError.application_closed 1

unauthorized_iff_example :
    ((failure_kind (connection_lost stranger) ≡ FailureKind.unauthorized)
      ↔ (stranger ≡ ConnectionError.application_closed 1))
    × ((failure_kind (connect_failed (ConnectError.connecting stranger)) ≡ FailureKind.unauthorized)
        ↔ (stranger ≡ ConnectionError.application_closed 1))
    × ((failure_kind (connect_failed (ConnectError.connection stranger)) ≡ FailureKind.unauthorized)
        ↔ (stranger ≡ ConnectionError.application_closed 1))
unauthorized_iff_example = unauthorized_iff stranger

abbrev cut : IoError
cut = record {
  kind = ErrorKind.other_kind;
  inner = some (StreamCause.read_lost ConnectionError.timed_out);
  text = "lost";
}
