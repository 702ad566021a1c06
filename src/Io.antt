-- ===== src/Io.antt =====
-- What the standard library and iroh hand to the program when I/O fails: the error kinds, and the
-- QUIC causes inside them, that crates/sshe-core/src/error.rs and crates/sshe-node/src/error.rs
-- tell apart. Each `other_…` stands for the variants that the source takes by a wildcard.
use sshe.Prelude.{ℕ, Option, String}

-- `std::io::ErrorKind`
pub data ErrorKind : Type 0 where
  not_found connection_refused timed_out host_unreachable network_unreachable : ErrorKind
  connection_reset connection_aborted not_connected broken_pipe unexpected_eof : ErrorKind
  other_kind : ErrorKind

-- `iroh::endpoint::ConnectionError`; `application_closed` carries the close code
pub data ConnectionError : Type 0 where
  application_closed : ℕ → ConnectionError
  connection_closed timed_out reset locally_closed other_connection_error : ConnectionError

-- What `io::Error::get_ref` may hold: iroh's `ReadError` or `WriteError`, or something else.
pub data StreamCause : Type 0 where
  read_lost write_lost : ConnectionError → StreamCause
  other_read other_write other_cause : StreamCause

pub record IoError : Type 0 where
  pub kind : ErrorKind
  pub inner : Option StreamCause
  pub text : String
