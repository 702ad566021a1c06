-- ===== src/Ssher/Proxy.antt =====
-- crates/ssher/src/proxy.rs: the two directions between the socket and the standard streams, as they
-- are awaited together. Times are milliseconds. tokio's sockets and `io::copy` are the parameter
-- `Streams`, which says when each operation is over and with what.
pub mod Ends
mod Tests
use Prim.Native.String.{◌++◌ as append}
use sshe.Prelude.{
  String, Option, ℕ, Result, ok, err, map_err, max, leb, ◌+◌, if◌then◌else◌, none, some, decimal,
}
use sshe.Io.{IoError}

-- anyhow: the context of each operation that can fail
pub data Error : Type 0 where
  connect_timeout : String → Error
  connect_failed : String → IoError → Error
  stdin_copy_failed shutdown_failed stdout_copy_failed flush_failed : IoError → Error

-- An operation, or a future: when it is over after its start, if it ever is, and with what.
abbrev pub Async : Type 0 → Type 0 → Type 0
Async E A = Option (ℕ × Result E A)

pub record Streams (World : Type 0) : Type 1 where
  pub Socket : Type 0
  pub connect : World → String → Async IoError Socket
  -- `io::copy` from stdin to the socket, from then on, with the bytes that it moved
  pub copy_stdin : World → Socket → Async IoError ℕ
  -- of the writing half, once stdin has been copied
  pub shutdown : World → Socket → Async IoError Unit
  -- `io::copy` from the socket to stdout
  pub copy_stdout : World → Socket → Async IoError ℕ
  -- of stdout, once the socket has been copied
  pub flush : World → Socket → Async IoError Unit

-- `.await.context(...)`
pub context : {A : Type 0} → (IoError → Error) → Async IoError A → Async Error A
context f none = none
context f (some (at, r)) = some (at, map_err f r)

-- What follows an operation that is over after a time.
pub later : {A : Type 0} → ℕ → Async Error A → Async Error A
later at none = none
later at (some (more, r)) = some (at + more, r)

infixl 5 ◌>>=◌ ◌>>◌
-- `.await?` and what follows it
abbrev pub ◌>>=◌ : {A B : Type 0} → Async Error A → (A → Async Error B) → Async Error B
none >>= f = none
some (at, err e) >>= f = some (at, err e)
some (at, ok a) >>= f = later at (f a)

abbrev pub ◌>>◌ : {A B : Type 0} → Async Error A → Async Error B → Async Error B
m >> k = m >>= λ _. k

-- `timeout(limit, connect)`; a connection that is there at the limit counts
pub connected : {A : Type 0} → String → ℕ → Async IoError A → Async Error A
connected address limit none = some (limit, err (connect_timeout address))
connected address limit (some (at, r)) =
    if leb at limit
    then some (at, map_err (connect_failed address) r)
    else some (limit, err (connect_timeout address))

-- `left?; right?`
pub both_ok : Result Error Unit → Result Error Unit → Result Error Unit
both_ok (err e) right = err e
both_ok (ok u) right = right

-- `join!`: over when both are, whatever their results
pub joined : Async Error Unit → Async Error Unit → Async Error Unit
joined none right = none
joined (some left) none = none
joined (some (at, left)) (some (at', right)) = some (max at at', both_ok left right)

module _ {World : Type 0} (streams : Streams World) where
  open streams use {Socket, connect, copy_stdin, shutdown, copy_stdout, flush}

  pub stdin_to_socket : World → Socket → Async Error Unit
  stdin_to_socket w socket = do
    context stdin_copy_failed (copy_stdin w socket)
    context shutdown_failed (shutdown w socket)

  pub socket_to_stdout : World → Socket → Async Error Unit
  socket_to_stdout w socket = do
    context stdout_copy_failed (copy_stdout w socket)
    context flush_failed (flush w socket)

  -- the `host:port` that is connected to
  abbrev pub address_of : String → ℕ → String
  address_of endpoint port = append endpoint (append ":" (decimal port))

  pub proxy_tcp_stdio : String → ℕ → ℕ → World → Async Error Unit
  proxy_tcp_stdio endpoint port timeout_ms w = do
    socket ← connected (address_of endpoint port) timeout_ms (connect w (address_of endpoint port))
    joined (stdin_to_socket w socket) (socket_to_stdout w socket)
