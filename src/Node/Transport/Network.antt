-- ===== src/Node/Transport/Network.antt =====
-- What crates/sshe-node/src/transport.rs asks of iroh, of the framing of a stream, and of the other
-- callers of the same `Dialer`.
use sshe.Protocol.Codec
use sshe.Prelude.{Bool, Result, Option, String, ℕ}
use sshe.Node.Error.{ConnectError}
use sshe.Io.{ConnectionError}
use sshe.Protocol.Message.{Response, Request}

-- iroh's `EndpointId`: a public key in its text form
abbrev pub EndpointId : Type 0
EndpointId = String

-- What the outside does. An awaited operation answers after a number of milliseconds.
pub record Iroh (Value : Type 0) : Type 1 where
  pub World : Type 0
  pub Conn : Type 0
  pub Stream : Type 0
  -- the wait for a peer's lock, and the slots as the other callers leave them
  pub lock :
      World → (EndpointId → Option Conn) → EndpointId → ℕ × (EndpointId → Option Conn) × World
  pub connect : World → EndpointId → ℕ × Result ConnectError Conn × World
  -- `close_reason().is_some()`
  pub is_closed : World → Conn → Bool
  pub open_bi : World → Conn → ℕ × Result ConnectionError Stream × World
  pub write_frame : World → Stream → Request → ℕ × Result Codec.Error Unit × World
  -- false: the stream is closed already
  pub finish : World → Stream → Bool
  pub read_frame : World → Stream → ℕ × Result Codec.Error (Response Value) × World
