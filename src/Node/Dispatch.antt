-- ===== src/Node/Dispatch.antt =====
-- crates/sshe-node/src/dispatch.rs, and the choice of checks in probe.rs. What a request is carried
-- out by is the parameter `Parts`: the sampler, the checks of crates/sshe-core, and the dialer.
mod Tests
use Prim.Native.String.{◌++◌ as append}
use sshe.Prelude.{◌&&◌, err, ok, if◌then◌else◌, ℕ, Result, String, List, Bool, [], ◌∷◌, none, some}
use sshe.Protocol.Message.{
  Request, Response, ProbeKind, Record, ExecResult, Health, ProbeReport, HistoryReport,
}
use sshe.Core.Error as CoreError
use sshe.Node.Error.{Error}
use sshe.Node.Config.{Config}
use sshe.Node.History.{History, query}

-- An operation that is awaited may change the world.
abbrev pub Effect : Type 0 → Type 0 → Type 0
Effect W A = W → A × W

pub record Parts (Value : Type 0) : Type 1 where
  pub World : Type 0
  -- CARGO_PKG_VERSION
  pub version : String
  pub now : World → ℕ
  -- `Sampler::run`
  pub sample : Config → ProbeKind → Effect World (Result Error (List (Record Value)))
  -- `sampler.history`
  pub history : World → History Value
  -- `host_probe`, `network` and `services`
  pub check : Config → ProbeKind → Effect World (List (Record Value))
  -- `check_peer` for all peers
  pub check_peers : Config → Effect World (List (Record Value))
  -- `sshe_core::execute`
  pub execute : String → List String → ℕ → Effect World (Result CoreError.Error ExecResult)
  -- `Dialer::call`
  pub call : String → Request → Effect World (Result Error (Response Value))
  -- `Error`'s text
  pub to_string : Error → String

-- What a request may use on this side.
pub record Node : Type 0 where
  pub config : Config
  pub id : String
  pub has_dialer : Bool
  pub has_sampler : Bool

module _ {Value : Type 0} (parts : Parts Value) where
  open parts use {World, version, now, sample, history, check, check_peers, execute, to_string}

  -- `probe::probe`
  unfoldable pub probe :
      Config → Bool → ProbeKind → Effect World (Result Error (List (Record Value)))
  probe config has_dialer ProbeKind.peers w =
      let (records, w') = check_peers config w in
      if has_dialer
      then (ok records, w')
      else (err (Error.invalid "peer probe requires an endpoint"), w)
  probe config has_dialer kind w = let (records, w') = check config kind w in (ok records, w')

  -- the records of a probe request
  unfoldable pub probe_records :
      Node → ProbeKind → Effect World (Result Error (List (Record Value)))
  probe_records node kind w =
      if node.has_sampler && node.has_dialer
      then sample node.config kind w
      else probe node.config node.has_dialer kind w

  abbrev pub probe_reply : Node → ProbeKind → List (Record Value) → Response Value
  probe_reply node kind records =
      Response.probe (record { observer = node.id; kind = kind; records = records })

  -- `?` on what was awaited, and the response made of it
  abbrev pub reply :
      {E A : Type 0}
      → (E → Error)
      → (A → Response Value)
      → Result E A × World
      → Result Error (Response Value) × World
  reply into f (ok a, w) = (ok (f a), w)
  reply into f (err e, w) = (err (into e), w)

  unfoldable pub dispatch : Node → Request → Effect World (Result Error (Response Value))
  dispatch node Request.health w =
      (ok (Response.health (record { endpoint_id = node.id; status = "ok"; version = version })), w)
  dispatch node (Request.probe kind) w =
      reply (λ e. e) (probe_reply node kind) (probe_records node kind w)
  dispatch node (Request.history kind about limit) w =
      if node.has_sampler
      then (
        ok (
            Response.history (record {
              observer = node.id;
              queried_at = now w;
              records = query (history w) kind about limit;
            })),
        w,
      )
      else (err (Error.invalid "history requires a running daemon"), w)
  dispatch node (Request.exec program args timeout_secs) w =
      reply Error.core Response.exec (execute program args timeout_secs w)

  -- `dispatch::response`
  unfoldable pub response : Result Error (Response Value) → Response Value
  response (ok r) = r
  response (err e) = Response.error (to_string e)
