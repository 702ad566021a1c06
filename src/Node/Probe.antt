-- ===== src/Node/Probe.antt =====
-- crates/sshe-node/src/probe.rs: the checks of each kind, that of a peer's health included. Times
-- are milliseconds. The groups start in the state that the outside has then.
pub mod Checked
pub mod Answered
mod Tests
use Prim.Native.String.{◌++◌ as append}
use sshe.Prelude.{
  String, Option, ℕ, Result, List, ok, err, ◌-◌, map, str_eq, if◌then◌else◌, some, none,
}
use sshe.Protocol.Message.{ProbeKind, Record, Request, Response}
use sshe.Core.Config.{timeout_of, peer_timeout_of}
use sshe.Core.Probe.{Outside, Classify, Timed, join_all, measure, network, services}
use sshe.Core.Probe.Host.{Machine, host_probe}
use sshe.Node.Error.{Error, failure_kind}
use sshe.Node.Config.{Config, Peer}
use sshe.Node.Transport.{Iroh, Net, call}

-- What the checks use: this machine, the network, and the connections to the peers.
pub record Surroundings (Value : Type 0) : Type 1 where
  pub outside : Outside Value
  pub machine : Machine Value
  pub iroh : Iroh Value
  pub net : Net iroh
  -- `json!({"version": …})`
  pub version_value : String → Value
  -- an error's text
  pub to_string : Error → String

module _ {Value : Type 0} (around : Surroundings Value) where
  open around use {outside, machine, iroh, net, version_value, to_string}

  abbrev pub node_errors : Classify Error
  node_errors = record { failure_kind = failure_kind; to_string = to_string }

  -- the `match` on the answer to `Request::Health`
  pub healthy : Result Error (Response Value) → Result Error (Option Value)
  healthy (err e) = err e
  healthy (ok (Response.health h)) =
      if str_eq h.status "ok"
      then ok (some (version_value h.version))
      else err (Error.remote (append "unhealthy: " h.status))
  healthy (ok (Response.error e)) = err (Error.remote e)
  healthy (ok _) = err (Error.invalid "unexpected response")

  -- `dialer.call` and what is made of its answer; `ids` are the dialer's peers
  pub ask_health : List String → String → Timed (Result Error (Option Value))
  ask_health ids id =
      let (r, n) = call iroh ids id Request.health net in some (n.now - net.now, healthy r)

  pub check_peer : List String → ℕ → String × Peer → ℕ × Record Value
  check_peer ids limit (alias, p) =
      measure node_errors outside.now ProbeKind.peers p.id (some alias) "iroh_health" limit
        (ask_health ids p.id)

  -- the arms of `probe`, with a dialer
  pub checks_of : Config → ProbeKind → ℕ × List (Record Value)
  checks_of config ProbeKind.host = host_probe machine outside (timeout_of config.probe)
  checks_of config ProbeKind.wan =
      network outside config.probe.wan ProbeKind.wan (timeout_of config.probe)
  checks_of config ProbeKind.lan =
      network outside config.probe.lan ProbeKind.lan (timeout_of config.probe)
  checks_of config ProbeKind.services =
      services outside config.probe.services (timeout_of config.probe)
  checks_of config ProbeKind.peers =
      let ids = map (λ e. e.1.id) config.peers in
      join_all (map (check_peer ids (peer_timeout_of config.probe)) config.peers)
