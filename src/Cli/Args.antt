-- ===== src/Cli/Args.antt =====
-- crates/sshe-cli/src/args.rs. clap parses the command line; what it has checked of the values is
-- `IsAccepted`.
use sshe.Prelude.{
  String, Option, ℕ, Result, List, Bool, ok_or, filter_option, not, str_eq, strip_prefix, ◌≤◌, [],
  ◌∷◌,
}
use sshe.Protocol.Message.{ProbeKind}
use sshe.Protocol.Limits.{max_exec_seconds, max_history_query}

pub data Kind : Type 0 where
  host lan wan services peers : Kind

-- `From<Kind> for ProbeKind`
unfoldable pub into_probe_kind : Kind → ProbeKind
into_probe_kind Kind.host = ProbeKind.host
into_probe_kind Kind.lan = ProbeKind.lan
into_probe_kind Kind.wan = ProbeKind.wan
into_probe_kind Kind.services = ProbeKind.services
into_probe_kind Kind.peers = ProbeKind.peers

pub data PeerAction : Type 0 where
  list : PeerAction
  -- alias, endpoint_id
  add : String → String → PeerAction
  remove : String → PeerAction

pub data LocalAction : Type 0 where
  init id daemon : LocalAction
  peer : PeerAction → LocalAction

pub data RemoteAction : Type 0 where
  probe : Kind → RemoteAction
  -- kind, about, limit
  history : Option Kind → Option String → ℕ → RemoteAction
  -- timeout, command
  exec : ℕ → List String → RemoteAction

pub data Action : Type 0 where
  local_action : LocalAction → Action
  remote_action : RemoteAction → Action

pub record Cli : Type 0 where
  pub target : Option String
  pub config : Option String
  pub json : Bool
  pub command : Action

-- the values' ranges, and `required`
abbrev pub IsAccepted : RemoteAction → Type 0
IsAccepted (RemoteAction.history kind about limit) = (1 ≤ limit) × (limit ≤ max_history_query)
IsAccepted (RemoteAction.exec timeout []) = ⊥
IsAccepted (RemoteAction.exec timeout (program ∷ args)) =
    (1 ≤ timeout) × (timeout ≤ max_exec_seconds)
IsAccepted (RemoteAction.probe kind) = Unit

pub parse_target : String → Result String String
parse_target value =
    ok_or (filter_option (λ s. not (str_eq s "")) (strip_prefix "@" value))
      "target must be @alias or @self"
