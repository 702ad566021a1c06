-- ===== src/Cli/App.antt =====
-- crates/sshe-cli/src/app.rs. What is printed on the way is left out, but that it can be printed
-- as JSON; the operations of a node are the parameter `Ops`.
pub mod Peers
mod Tests
use Prim.Native.String.{◌++◌ as append}
use sshe.Prelude.Maps
use sshe.Prelude.Maps.{string_key}
use sshe.Prelude.{
  String, Option, ℕ, Result, List, Bool, ok, err, ok_or, map_ok, map_err, fail_if, is_some, is_none,
  is_some_and, not, str_eq, if◌then◌else◌, unwrap_or, [], ◌∷◌, none, some, ◌>>=◌, ◌>>◌,
}
use sshe.Protocol.Message.{Request, Response}
use sshe.Node.Error as NodeError
use sshe.Node.Config.{Config, Paths, Toml, Files, Peer, read, save, validate_alias}
use sshe.Cli.Args.{Cli, PeerAction, LocalAction, RemoteAction, Action, into_probe_kind}
use sshe.Cli.Output.{Terminal, render}
use sshe.Cli.Output as Output

pub data Error : Type 0 where
  bail : String → Error
  node : NodeError.Error → Error
  -- `invalid EndpointId`
  invalid_id json : Error
  -- with the context `sshe request failed`
  request_failed : NodeError.Error → Error
  output : Output.Error → Error

-- An exec has a program, since clap requires one: `command[0]` panics otherwise.
unfoldable pub request : RemoteAction → Option Request
request (RemoteAction.probe kind) = some (Request.probe (into_probe_kind kind))
request (RemoteAction.history none about limit) = some (Request.history none about limit)
request (RemoteAction.history (some kind) about limit) =
    some (Request.history (some (into_probe_kind kind)) about limit)
request (RemoteAction.exec timeout []) = none
request (RemoteAction.exec timeout (program ∷ args)) = some (Request.exec program args timeout)

module _ (paths : Paths) (toml : Toml) (files : Files)
    -- `EndpointId::from_str` (as its text), and the JSON text of the address book
    (parse_id : String → Option String) (peers_json : Maps.Map String Peer → Option String) where
  -- The change to the configuration; `none` for one that is only listed.
  pub edited : PeerAction → Config → Result Error (Option Config)
  edited PeerAction.list cfg = map_ok (λ text. none) (ok_or (peers_json cfg.peers) json)
  edited (PeerAction.add alias endpoint_id) cfg = do
    map_err node (validate_alias alias)
    fail_if (is_some (Maps.get alias cfg.peers))
        (bail "alias already exists; remove it explicitly before replacing")
    id ← ok_or (parse_id endpoint_id) invalid_id
    ok (some (record cfg { peers = Maps.insert alias (record { id = id; addrs = [] }) cfg.peers }))
  edited (PeerAction.remove alias) cfg = do
    fail_if (is_none (Maps.get alias cfg.peers)) (bail (append "unknown peer: " alias))
    ok (some (record cfg { peers = Maps.remove alias cfg.peers }))

  saved : Result NodeError.Error Unit × files.World → Result Error Unit × files.World
  saved (r, w) = (map_err node r, w)

  pub peer : PeerAction → String → files.World → Result Error Unit × files.World
  peer action path w = elim (read paths toml files w path) [
    | err e ↦ (err (node e), w)
    | ok cfg ↦ elim (edited action cfg) [
      | err e ↦ (err e, w)
      | ok none ↦ (ok tt, w)
      | ok (some cfg') ↦ saved (save paths toml files w path cfg')
    ]
  ]

  -- the node's operations that change more than its configuration
  pub record Ops (Value : Type 0) : Type 1 where
    pub terminal : Terminal Value
    pub default_path : Result NodeError.Error String
    -- `std::path::absolute`
    pub absolute : String → Result NodeError.Error String
    pub init : String → files.World → Result NodeError.Error String × files.World
    pub endpoint_id : Config → files.World → Result NodeError.Error String
    pub daemon : String → files.World → Result NodeError.Error Unit × files.World
    pub invoke :
        String
        → Option String
        → Request
        → files.World
        → Result NodeError.Error (Response Value) × files.World

  module _ {Value : Type 0} (ops : Ops Value) where
    abbrev unit_of :
        {A : Type 0} → Result NodeError.Error A × files.World → Result Error Unit × files.World
    unit_of (r, w) = (map_ok (λ a. tt) (map_err node r), w)

    pub run_local : LocalAction → String → files.World → Result Error Unit × files.World
    run_local LocalAction.init path w = unit_of (ops.init path w)
    run_local LocalAction.id path w =
        unit_of ((read paths toml files w path >>= λ config. ops.endpoint_id config w), w)
    run_local (LocalAction.peer action) path w = peer action path w
    run_local LocalAction.daemon path w = unit_of (ops.daemon path w)

    -- Both worlds: the node's files, and the terminal.
    abbrev pub Both : Type 0
    Both = files.World × ops.terminal.World

    abbrev exit_zero : Result Error Unit × files.World → ops.terminal.World → Result Error ℕ × Both
    exit_zero (r, w) t = (map_ok (λ u. 0) r, (w, t))

    abbrev rendered :
        Bool
        → Result NodeError.Error (Response Value) × files.World
        → ops.terminal.World
        → Result Error ℕ × Both
    rendered as_json (err e, w) t = (err (request_failed e), (w, t))
    rendered as_json (ok response, w) t =
        let (code, t') = render ops.terminal response as_json t in (map_err output code, (w, t'))

    -- the `match` on the command, at an absolute path
    unfoldable pub perform : Cli → String → Both → Option (Result Error ℕ × Both)
    perform cli path (w, t) = elim cli.command [
      | Action.local_action action ↦
          let done = exit_zero (run_local action path w) t in
          if is_some_and (λ target. not (str_eq target "self")) cli.target
          then some (err (bail "this command is local-only"), (w, t))
          else some done
      | Action.remote_action action ↦ elim (request action) [
        | none ↦ none
        | some r ↦ some (rendered cli.json (ops.invoke path cli.target r w) t)
      ]
    ]

    unfoldable pub absolute_path : Cli → Result NodeError.Error String
    absolute_path cli = elim cli.config [
      | some path ↦ ops.absolute path
      | none ↦ ops.default_path >>= ops.absolute
    ]

    -- `none`: a panic
    unfoldable pub run : Cli → Both → Option (Result Error ℕ × Both)
    run cli s = elim (absolute_path cli) [
      | err e ↦ some (err (node e), s)
      | ok path ↦ perform cli path s
    ]
