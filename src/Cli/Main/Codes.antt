-- ===== src/Cli/Main/Codes.antt =====
-- What a script learns from the exit code of `sshe exec`.
use sshe.Prelude.{ok, ◌∷◌, false, List, Option, String, ◌+◌, none, ◌≤◌, pos, some, ℕ, ◌≡◌}
use sshe.Prelude.Maps
use sshe.Prelude.{ok}
use sshe.Cli.Output.{exit_code}
use sshe.Protocol.Message.{ExecResult}
use sshe.Node.Config.{Peer, Files, Toml, Paths}
use sshe.Cli.App.{Ops}
use sshe.Cli.Args.{RemoteAction, Action, Cli}

-- How the command ended, as a shell says it.
pub data Ended (result : ExecResult) : ℕ → Type 0 where
  exited : (n : ℕ) → result.exit_code ≡ some (pos n) → n ≤ 255 → Ended result n
  killed :
      (s : ℕ)
      → result.exit_code ≡ none
      → result.signal ≡ some (pos s)
      → s ≤ 127
      → Ended result (128 + s)

module _ (paths : Paths) (toml : Toml) (files : Files) (parse_id : String → Option String)
    (peers_json : Maps.Map String Peer → Option String) {Value : Type 0}
    (ops : Ops paths toml files parse_id peers_json Value) where
  open ops use {terminal, invoke}

  -- `sshe exec`, without `--json`
  abbrev pub exec_cli : Option String → String → ℕ → String → List String → Cli
  exec_cli target config timeout program args = record {
    target = target;
    config = some config;
    json = false;
    command = Action.remote_action (RemoteAction.exec timeout (program ∷ args));
  }
