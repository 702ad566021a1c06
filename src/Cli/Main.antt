-- ===== src/Cli/Main.antt =====
-- crates/sshe-cli/src/main.rs: the exit code, and how the logs are written.
pub mod Codes
use sshe.Prelude.Maps
use sshe.Cli.Args.{Cli, Action, LocalAction, local_action}
use sshe.Cli.App.{Error, Ops, Both, run}
use sshe.Prelude.{
  none, some, err, ok, false, unwrap_or, if◌then◌else◌, ℕ, true, Result, Bool, String, Option,
}
use sshe.Node.Config.{Peer, Files, Toml, Paths}

-- what is set up of `tracing_subscriber::fmt()`; colours are its own choice unless they are off
pub record Logs : Type 0 where
  pub filter : String
  pub writes_time : Bool
  pub ansi : Option Bool

abbrev default_filter : Bool → String
default_filter true = "warn,sshe_node=info"
default_filter false = "off,sshe_node=warn"

-- `RUST_LOG`, if it is set to a filter, and whether `JOURNAL_STREAM` is set
unfoldable pub init_logging : Option String → Bool → Bool → Logs
init_logging env_filter journal is_daemon =
    if journal
    then record {
      filter = unwrap_or env_filter (default_filter is_daemon);
      writes_time = false;
      ansi = some false;
    }
    else record {
      filter = unwrap_or env_filter (default_filter is_daemon);
      writes_time = true;
      ansi = none;
    }

-- `matches!(cli.command, Action::Local(LocalAction::Daemon))`
unfoldable pub is_daemon : Action → Bool
is_daemon (Action.local_action LocalAction.daemon) = true
is_daemon _ = false

-- `ExitCode::from(code)` or `ExitCode::FAILURE`
abbrev pub exit_code_of : Result Error ℕ → ℕ
exit_code_of (ok code) = code
exit_code_of (err e) = 1

module _ (paths : Paths) (toml : Toml) (files : Files) (parse_id : String → Option String)
    (peers_json : Maps.Map String Peer → Option String) {Value : Type 0}
    (ops : Ops paths toml files parse_id peers_json Value) where
  abbrev World : Type 0
  World = Both paths toml files parse_id peers_json ops

  abbrev ended : Option (Result Error ℕ × World) → Option (ℕ × World)
  ended none = none
  ended (some (r, s)) = some (exit_code_of r, s)

  -- The logs and the exit code; `none` is a panic.
  unfoldable pub main : Option String → Bool → Cli → World → Logs × Option (ℕ × World)
  main env_filter journal cli s = (
    init_logging env_filter journal (is_daemon cli.command),
    ended (run paths toml files parse_id peers_json ops cli s),
  )
