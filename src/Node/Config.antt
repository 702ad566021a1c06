-- ===== src/Node/Config.antt =====
-- crates/sshe-node/src/config.rs: the configuration file of a node. The functions of `Path`, the
-- TOML text and the file system are parameters.
pub mod Valid
pub mod Saved
mod Tests
use Prim.Native.Char.{Char, code}
use Prim.Native.String.{◌++◌ as append}
use Prim.Native.String as Text
use text.Mathlib.Text.{starts_with}
use sshe.Prelude.Maps
use sshe.Prelude.Maps.{string_key}
use sshe.Prelude.{
  map_ok, join, or, and_then, ◌==◌, ltb, str_eq, map_err, ◌&&◌, any, ◌+◌, length, ok, ok_or,
  decimal, fail_if, not, true, if◌then◌else◌, ◌||◌, leb, err, unwrap_or, ◌>>◌, ◌>>=◌, Option,
  String, Bool, ℕ, Result, List, [], ◌∷◌, none, some,
}
use sshe.Io.{IoError}
use sshe.Protocol.Message.{ProbeKind}
use sshe.Core.Config.{max_probe_timeout_secs, max_peer_timeout_secs, ProbeConfig, NetworkTargets}
use sshe.Node.Error.{Error, io, config_read, config_write, invalid}

-- an endpoint's key and its known addresses, in text form
pub record Peer : Type 0 where
  pub id : String
  pub addrs : List String

pub record DaemonConfig : Type 0 where
  pub interval_secs : ℕ
  pub history_size : ℕ
  pub probes : List ProbeKind
  pub max_concurrent : ℕ
  pub bind_port : Option ℕ

-- `DaemonConfig::default`
abbrev pub default_daemon : DaemonConfig
default_daemon = record {
  interval_secs = 60;
  history_size = 64;
  probes = ProbeKind.wan ∷ ProbeKind.peers ∷ [];
  max_concurrent = 16;
  bind_port = none;
}

pub record Config : Type 0 where
  pub identity : String
  pub peers : Maps.Map String Peer
  pub probe : ProbeConfig
  pub daemon : DaemonConfig

unfoldable pub peer : Config → String → Result Error Peer
peer c alias = ok_or (Maps.get alias c.peers) (invalid (append "unknown peer: " alias))

-- `is_ascii_alphanumeric() || b"_-".contains(&c)`; a character of several bytes fails
abbrev is_alias_char : Char → Bool
is_alias_char c =
    let n = code c in
    (leb 48 n && leb n 57)
    || (leb 65 n && leb n 90)
    || (leb 97 n && leb n 122)
    || n == 95
    || n == 45

unfoldable pub all_alias_chars : String → Bool
all_alias_chars Text.[] = true
all_alias_chars (Text.◌∷◌ c s) = let rest = all_alias_chars s in is_alias_char c && rest

abbrev pub is_alias : String → Bool
is_alias alias = not (str_eq alias "self") && not (str_eq alias "") && all_alias_chars alias

unfoldable pub validate_alias : String → Result Error Unit
validate_alias alias =
    fail_if (not (is_alias alias))
      (invalid "peer alias must contain letters, digits, _ or -; self is reserved")

unfoldable pub validate_aliases : Maps.Map String Peer → Result Error Unit
validate_aliases [] = ok tt
validate_aliases ((alias, _) ∷ rest) = do validate_alias alias; validate_aliases rest

abbrev pub targets_of : NetworkTargets → ℕ
targets_of t = length t.domains + length t.tcp

-- name, value, first and last
abbrev pub Check : Type 0
Check = String × ℕ × ℕ × ℕ

abbrev pub checks : Config → List Check
checks c =
    ("probe.peer_timeout_secs", c.probe.peer_timeout_secs, 1, max_peer_timeout_secs)
    ∷ ("probe.timeout_secs", c.probe.timeout_secs, 1, max_probe_timeout_secs)
    ∷ ("daemon.interval_secs", c.daemon.interval_secs, 5, 3600)
    ∷ ("daemon.history_size", c.daemon.history_size, 1, 1024)
    ∷ ("daemon.max_concurrent", c.daemon.max_concurrent, 1, 256)
    ∷ []

pub out_of_range : String → ℕ → ℕ → Error
out_of_range name first last =
    invalid
      (append name (append " must be in " (append (decimal first) (append "..=" (decimal last)))))

unfoldable pub validate_ranges : List Check → Result Error Unit
validate_ranges [] = ok tt
validate_ranges ((name, value, first, last) ∷ rest) = do
  fail_if (not (leb first value && leb value last)) (out_of_range name first last)
  validate_ranges rest

abbrev pub is_service : String → Bool
is_service service = starts_with service "tcp:" || starts_with service "systemd:"

unfoldable pub validate_services : Maps.Map String String → Result Error Unit
validate_services [] = ok tt
validate_services ((_, service) ∷ rest) = do
  fail_if (not (is_service service)) (invalid "service must use tcp: or systemd:")
  validate_services rest

unfoldable pub validate : Config → Result Error Unit
validate c = do
  validate_aliases c.peers
  fail_if
      (any (λ t. ltb 16 (targets_of t)) (c.probe.wan ∷ c.probe.lan ∷ [])
        || ltb 16 (length c.probe.services))
      (invalid "at most 16 checks per probe group")
  validate_ranges (checks c)
  validate_services c.probe.services

-- `env` has the variables of the environment.
pub default_path : (String → Option String) → Result Error String
default_path env =
    map_ok (λ base. join base "sshe/config.toml")
      (ok_or
        (or (env "XDG_CONFIG_HOME") (and_then (env "HOME") (λ home. some (join home ".config"))))
        (invalid "HOME or XDG_CONFIG_HOME required"))

-- the functions of `Path` that the file uses
pub record Paths : Type 0 where
  pub parent : String → Option String
  pub is_relative : String → Bool
  pub join : String → String → String
  pub strip_prefix : String → String → Option String

-- `toml::to_string_pretty` and `from_str`; `none` is an error.
pub record Toml : Type 0 where
  pub to_string_pretty : Config → Option String
  pub from_str : String → Option Config

pub record Files : Type 1 where
  pub World : Type 0
  -- a temporary file
  pub Temp : Type 0
  pub read_to_string : World → String → Result IoError String
  pub new_in : World → String → Result IoError Temp × World
  pub write_all : World → Temp → String → Result IoError Unit × World
  pub sync_all : World → Temp → Result IoError Unit × World
  pub persist : World → Temp → String → Result IoError Unit × World
  -- opens a directory and syncs it
  pub sync_dir : World → String → Result IoError Unit × World

module _ (paths : Paths) where
  -- `Layout::dir`
  abbrev pub dir : String → String
  dir config = unwrap_or (paths.parent config) "."

  -- what `read` makes of the identity, and what `save` stores for it
  unfoldable pub resolved : String → String → String
  resolved path identity =
      if paths.is_relative identity then paths.join (dir path) identity else identity

  unfoldable pub stored : String → String → String
  stored path identity = unwrap_or (paths.strip_prefix identity (dir path)) identity

  module _ (toml : Toml) (files : Files) where
    open files use {World, Temp, read_to_string, new_in, write_all, sync_all, persist, sync_dir}

    unfoldable pub read : World → String → Result Error Config
    read w path = do
      content ← map_err io (read_to_string w path)
      config ← ok_or (toml.from_str content) config_read
      validate config
      ok (record config { identity = resolved path config.identity })

    -- A step that may fail, and what follows it.
    abbrev step :
        {A : Type 0}
        → Result IoError A × World
        → (A → World → Result Error Unit × World)
        → Result Error Unit × World
    step (err e, w) f = (err (io e), w)
    step (ok a, w) f = f a w

    -- The text goes to the temporary file, which takes the place of the configuration.
    unfoldable pub write_text : World → String → Temp → String → Result Error Unit × World
    write_text w path file content = step (write_all w file content) λ _ w₁.
        step (sync_all w₁ file) λ _ w₂.
          step (persist w₂ file path) λ _ w₃. step (sync_dir w₃ (dir path)) λ _ w₄. (ok tt, w₄)

    -- The text is made once the temporary file is there.
    unfoldable pub write_config : World → String → Config → Result Error Unit × World
    write_config w path config = step (new_in w (dir path)) λ file w₁.
        elim (toml.to_string_pretty config) [
          | none ↦ (err config_write, w₁)
          | some content ↦ write_text w₁ path file content
        ]

    unfoldable pub save : World → String → Config → Result Error Unit × World
    save w path config = elim (validate config) [
      | err e ↦ (err e, w)
      | ok _ ↦ write_config w path (record config { identity = stored path config.identity })
    ]
