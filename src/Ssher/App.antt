-- ===== src/Ssher/App.antt =====
-- crates/ssher/src/app.rs and ssher/args.rs: from the arguments to the endpoint that is proxied.
-- The proxy is that of Ssher/Proxy, and whether a path is a regular file is a parameter. `trace` records what is asked of the outside, and no code reads it.
pub mod Endpoint
mod Tests
use Prim.Native.String.{◌++◌ as append}
use sshe.Prelude.{
  ◌==◌, ok_or, fail_if, ok, ◌>>◌, none, map_err, join, ◌>>=◌, some, err, if◌then◌else◌, Result,
  String, ◌++◌, List, Bool, Option, ℕ, [], ◌∷◌,
}
use sshe.Ssher.Proxy.{Async, Streams, proxy_tcp_stdio}
use sshe.Ssher.Proxy as Proxy
use sshe.Ssher.Error as SsherError
use sshe.Ssher.Config.{SsherConfig, FinalConfig, Env, validate, resolve_host}
use sshe.Ssher.Cache.{Files, Toml, CacheFile, ProbeResult, load_cached_result, store_cached_result}
use sshe.Ssher.Selector.{Outside, select_best_endpoint}

-- the command line
pub record Args : Type 0 where
  pub config_file : Option String
  pub refresh_cache : Bool
  pub host : String
  pub port : ℕ

-- anyhow: an error of the library with the context it is given
pub data Error : Type 0 where
  zero_port : Error
  plain : SsherError.Error → Error
  invalid_config : SsherError.Error → Error
  no_endpoint : SsherError.Error → Error
  proxy_failed : Proxy.Error → Error

abbrev pub default_paths : String → List String
default_paths home =
    join home ".ssh/ssher.toml"
    ∷ join home ".config/ssher.toml"
    ∷ join home ".config/sshe/ssher_config.toml"
    ∷ []

abbrev pub find : {A : Type 0} → (A → Bool) → List A → Option A
find p [] = none
find p (x ∷ xs) = let rest = find p xs in if p x then some x else rest

-- `collect::<Vec<&str>>().join(", ")`
abbrev commas : List String → String
commas [] = ""
commas (x ∷ []) = x
commas (x ∷ y ∷ xs) = append x (append ", " (commas (y ∷ xs)))

pub resolve_config_path : Env → (String → Bool) → Option String → Result SsherError.Error String
resolve_config_path env is_file (some path) =
    if is_file path
    then ok path
    else err
        (SsherError.invalid (append "config file does not exist or is not a regular file: " path))
resolve_config_path env is_file none = do
  home ← ok_or env.home (SsherError.invalid "HOME is not set, cannot determine default config path")
  ok_or (find is_file (default_paths home)) (
      SsherError.invalid
        (append "default config file does not exist: " (commas (default_paths home))))

-- the proxy's end
abbrev pub over : Async Proxy.Error Unit → Option (Result Error Unit)
over none = none
over (some (at, r)) = some (map_err proxy_failed r)

-- What was asked of the outside.
pub data Event : Type 0 where
  probed stored warned : Event

module _ (files : Files) (cache_toml : Toml CacheFile) (config_toml : Toml SsherConfig) where
  -- The file system with what the run did.
  pub record Run : Type 0 where
    pub world : files.World
    pub trace : List Event

  note : Event → Run → Run
  note e s = record s { trace = s.trace ++ e ∷ [] }

  pub read_config_file : files.World → String → Result SsherError.Error SsherConfig
  read_config_file w path = do
    content ←
        map_err (SsherError.io (append "failed to read config file " path))
          (files.read_to_string w path)
    ok_or (config_toml.from_str content)
        (SsherError.parse (append "failed to parse TOML config " path))

  -- the store after a probe: a failure is only a warning
  warn_if_unstored : Result SsherError.Error Unit × files.World → Run → Run
  warn_if_unstored (ok _, w) s = note stored (record s { world = w })
  warn_if_unstored (err _, w) s = note warned (record s { world = w })

  module _ (outside : Outside) where
    pub probe_and_store : FinalConfig → ℕ → Run → Result Error ProbeResult × Run
    probe_and_store config port s =
        elim (map_err no_endpoint (select_best_endpoint outside config.host port)) [
          | err e ↦ (err e, note probed s)
          | ok best ↦ (
            ok best,
            warn_if_unstored
                (store_cached_result files cache_toml config.cache config.host_alias config.host
                  port best s.world)
                (note probed s),
          )
        ]

    -- the cached result, or a probe where there is none
    pub from_cache :
        FinalConfig
        → ℕ
        → Result SsherError.Error (Option ProbeResult)
        → Run
        → Result Error ProbeResult × Run
    from_cache config port (ok (some result)) s = (ok result, s)
    from_cache config port (ok none) s = probe_and_store config port s
    from_cache config port (err _) s = probe_and_store config port (note warned s)

    pub choose : Bool → FinalConfig → ℕ → Run → Result Error ProbeResult × Run
    choose refresh config port s =
        if refresh
        then probe_and_store config port s
        else from_cache config port
            (load_cached_result files cache_toml config.cache config.host_alias config.host port
              s.world)
            s

    -- The settings of the host that is asked for.
    pub configured : Env → (String → Bool) → Args → files.World → Result Error FinalConfig
    configured env is_file args w = do
      fail_if (args.port == 0) zero_port
      config_path ← map_err plain (resolve_config_path env is_file args.config_file)
      config ← map_err plain (read_config_file w config_path)
      map_err invalid_config (validate config)
      map_err plain (resolve_host env config args.host)

    -- `run`: what it ends with, if it ever ends. The proxy gets the endpoint, the port and the
    -- probe's limit.
    unfoldable pub run :
        Env → (String → Bool) → Streams Run → Args → Run → Option (Result Error Unit) × Run
    run env is_file streams args s = elim (configured env is_file args s.world) [
      | err e ↦ (some (err e), s)
      | ok config ↦
          let (r, s') = choose args.refresh_cache config args.port s in
          elim r [
            | err e ↦ (some (err e), s')
            | ok best ↦ (
              over
                  (proxy_tcp_stdio streams best.endpoint args.port config.host.probe_timeout_ms s'),
              s',
            )
          ]
    ]
