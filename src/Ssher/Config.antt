-- ===== src/Ssher/Config.antt =====
-- crates/ssher/src/ssher/config.rs: the hosts' endpoints, the settings with their defaults, and
-- the path of the cache. The environment and the output of `id -u` are the parameter `Env`.
pub mod Valid
mod Tests
use Prim.Native.String.{◌++◌ as append}
use sshe.Prelude.Maps
use sshe.Prelude.Maps.{string_key}
use sshe.Prelude.{[], ◌∷◌}
use sshe.Io.{IoError}
use sshe.Ssher.Error.{Error, io, environment, utf8, invalid}
use sshe.Prelude.{
  strip_prefix, trim, length, ◌==◌, is_some_and, or, map_err, fail_if, none, ok_or, str_eq, ◌>>◌,
  some, and_then, if◌then◌else◌, Bool, List, unwrap_or, ok, ◌>>=◌, String, Option, Result, ℕ,
}

pub data SelectionMode : Type 0 where
  lowest_icmp_latency lowest_tcp_latency : SelectionMode

pub record GlobalConfig : Type 0 where
  pub probe_timeout_ms : Option ℕ
  pub cache_ttl_sec : Option ℕ
  pub cache_path : Option String
  pub selection_mode : Option SelectionMode

pub record HostConfig : Type 0 where
  pub probe_timeout_ms : Option ℕ
  pub selection_mode : Option SelectionMode
  pub endpoints : List String

pub record SsherConfig : Type 0 where
  pub global : Option GlobalConfig
  pub hosts : Maps.Map String HostConfig

pub record CacheConfig : Type 0 where
  pub ttl_sec : ℕ
  pub path : String

pub record FinalHostConfig : Type 0 where
  pub probe_timeout_ms : ℕ
  pub selection_mode : SelectionMode
  pub endpoints : List String

pub record FinalConfig : Type 0 where
  pub host_alias : String
  pub host : FinalHostConfig
  pub cache : CacheConfig

-- `HOME`, and the standard output of `id -u` (`none`: it is not UTF-8)
pub record Env : Type 0 where
  pub home : Option String
  pub id_u : Result IoError (Option String)

-- `Option::map` of a field that is optional itself, then `or` and `unwrap_or`
abbrev pub setting : {A : Type 0} → Option A → Option A → A → A
setting host global default = unwrap_or (or host global) default

pub merge_host_config : Option GlobalConfig → HostConfig → FinalHostConfig
merge_host_config global host = record {
  probe_timeout_ms = setting host.probe_timeout_ms (and_then global (λ g. g.probe_timeout_ms)) 500;
  selection_mode =
      setting host.selection_mode (and_then global (λ g. g.selection_mode))
        SelectionMode.lowest_tcp_latency;
  endpoints = host.endpoints;
}

default_cache_path : Env → Result Error String
default_cache_path env = do
  stdout ← map_err (io "failed to execute id -u") env.id_u
  uid ← ok_or stdout utf8
  ok (append "/run/user/" (append (trim uid) "/sshe/ssher_cache.toml"))

expand_tilde : Env → String → Result Error String
expand_tilde env path =
    if str_eq path "~" then ok_or env.home environment else elim (strip_prefix "~/" path) [
      | some stripped ↦ (do
        home ← ok_or env.home environment
        ok (append home (append "/" stripped)))
      | none ↦ ok path
    ]

resolve_cache_path : Env → Option String → Result Error String
resolve_cache_path env (some path) = expand_tilde env path
resolve_cache_path env none = default_cache_path env

abbrev pub final_config : SsherConfig → String → HostConfig → String → FinalConfig
final_config c host host_config path = record {
  host_alias = host;
  host = merge_host_config c.global host_config;
  cache = record {
    ttl_sec = unwrap_or (and_then c.global (λ g. g.cache_ttl_sec)) 300;
    path = path;
  };
}

pub resolve_host : Env → SsherConfig → String → Result Error FinalConfig
resolve_host env c host = do
  host_config ←
      ok_or (Maps.get host c.hosts)
        (invalid (append "no configuration found for host '" (append host "'")))
  path ← resolve_cache_path env (and_then c.global (λ g. g.cache_path))
  ok (final_config c host host_config path)

abbrev is_zero : Option ℕ → Bool
is_zero = is_some_and (λ n. n == 0)

pub check_global : Option GlobalConfig → Result Error Unit
check_global none = ok tt
check_global (some g) = do
  fail_if (is_zero g.probe_timeout_ms) (invalid "global probe_timeout_ms must be greater than 0")
  fail_if (is_zero g.cache_ttl_sec) (invalid "global cache_ttl_sec must be greater than 0")

abbrev about_host : String → String → Error
about_host name what = invalid (append "host '" (append name what))

pub check_hosts : Maps.Map String HostConfig → Result Error Unit
check_hosts [] = ok tt
check_hosts ((name, host) ∷ rest) = do
  fail_if (is_zero host.probe_timeout_ms)
      (about_host name "' probe_timeout_ms must be greater than 0")
  fail_if (length host.endpoints == 0) (about_host name "' must have at least one endpoint")
  check_hosts rest

pub validate : SsherConfig → Result Error Unit
validate c = do
  check_global c.global
  fail_if (length c.hosts == 0) (invalid "at least one host configuration is required")
  check_hosts c.hosts
