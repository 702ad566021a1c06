-- ===== src/Ssher/Config/Tests.antt =====
-- Configurations that are accepted and refused.
use mathlib.Core.Option
use sshe.Prelude.Maps
use sshe.Prelude.Maps.{string_key}
use sshe.Prelude.{refl, trim_end, trim_start, ◌↔◌, ok, err, some, length, none, ◌≡◌, ◌≤◌, [], ◌∷◌}
use sshe.Ssher.Config.{
  default_cache_path, resolve_cache_path, merge_host_config, check_hosts, check_global,
  SelectionMode, SsherConfig, FinalConfig, expand_tilde, validate, resolve_host, Env, HostConfig,
}
use sshe.Ssher.Config.Valid.{validate-IsValid, IsValid, resolve_host-usable}
use sshe.Ssher.Error.{Error}

abbrev home_dir : Env
home_dir = record { home = some "/home/me"; id_u = ok (some "1000\n") }

abbrev pc : HostConfig
pc = record {
  probe_timeout_ms = some 200;
  selection_mode = none;
  endpoints = "10.0.0.2" ∷ "pc.lan" ∷ [];
}

abbrev one_host : SsherConfig
one_host = record { global = none; hosts = ("my-pc", pc) ∷ [] }

abbrev no_endpoints : SsherConfig
no_endpoints = record { global = none; hosts = ("my-pc", record pc { endpoints = [] }) ∷ [] }

program : Unit {0}
unfolding validate check_global check_hosts resolve_host merge_host_config resolve_cache_path
    default_cache_path expand_tilde trim_start trim_end
program = tt

accepted : validate one_host ≡ ok tt
unfolding program
accepted = refl

refused : validate no_endpoints ≡ err (Error.invalid "host 'my-pc' must have at least one endpoint")
unfolding program
refused = refl

abbrev my_pc : FinalConfig
my_pc = record {
  host_alias = "my-pc";
  host = record {
    probe_timeout_ms = 200;
    selection_mode = SelectionMode.lowest_tcp_latency;
    endpoints = "10.0.0.2" ∷ "pc.lan" ∷ [];
  };
  cache = record { ttl_sec = 300; path = "/run/user/1000/sshe/ssher_cache.toml" };
}

resolved : resolve_host home_dir one_host "my-pc" ≡ ok my_pc
unfolding program Maps.get
resolved = refl

tilde : expand_tilde home_dir "~/cache.toml" ≡ ok "/home/me/cache.toml"
unfolding program
tilde = refl

validate-IsValid_example : (validate one_host ≡ ok tt) ↔ IsValid one_host
validate-IsValid_example = validate-IsValid one_host

resolve_host-usable_example :
    (1 ≤ my_pc.host.probe_timeout_ms)
    × (1 ≤ my_pc.cache.ttl_sec)
    × (1 ≤ length my_pc.host.endpoints)
    × (Option.map (λ h. h.endpoints) (Maps.get "my-pc" one_host.hosts) ≡ some my_pc.host.endpoints)
resolve_host-usable_example = resolve_host-usable home_dir one_host "my-pc" my_pc accepted resolved
