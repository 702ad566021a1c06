-- ===== src/Ssher/Config/Valid.antt =====
-- What `validate` accepts, and what it means for the settings of a host.
use mathlib.Core.Option
use sshe.Prelude.Maps
use sshe.Prelude.Maps.{string_key}
use sshe.Prelude.{ap, subst, ok_or, >>=-eq-ok, and_then, unwrap_or, [], ◌∷◌}
use sshe.Ssher.Config.{
  final_config, resolve_cache_path, Env, setting, SsherConfig, GlobalConfig, HostConfig,
  FinalConfig, validate, check_global, check_hosts, resolve_host, merge_host_config,
}
use sshe.Prelude.{arith, none, All, ◌↔◌, length, ℕ, ok, some, ◌≡◌, ◌≤◌, String, Option}

abbrev pub IsPositive : Option ℕ → Type 0
IsPositive none = Unit
IsPositive (some n) = 1 ≤ n

abbrev pub IsGlobal : Option GlobalConfig → Type 0
IsGlobal none = Unit
IsGlobal (some g) = IsPositive g.probe_timeout_ms × IsPositive g.cache_ttl_sec

abbrev pub IsHost : HostConfig → Type 0
IsHost h = IsPositive h.probe_timeout_ms × (1 ≤ length h.endpoints)

-- The limits that are set are positive, and every host has an endpoint.
abbrev pub IsValid : SsherConfig → Type 0
IsValid c = IsGlobal c.global × (1 ≤ length c.hosts) × All (λ e. IsHost e.1) c.hosts

check_global_iff : (g : Option GlobalConfig) → (check_global g ≡ ok tt) ↔ IsGlobal g
unfolding check_global
check_global_iff none = ground arith
check_global_iff (some g) = ground arith

check_hosts_iff :
    (m : Maps.Map String HostConfig) → (check_hosts m ≡ ok tt) ↔ All (λ e. IsHost e.1) m
unfolding check_hosts
check_hosts_iff [] = ground arith
check_hosts_iff ((name, host) ∷ rest) = ground (arith, check_hosts_iff rest)

-- `validate` accepts exactly the configurations whose limits, where they are set, are positive
-- and that name at least one host, each with an endpoint.
pub validate-IsValid : (c : SsherConfig) → (validate c ≡ ok tt) ↔ IsValid c
unfolding validate
validate-IsValid c = ground (arith, check_global_iff c.global, check_hosts_iff c.hosts)

setting-pos :
    (host global : Option ℕ) (default : ℕ)
    → IsPositive host
    → IsPositive global
    → 1 ≤ default
    → 1 ≤ setting host global default
setting-pos none none default h g d = d
setting-pos none (some m) default h g d = g
setting-pos (some n) global default h g d = h

global_timeout-pos :
    (g : Option GlobalConfig) → IsGlobal g → IsPositive (and_then g (λ x. x.probe_timeout_ms))
global_timeout-pos none h = tt
global_timeout-pos (some g) h = h.0

global_ttl-pos :
    (g : Option GlobalConfig) → IsGlobal g → 1 ≤ unwrap_or (and_then g (λ x. x.cache_ttl_sec)) 300
global_ttl-pos none h = omega arith
global_ttl-pos (some g) h = ground (arith, h.1)

-- A host that a validated configuration resolves can be probed and cached: the probe's limit and
-- the cache's lifetime are positive, it has an endpoint, and the endpoints are the host's own, in
-- the order of the file.
pub resolve_host-usable :
    (env : Env) (c : SsherConfig) (host : String) (f : FinalConfig)
    → validate c ≡ ok tt
    → resolve_host env c host ≡ ok f
    → (1 ≤ f.host.probe_timeout_ms)
      × (1 ≤ f.cache.ttl_sec)
      × (1 ≤ length f.host.endpoints)
      × (Option.map (λ h. h.endpoints) (Maps.get host c.hosts) ≡ some f.host.endpoints)
unfolding resolve_host merge_host_config
resolve_host-usable env c host f valid resolved =
    let v = (validate-IsValid c).0 valid in
    let (h, h₁, found) = >>=-eq-ok _ (ok_or (Maps.get host c.hosts) _) resolved in
    let (path, h₂, e) =
      >>=-eq-ok _ (resolve_cache_path env (and_then c.global (λ g. g.cache_path))) h₁ in
    let entry : Maps.get host c.hosts ≡ some h = ground (arith, found) in
    let good : IsHost h = Maps.All-get (λ e. IsHost e.1) host h c.hosts v.2 entry in
    let made : final_config c host h path ≡ f = ground (arith, h₂) in
    subst
      (λ x.
        (1 ≤ x.host.probe_timeout_ms)
        × (1 ≤ x.cache.ttl_sec)
        × (1 ≤ length x.host.endpoints)
        × (Option.map (λ h. h.endpoints) (Maps.get host c.hosts) ≡ some x.host.endpoints))
      made
      (
        setting-pos h.probe_timeout_ms _ 500 good.0 (global_timeout-pos c.global v.0) (omega arith),
        global_ttl-pos c.global v.0,
        good.1,
        ap (Option.map (λ x. x.endpoints)) entry,
      )
