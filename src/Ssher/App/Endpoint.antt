-- ===== src/Ssher/App/Endpoint.antt =====
-- Which endpoint a run proxies, and which errors it ends with.
use sshe.Prelude.{
  ◌&&◌, not, if◌then◌else◌, ◌+◌, ◌++◌, suc, none, Option, arith, false, some, length, err, inr, ◌⊎◌,
  inl, Result-cases, true, ok, str_eq, Bool, any, ℕ, ◌≡◌, String, List, Result, [], ◌∷◌,
}
use sshe.Ssher.Error.{errors}
use sshe.Ssher.Error as SsherError
use sshe.Ssher.Config.{SsherConfig, FinalConfig, FinalHostConfig}
use sshe.Ssher.Cache.{store_cached_result, load_cached_result, Files, Toml, CacheFile, ProbeResult}
use sshe.Ssher.Selector.{select_best_endpoint, Outside}
use sshe.Ssher.App.{
  warn_if_unstored, note, from_cache, probe_and_store, choose, Run, Error, no_endpoint, Event,
}

-- The host lists this endpoint.
abbrev pub Lists : FinalHostConfig → String → Type 0
Lists host endpoint = any (λ e. str_eq e endpoint) host.endpoints ≡ true

abbrev pub Outputs : Type 0
Outputs = List (Result SsherError.Error ProbeResult)

-- An endpoint of the host, or one error for each of them.
abbrev pub Chosen : FinalHostConfig → Result Error ProbeResult → Type 0
Chosen host r =
    ((best : ProbeResult) × (r ≡ ok best) × Lists host best.endpoint)
    ⊎ ((es : List SsherError.Error) × (r ≡ err (no_endpoint (SsherError.unreachable (errors es))))
        × (length es ≡ length host.endpoints))

-- How often all endpoints were probed.
abbrev probes : List Event → ℕ
probes [] = 0
probes (Event.probed ∷ es) = suc (probes es)
probes (_ ∷ es) = probes es

probes-append : (xs ys : List Event) → probes (xs ++ ys) ≡ probes xs + probes ys
probes-append [] ys = omega arith
probes-append (Event.probed ∷ xs) ys = omega (arith, probes-append xs ys)
probes-append (Event.stored ∷ xs) ys = probes-append xs ys
probes-append (Event.warned ∷ xs) ys = probes-append xs ys

-- The cache had a result that may be used.
abbrev is_hit : Result SsherError.Error (Option ProbeResult) → Bool
is_hit (ok (some r)) = true
is_hit _ = false

module _ (files : Files) (cache_toml : Toml CacheFile) (config_toml : Toml SsherConfig)
    (outside : Outside) where
  probes-note :
      (e : Event) (s : Run files cache_toml config_toml)
      → probes (note files cache_toml config_toml e s).trace ≡ probes s.trace + probes (e ∷ [])
  unfolding note
  probes-note e s = probes-append s.trace (e ∷ [])

  probes-warn_if_unstored :
      (r : Result SsherError.Error Unit × files.World) (s : Run files cache_toml config_toml)
      → probes (warn_if_unstored files cache_toml config_toml r s).trace ≡ probes s.trace
  unfolding warn_if_unstored
  probes-warn_if_unstored (ok u, w) s =
      omega (arith, probes-note Event.stored (record s { world = w }))
  probes-warn_if_unstored (err e, w) s =
      omega (arith, probes-note Event.warned (record s { world = w }))

  probes-probe_and_store :
      (config : FinalConfig) (port : ℕ) (s : Run files cache_toml config_toml)
      → probes (probe_and_store files cache_toml config_toml outside config port s).1.trace
        ≡ probes s.trace + 1
  unfolding probe_and_store
  probes-probe_and_store config port s =
      elim (Result-cases (select_best_endpoint outside config.host port)) [
        | inl (r, e) ↦
            rw (e, probe_and_store)
              (omega (
                arith,
                probes-note Event.probed s,
                probes-warn_if_unstored
                    (store_cached_result files cache_toml config.cache config.host_alias config.host
                      port r s.world)
                    (note files cache_toml config_toml Event.probed s),
              ))
        | inr (f, e) ↦ rw (e, probe_and_store) (probes-note Event.probed s)
      ]

  probes-from_cache :
      (config : FinalConfig) (port : ℕ) (s : Run files cache_toml config_toml)
      (cached : Result SsherError.Error (Option ProbeResult))
      → probes (from_cache files cache_toml config_toml outside config port cached s).1.trace
        ≡ probes s.trace + (if is_hit cached then 0 else 1)
  unfolding from_cache
  probes-from_cache config port s (ok (some r)) = omega arith
  probes-from_cache config port s (ok none) = probes-probe_and_store config port s
  probes-from_cache config port s (err e) = omega (
    arith,
    probes-probe_and_store config port (note files cache_toml config_toml Event.warned s),
    probes-note Event.warned s,
  )

  -- The endpoints are probed once if a refresh is asked for or the cache has no result that may be
  -- used, an unreadable cache included, and not at all otherwise.
  probes-choose :
      (refresh : Bool) (config : FinalConfig) (port : ℕ) (s : Run files cache_toml config_toml)
      → probes (choose files cache_toml config_toml outside refresh config port s).1.trace
        ≡ probes s.trace
          + (if not refresh
                && is_hit (
                    load_cached_result files cache_toml config.cache config.host_alias config.host
                      port s.world)
              then 0
              else 1)
  unfolding choose
  probes-choose true config port s = probes-probe_and_store config port s
  probes-choose false config port s = probes-from_cache config port s _
