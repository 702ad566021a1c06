-- ===== src/Ssher/Main/Success.antt =====
-- What exit code 0 says to OpenSSH.
use sshe.Prelude.{
  ap, ◌∙◌, sym, Option, inl, inr, Result-cases, refl, none, err, Result, arith, ◌↔◌, ok, ℕ, some,
  Bool, String, ◌≡◌,
}
use sshe.Ssher.Cache.{ProbeResult, CacheFile, Toml, Files}
use sshe.Ssher.Proxy.{proxy_tcp_stdio, Streams, Async}
use sshe.Ssher.Config.{FinalConfig, Env, SsherConfig}
use sshe.Ssher.Selector.{Outside}
use sshe.Ssher.Main.{ExitCode, failure, success, exit_code, main}
use sshe.Ssher.App.{choose, Error, configured, Args, Run, over, run}
use sshe.Ssher.Proxy.Ends.{proxied_iff, Carried}

over-success :
    (m : Async sshe.Ssher.Proxy.Error Unit)
    → exit_code (over m) ≡ some success
    → (at : ℕ) × (m ≡ some (at, ok tt))
over-success none h = absurd (ground (arith, h))
over-success (some (at, ok u)) h = (at, refl)
over-success (some (at, err e)) h = absurd (ground (arith, h))

module _ (files : Files) (cache_toml : Toml CacheFile) (config_toml : Toml SsherConfig)
    (outside : Outside) where
  module _ (env : Env) (is_file : String → Bool)
      (streams : Streams (Run files cache_toml config_toml)) (args : Args)
      (s : Run files cache_toml config_toml) where
    abbrev chosen : FinalConfig → Result Error ProbeResult × Run files cache_toml config_toml
    chosen config =
        choose files cache_toml config_toml outside args.refresh_cache config args.port s

    -- The arguments and the configuration are in order, an endpoint is chosen, and the proxy
    -- carries everything.
    abbrev pub Proxied : Type 0
    Proxied =
        (config : FinalConfig) × (best : ProbeResult) × (at : ℕ) × (configured files cache_toml
            config_toml outside env is_file args s.world
          ≡ ok config)
        × ((chosen config).0 ≡ ok best)
        × Carried streams best.endpoint args.port config.host.probe_timeout_ms (chosen config).1 at

    abbrev code : Option ExitCode
    code = main files cache_toml config_toml outside env is_file streams args s

    abbrev proxied : FinalConfig → ProbeResult → sshe.Ssher.Proxy.Async sshe.Ssher.Proxy.Error Unit
    proxied config best =
        proxy_tcp_stdio streams best.endpoint args.port config.host.probe_timeout_ms
          (chosen config).1

    refused-code :
        (e : Error)
        → configured files cache_toml config_toml outside env is_file args s.world ≡ err e
        → code ≡ some failure
    unfolding main run
    refused-code e refused = rw (refused, run) refl

    unreached-code :
        (config : FinalConfig) (e : Error)
        → configured files cache_toml config_toml outside env is_file args s.world ≡ ok config
        → (chosen config).0 ≡ err e
        → code ≡ some failure
    unfolding main run
    unreached-code config e is none_found = rw (is, run) (rw (none_found, run) refl)

    proxied-code :
        (config : FinalConfig) (best : ProbeResult)
        → configured files cache_toml config_toml outside env is_file args s.world ≡ ok config
        → (chosen config).0 ≡ ok best
        → code ≡ exit_code (over (proxied config best))
    unfolding main run
    proxied-code config best is found = rw (is, run) (rw (found, run) refl)

    success-Proxied : code ≡ some success → Proxied
    success-Proxied h =
        elim (Result-cases
          (configured files cache_toml config_toml outside env is_file args s.world)) [
            | inr (e, refused) ↦ absurd (ground (arith, refused-code e refused, h))
            | inl (config, is) ↦ elim (Result-cases (chosen config).0) [
              | inr (f, failed) ↦ absurd (ground (arith, unreached-code config f is failed, h))
              | inl (best, found) ↦
                  let (at, done) = over-success _ (sym (proxied-code config best is found) ∙ h) in
                  (config, best, at, is, found, (proxied_iff streams _ _ _ _).0 done)
            ]
          ]

    Proxied-success : Proxied → code ≡ some success
    Proxied-success (config, best, at, is, found, carried) =
        proxied-code config best is found
        ∙ ap (λ m. exit_code (over m)) ((proxied_iff streams _ _ _ _).1 carried)

    -- ssher exits with code 0 exactly if its arguments and its configuration are in order, an
    -- endpoint is chosen, the connection to it is there within the limit, what was typed has been
    -- sent to its end with the socket shut down, and what was received is out.
    pub main-success_iff :
        (main files cache_toml config_toml outside env is_file streams args s ≡ some success)
        ↔ Proxied
    main-success_iff = (success-Proxied, Proxied-success)
