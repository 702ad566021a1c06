-- ===== src/Ssher/Main.antt =====
-- crates/ssher/src/main.rs: the exit code of a run.
pub mod Success
use sshe.Prelude.{Bool, String, none, err, ok, some, Option, Result}
use sshe.Ssher.Cache.{CacheFile, Toml, Files}
use sshe.Ssher.App.{run, Args, Run, Error}
use sshe.Ssher.Config.{Env, SsherConfig}
use sshe.Ssher.Selector.{Outside}
use sshe.Ssher.Proxy.{Streams}

pub data ExitCode : Type 0 where
  success failure : ExitCode

-- the `match` on what `run` ends with, if it ever ends
abbrev pub exit_code : Option (Result Error Unit) → Option ExitCode
exit_code none = none
exit_code (some (ok u)) = some success
exit_code (some (err e)) = some failure

module _ (files : Files) (cache_toml : Toml CacheFile) (config_toml : Toml SsherConfig)
    (outside : Outside) where
  unfoldable pub main :
      Env
      → (String → Bool)
      → Streams (Run files cache_toml config_toml)
      → Args
      → Run files cache_toml config_toml
      → Option ExitCode
  main env is_file streams args s =
      exit_code (run files cache_toml config_toml outside env is_file streams args s).0
