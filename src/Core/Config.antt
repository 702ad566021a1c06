-- ===== src/Core/Config.antt =====
-- crates/sshe-core/src/config.rs. Durations are milliseconds.
use sshe.Prelude.Maps
use sshe.Prelude.{◌*◌, String, ℕ, List, []}

abbrev pub max_probe_timeout_secs : ℕ
max_probe_timeout_secs = 10

abbrev pub max_peer_timeout_secs : ℕ
max_peer_timeout_secs = 45

pub record NetworkTargets : Type 0 where
  pub domains : List String
  pub tcp : List String

pub record ProbeConfig : Type 0 where
  pub timeout_secs : ℕ
  pub peer_timeout_secs : ℕ
  pub wan : NetworkTargets
  pub lan : NetworkTargets
  pub services : Maps.Map String String

abbrev no_targets : NetworkTargets
no_targets = record { domains = []; tcp = [] }

-- `ProbeConfig::default`
abbrev pub default_probe : ProbeConfig
default_probe = record {
  timeout_secs = 5;
  peer_timeout_secs = 15;
  wan = no_targets;
  lan = no_targets;
  services = [];
}

abbrev pub timeout_of : ProbeConfig → ℕ
timeout_of c = c.timeout_secs * 1000

abbrev pub peer_timeout_of : ProbeConfig → ℕ
peer_timeout_of c = c.peer_timeout_secs * 1000
