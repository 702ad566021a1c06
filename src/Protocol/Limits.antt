-- ===== src/Protocol/Limits.antt =====
-- crates/sshe-protocol/src/limits.rs
use sshe.Prelude.{String, ℕ, ◌*◌}

-- `ALPN`
abbrev pub alpn : String
alpn = "sshe/1"

abbrev pub max_frame : ℕ
max_frame = 4 * 1024 * 1024

abbrev pub output_limit : ℕ
output_limit = 256 * 1024

abbrev pub max_exec_seconds : ℕ
max_exec_seconds = 60

abbrev pub max_history_query : ℕ
max_history_query = 1000
