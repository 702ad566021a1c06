-- ===== src/Node/Transport/Timeouts.antt =====
-- crates/sshe-node/src/transport.rs: the limits of a call and of its phases, in milliseconds.
use sshe.Prelude.{◌*◌, ◌+◌, ℕ}
use sshe.Protocol.Limits.{max_exec_seconds}

abbrev dial_secs : ℕ
dial_secs = 30

abbrev io_secs : ℕ
io_secs = 15

abbrev margin_secs : ℕ
margin_secs = 5

abbrev rpc_secs : ℕ
rpc_secs = max_exec_seconds + margin_secs

abbrev pub dial_timeout : ℕ
dial_timeout = dial_secs * 1000

abbrev pub io_timeout : ℕ
io_timeout = io_secs * 1000

abbrev pub handshake_timeout : ℕ
handshake_timeout = 15 * 1000

abbrev pub rpc_timeout : ℕ
rpc_timeout = rpc_secs * 1000

abbrev pub call_timeout : ℕ
call_timeout = (dial_secs + io_secs + rpc_secs) * 1000

abbrev pub local_timeout : ℕ
local_timeout = call_timeout + margin_secs * 1000
