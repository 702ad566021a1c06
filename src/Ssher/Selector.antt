-- ===== src/Ssher/Selector.antt =====
-- crates/ssher/src/ssher/selector.rs: probes all endpoints of a host at once and takes the first
-- that answers. The network, `ping`, the reading of a decimal number and the order in which the
-- probes end are the parameter `Outside`. Times are milliseconds.
pub mod First
mod Tests
use Prim.Native.String.{◌++◌ as append, slice, len}
use text.Mathlib.Text.{find?}
use sshe.Prelude.{
  decimal, and_then, not, fail_if, ◌/◌, first?, or, max, ◌>>◌, ◌++◌, ok_or, ◌+◌, leb, ok, str_eq,
  map_err, ◌>>=◌, map, if◌then◌else◌, err, Option, trim, Result, Bool, ℕ, String, List, [], ◌∷◌,
}
use sshe.Io.{IoError}
use sshe.Ssher.Error.{Error, io, invalid, probe, unreachable, errors}
use sshe.Ssher.Config.{SelectionMode, FinalHostConfig, lowest_icmp_latency, lowest_tcp_latency}
use sshe.Ssher.Cache.{ProbeResult, ProbeSource}

-- what `ping` left: whether it succeeded, and its output as text
pub record Output : Type 0 where
  pub success : Bool
  pub stdout : String
  pub stderr : String

pub record Outside : Type 1 where
  pub SocketAddr : Type 0
  pub lookup_host : String → ℕ → Result IoError (List SocketAddr)
  -- how long a connect takes, and what it meets
  pub connect : SocketAddr → ℕ × Result IoError Unit
  -- `ping -c 1 -W timeout_sec host`
  pub ping : ℕ → String → Result IoError Output
  -- `parse::<f64>()`, rounded, as `u128`
  pub parse_rounded : String → Option ℕ
  -- `FuturesUnordered`: the outputs in the order in which they come
  pub completed : List (Result Error ProbeResult) → List (Result Error ProbeResult)

-- `collect errors until a probe succeeds`
pub first_ok : List Error → List (Result Error ProbeResult) → Result Error ProbeResult
first_ok failed [] = err (unreachable (errors failed))
first_ok failed (ok best ∷ rest) = ok best
first_ok failed (err e ∷ rest) = first_ok (failed ++ e ∷ []) rest

module _ (outside : Outside) where
  open outside use {SocketAddr, lookup_host, connect, ping, parse_rounded, completed}

  resolve_socket_addr : String → ℕ → Result Error SocketAddr
  resolve_socket_addr host port = do
    addrs ←
        map_err (io (append "resolve failed for " (append host (append ":" (decimal port)))))
          (lookup_host host port)
    ok_or (first? addrs) (invalid "no socket address resolved")

  -- The timer is looked at after the connect: one that ends at the limit counts.
  timed : ℕ → ℕ × Result IoError Unit → Result Error ℕ
  timed timeout (elapsed, r) =
      if leb elapsed timeout
      then (do map_err (io "connect failed") r; ok elapsed)
      else err (invalid "connect timeout")

  probe_tcp : String → ℕ → ℕ → Result Error ℕ
  probe_tcp host port timeout = do
    addr ← resolve_socket_addr host port
    timed timeout (connect addr)

  parse_ping_latency : String → Option ℕ
  parse_ping_latency stdout = and_then (find? stdout "time=") λ at.
      let tail = slice stdout (at + 5) (len stdout) in
      and_then (or (find? tail " ms") (find? tail "ms"))
        λ end. parse_rounded (trim (slice tail 0 end))

  ping_failed : String → Error
  ping_failed stderr =
      let message = trim stderr in
      if str_eq message "" then invalid "ping failed" else invalid (append "ping failed: " message)

  probe_icmp : String → ℕ → Result Error ℕ
  probe_icmp host timeout = do
    output ←
        map_err (io (append "failed to execute ping for " host))
          (ping (max (timeout / 1000) 1) host)
    fail_if (not output.success) (ping_failed output.stderr)
    ok_or (parse_ping_latency output.stdout) (invalid "unable to parse ping latency")

  latency : SelectionMode → String → ℕ → ℕ → Result Error ℕ
  latency lowest_tcp_latency endpoint port timeout = probe_tcp endpoint port timeout
  latency lowest_icmp_latency endpoint port timeout = probe_icmp endpoint timeout

  pub probe_endpoint : ℕ → ℕ → SelectionMode → String → Result Error ProbeResult
  probe_endpoint port timeout mode endpoint = do
    latency_ms ← map_err (probe endpoint port) (latency mode endpoint port timeout)
    ok (record { endpoint = endpoint; latency_ms = latency_ms; source = ProbeSource.probe })

  pub select_best_endpoint : FinalHostConfig → ℕ → Result Error ProbeResult
  select_best_endpoint host port = first_ok [] (
      completed
        (map (probe_endpoint port host.probe_timeout_ms host.selection_mode) host.endpoints))
