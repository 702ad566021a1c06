-- ===== src/Ssher/Selector/Tests.antt =====
-- Probes of a host with three endpoints, the second of which ends first.
use mathlib.Core.List.{Permᴰ}
use mathlib.Core.List.Permᴰ
use sshe.Prelude.{
  trim_end, trim_start, some, err, true, refl, str_eq, if◌then◌else◌, ◌≡◌, ok, Result, none, String,
  List, [], ◌∷◌,
}
use sshe.Io.{IoError, ErrorKind}
use sshe.Ssher.Selector.{
  ping_failed, parse_ping_latency, resolve_socket_addr, timed, probe_icmp, probe_tcp, latency,
  probe_endpoint, first_ok, select_best_endpoint, Outside,
}
use sshe.Ssher.Cache.{ProbeSource, ProbeResult}
use sshe.Ssher.Config.{FinalHostConfig, SelectionMode}
use sshe.Ssher.Error.{Error}

abbrev refused : IoError
refused = record { kind = ErrorKind.connection_refused; inner = none; text = "refused" }

-- The second output comes first.
abbrev swap_first : List (Result Error ProbeResult) → List (Result Error ProbeResult)
swap_first [] = []
swap_first (x ∷ []) = x ∷ []
swap_first (x ∷ y ∷ xs) = y ∷ x ∷ xs

-- "a" answers after 30 ms, "b" after 900 ms, and "c" refuses.
abbrev network : Outside
network = record {
  SocketAddr = String;
  lookup_host = λ host port. ok (host ∷ []);
  connect = λ addr.
      if str_eq addr "a"
      then (30, ok tt)
      else if str_eq addr "b"
      then (900, ok tt)
      else (1, err refused);
  ping = λ timeout host. ok (record { success = true; stdout = "ttl=57 time=12 ms"; stderr = "" });
  parse_rounded = λ s. if str_eq s "12" then some 12 else none;
  completed = swap_first;
}

abbrev host_of : SelectionMode → FinalHostConfig
host_of mode = record {
  probe_timeout_ms = 500;
  selection_mode = mode;
  endpoints = "a" ∷ "b" ∷ "c" ∷ [];
}

program : Unit {0}
unfolding select_best_endpoint first_ok probe_endpoint latency probe_tcp probe_icmp timed
    resolve_socket_addr parse_ping_latency ping_failed trim_start trim_end
program = tt

by_tcp :
    select_best_endpoint network (host_of SelectionMode.lowest_tcp_latency) 22
    ≡ ok (record { endpoint = "a"; latency_ms = 30; source = ProbeSource.probe })
unfolding program
by_tcp = refl

by_icmp :
    select_best_endpoint network (host_of SelectionMode.lowest_icmp_latency) 22
    ≡ ok (record { endpoint = "b"; latency_ms = 12; source = ProbeSource.probe })
unfolding program
by_icmp = refl

swap_first-Perm : (xs : List (Result Error ProbeResult)) → Permᴰ xs (swap_first xs)
swap_first-Perm [] = Permᴰ.nil
swap_first-Perm (x ∷ []) = Permᴰ.refl (x ∷ [])
swap_first-Perm (x ∷ y ∷ xs) = Permᴰ.swap refl refl
