-- ===== src/Ssher/Proxy/Tests.antt =====
-- Sessions over one socket: 3 bytes are typed, and the peer sends 5 and closes.
use sshe.Prelude.{max, ◌+◌, Result, ℕ, refl, ok, ◌⊎◌, some, decimal, ◌≤◌, none, err, String, ◌≡◌}
use sshe.Ssher.Proxy.{
  both_ok, joined, address_of, later, context, socket_to_stdout, stdin_to_socket, connected,
  Streams, Error, proxy_tcp_stdio,
}
use sshe.Io.{ErrorKind, IoError}
use sshe.Ssher.Proxy.Ends.{proxy_tcp_stdio-cases, IsUnconnected}

abbrev broken : IoError
broken = record { kind = ErrorKind.broken_pipe; inner = none; text = "broken pipe" }

-- The socket that stdin is copied to breaks at 100.
abbrev breaks : Streams Unit
breaks = record {
  Socket = String;
  connect = λ w address. some (30, ok address);
  copy_stdin = λ w socket. some (100, err broken);
  shutdown = λ w socket. some (1, ok tt);
  copy_stdout = λ w socket. some (250, ok 5);
  flush = λ w socket. some (2, ok tt);
}

-- The peer never closes.
abbrev stays_open : Streams Unit
stays_open = record breaks { copy_stdout = λ w socket. none }

abbrev failed : Result Error Unit
failed = err (Error.stdin_copy_failed broken)

-- What the peer sends is still carried to its end.
broken_at_282 : proxy_tcp_stdio breaks "pc" 22 500 tt ≡ some (282, failed)
unfolding proxy_tcp_stdio connected stdin_to_socket socket_to_stdout context later joined both_ok
broken_at_282 = refl

too_late : proxy_tcp_stdio breaks "pc" 22 29 tt ≡ some (29, err (Error.connect_timeout "pc:22"))
unfolding proxy_tcp_stdio connected decimal
too_late = refl

-- A copy that failed does not end the proxy while the peer keeps the connection.
kept_open : proxy_tcp_stdio stays_open "pc" 22 500 tt ≡ none
unfolding proxy_tcp_stdio connected stdin_to_socket socket_to_stdout context later joined
kept_open = refl

proxy_tcp_stdio-cases_example :
    IsUnconnected
      (address_of breaks "pc" 22)
      500
      (breaks.connect tt (address_of breaks "pc" 22))
      282
      failed
    ⊎ ((socket : String) × (made : ℕ) × (a : ℕ) × (left : Result Error Unit) × (b : ℕ)
        × (right : Result Error Unit) × (breaks.connect tt (address_of breaks "pc" 22)
            ≡ some (made, ok socket))
        × (made ≤ 500)
        × (stdin_to_socket breaks tt socket ≡ some (a, left))
        × (socket_to_stdout breaks tt socket ≡ some (b, right))
        × (failed ≡ both_ok left right)
        × (282 ≡ made + max a b))
proxy_tcp_stdio-cases_example = proxy_tcp_stdio-cases breaks "pc" 22 500 tt broken_at_282
