-- ===== src/Node/Server/Called/Tests.antt =====
-- A call to a server on which commands time out, over a link of bytes.
use sshe.Prelude.{
  false, ◌∙◌, ◌==◌, ◌&&◌, inr, str_eq_iff, sym, ap, inl, Bool-cases, str_eq, if◌then◌else◌, ◌++◌,
  err, some, true, ok, Option, List, ◌≡◌, arith, refl, ℕ, [], ◌∷◌, none,
}
use sshe.Core.Config.{default_probe}
use sshe.Node.Config.{Config, default_daemon}
use sshe.Node.Dispatch.{response, dispatch, Node, Parts}
use sshe.Io.{unexpected_eof, IoError}
use sshe.Node.Transport.{Iroh, Net, call}
use sshe.Protocol.Codec.{to_be, send, Json, Writer}
use sshe.Protocol.Message.{Response, Request}
use sshe.Protocol.Codec.RoundTrip.{IsAppending}
use sshe.Protocol.Codec.{write_frame}
use sshe.Core.Error as CoreError
use sshe.Node.Server.Wire.{IsLink, served}
use sshe.Node.Server.Called.{linked, IsAnswered, IsTimely, call-Answered}
use sshe.Node.Transport.Setup.{new_slots}

abbrev config : Config
config = record {
  identity = "/etc/sshe/id.key";
  peers = ("vps", record { id = "k1"; addrs = [] }) ∷ [];
  probe = default_probe;
  daemon = default_daemon;
}

-- The world of a server with one stream: what has arrived, and what was answered. Commands time
-- out.
abbrev wire_parts : Parts ℕ
wire_parts = record {
  World = List ℕ × List ℕ;
  version = "1";
  now = λ w. 0;
  sample = λ c kind w. (ok [], w);
  history = λ w. record { capacity = 1; series = [] };
  check = λ c kind w. ([], w);
  check_peers = λ c w. ([], w);
  execute = λ program args timeout w. (err CoreError.timeout, w);
  call = λ id request w. (ok (Response.error "called"), w);
  to_string = λ e. "failed";
}

abbrev run_true : Request
run_true = Request.exec "true" [] 30

-- A command and a failure, each as one byte.
abbrev request_text : Request → Option (List ℕ)
request_text (Request.exec program [] timeout) =
    if str_eq program "true" && (timeout == 30) then some (5 ∷ []) else none
request_text _ = none

abbrev requests : Json Request
requests = record { to_vec = request_text; from_slice = λ bytes. some run_true }

requests_parse :
    (bytes : List ℕ) (request : Request)
    → requests.to_vec request ≡ some bytes
    → requests.from_slice bytes ≡ some request
requests_parse bytes Request.health h = absurd (ground (arith, h))
requests_parse bytes (Request.probe kind) h = absurd (ground (arith, h))
requests_parse bytes (Request.history kind about limit) h = absurd (ground (arith, h))
requests_parse bytes (Request.exec program (x ∷ args) timeout) h = absurd (ground (arith, h))
requests_parse bytes (Request.exec program [] timeout) h =
    elim (Bool-cases (str_eq program "true" && (timeout == 30))) [
      | inr other ↦ absurd (ground (arith, other, h))
      | inl both ↦
          let named : program ≡ "true" = (str_eq_iff program "true").0 (ground (arith, both)) in
          let timed : timeout ≡ 30 = ground (arith, both) in
          ap (λ p. some (Request.exec p [] 30)) (sym named)
          ∙ ap (λ t. some (Request.exec program [] t)) (sym timed)
    ]

abbrev answer_text : Response ℕ → Option (List ℕ)
answer_text (Response.error message) = if str_eq message "failed" then some (9 ∷ []) else none
answer_text _ = none

abbrev responses : Json (Response ℕ)
responses = record { to_vec = answer_text; from_slice = λ bytes. some (Response.error "failed") }

responses_parse :
    (bytes : List ℕ) (reply : Response ℕ)
    → responses.to_vec reply ≡ some bytes
    → responses.from_slice bytes ≡ some reply
responses_parse bytes (Response.error message) h = elim (Bool-cases (str_eq message "failed")) [
  | inl same ↦ ap (λ m. some (Response.error m)) (sym ((str_eq_iff message "failed").0 same))
  | inr differ ↦ absurd (ground (arith, differ, h))
]
responses_parse bytes (Response.health r) h = absurd (ground (arith, h))
responses_parse bytes (Response.probe r) h = absurd (ground (arith, h))
responses_parse bytes (Response.history r) h = absurd (ground (arith, h))
responses_parse bytes (Response.exec r) h = absurd (ground (arith, h))

abbrev buffer : Writer (List ℕ)
buffer = record { write_all = λ w bytes. ok (w ++ bytes); flush = λ w. ok w }

buffer-IsAppending : IsAppending buffer (λ w. w)
buffer-IsAppending = record {
  appends = λ w w' bytes h. ground arith;
  flushes = λ w w' h. ground arith;
}

abbrev server_node : Node
server_node = record { config = config; id = "k0"; has_dialer = true; has_sampler = true }

abbrev arrived : List ℕ × List ℕ
arrived = (0 ∷ 0 ∷ 0 ∷ 1 ∷ 5 ∷ [], [])

abbrev gone : IoError
gone = record { kind = unexpected_eof; inner = none; text = "early eof" }

asked : write_frame buffer requests [] run_true ≡ ok (0 ∷ 0 ∷ 0 ∷ 1 ∷ 5 ∷ [])
unfolding write_frame send to_be
asked = refl

abbrev answer_of : ℕ → Response ℕ × (List ℕ × List ℕ)
answer_of permits = served wire_parts server_node permits run_true arrived

told : write_frame buffer responses (answer_of 1).1.1 (answer_of 1).0 ≡ ok (0 ∷ 0 ∷ 0 ∷ 1 ∷ 9 ∷ [])
unfolding write_frame send to_be dispatch response
told = refl

link :
    IsLink wire_parts requests responses buffer
      (λ w. w.0)
      gone
      (λ w. w.1)
      (λ o w. (w.0, o))
      (λ w. w)
link = record {
  appends = buffer-IsAppending;
  parses = λ m bytes h. requests_parse bytes m h;
  parses_reply = λ reply bytes h. responses_parse bytes reply h;
}

-- A call to this server, over a link that takes 10 ms to it and 20 ms back, with waits of 1 ms for
-- the lock, 2 ms for a connection and 3 ms for a stream; the server reads for 12 ms and writes for
-- 5 ms.
abbrev network : Iroh ℕ
network =
    linked wire_parts requests responses buffer gone (λ w. w.0) (λ w. w.1) (λ o w. (w.0, o))
      (λ w. w) [] (λ bytes w. (bytes, w.1)) 1 2 3 10 20 12 5 (λ w. true) (λ w. true) (λ w. w)
      server_node 1

abbrev caller : Net network
caller = record { now = 5; slots = new_slots; world = ([], []); submitted = false; trace = [] }

abbrev five : List ℕ
five = 0 ∷ 0 ∷ 0 ∷ 1 ∷ 5 ∷ []

abbrev nine : List ℕ
nine = 0 ∷ 0 ∷ 0 ∷ 1 ∷ 9 ∷ []

is_answered :
    IsAnswered wire_parts requests responses buffer gone
      (λ w. w.0)
      (λ w. w.1)
      (λ o w. (w.0, o))
      (λ w. w)
      []
      (λ bytes w. (bytes, w.1))
      1
      2
      3
      10
      20
      12
      5
      (λ w. true)
      (λ w. true)
      (λ w. w)
      server_node
      1
      run_true
      ([], [])
      five
      nine
unfolding dispatch response
is_answered = record {
  new = refl;
  wrote = asked;
  arrived = refl;
  fresh = refl;
  replied = told;
  kept = refl;
  caller_opened = refl;
  server_opened = refl;
}

is_timely :
    IsTimely wire_parts requests responses buffer gone
      (λ w. w.0)
      (λ w. w.1)
      (λ o w. (w.0, o))
      (λ w. w)
      []
      (λ bytes w. (bytes, w.1))
      1
      2
      3
      10
      20
      12
      5
      (λ w. true)
      (λ w. true)
      (λ w. w)
      server_node
      1
is_timely = record {
  connected = omega arith;
  opened = omega arith;
  replied = omega arith;
  read = omega arith;
  written = omega arith;
}

call-Answered_example :
    ((call network ("p" ∷ []) "p" run_true caller).0 ≡ ok (Response.error "failed"))
    × ((call network ("p" ∷ []) "p" run_true caller).1.world ≡ (five, nine))
unfolding dispatch response
call-Answered_example =
    call-Answered wire_parts requests responses buffer gone (λ w. w.0) (λ w. w.1) (λ o w. (w.0, o))
      (λ w. w) [] (λ bytes w. (bytes, w.1)) 1 2 3 10 20 12 5 (λ w. true) (λ w. true) (λ w. w)
      server_node 1 link is_timely ("p" ∷ []) "p" run_true caller five nine is_answered refl
