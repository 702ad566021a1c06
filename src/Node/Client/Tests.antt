-- ===== src/Node/Client/Tests.antt =====
-- Invocations where a daemon listens and where none does.
use sshe.Prelude.{
  refl, ◌==◌, ◌++◌, ◌+◌, if◌then◌else◌, err, ◌≡◌, ℕ, List, ok, [], ◌∷◌, none, some, true,
}
use sshe.Io.{ErrorKind}
use sshe.Protocol.Message.{Request, Response, exec}
use sshe.Core.Config.{default_probe}
use sshe.Core.Error as CoreError
use sshe.Node.Config.{peer, Config, default_daemon}
use sshe.Node.Dispatch.{Parts}
use sshe.Node.Client.{
  target_peer, note, run_in_process, here, use_endpoint, bind_and_use, while_locked, with_endpoint,
  fall_back, some_reply, ask, unlocked, closed, on_connect, via_daemon, called, after_daemon, asked,
  bound, route, locked, carry_out, invoke, Event, Outside, Session,
}
use sshe.Node.Client.Handed.{invoke-Episode, Episode}
use sshe.Node.Error.{Error}
use sshe.Node.Transport.{is_exec, unknown_if_exec}
use sshe.Prelude.Maps.{get}

abbrev config : Config
config = record {
  identity = "/etc/sshe/id.key";
  peers = ("vps", record { id = "k1"; addrs = [] }) ∷ [];
  probe = default_probe;
  daemon = default_daemon;
}

abbrev parts : Parts ℕ
parts = record {
  World = ℕ;
  version = "1";
  now = λ w. w;
  sample = λ c kind w. (ok [], w);
  history = λ w. record { capacity = 1; series = [] };
  check = λ c kind w. ([], w);
  check_peers = λ c w. ([], w);
  execute = λ program args timeout w. (err CoreError.timeout, w + 1);
  call = λ id request w. (ok (Response.error "called"), w + 1);
  to_string = λ e. "failed";
}

abbrev outside : Outside parts
outside = record {
  Socket = Unit;
  read = λ w. ok config;
  socket_fits = true;
  connect = λ w. (
    if w == 0 then err (record { kind = ErrorKind.not_found; inner = none; text = "" }) else ok tt,
    w,
  );
  talk = λ socket message w. (err Error.timeout, w);
  load_key = λ c w. ok "k0";
  lock = λ c w. (ok tt, w);
  endpoint = λ id w. (ok tt, w);
}

abbrev start : ℕ → Session parts
start w = record { world = w; trace = [] }

abbrev true_exec : Request
true_exec = exec "true" [] 30

program : Unit {0}
unfolding invoke carry_out route after_daemon via_daemon on_connect ask some_reply fall_back
    with_endpoint while_locked bind_and_use use_endpoint here run_in_process note target_peer
    unknown_if_exec is_exec peer get
program = tt

-- The daemon was given the exec and did not answer: it may have run, and is not tried elsewhere.
no_answer : invoke parts outside (some "vps") true_exec (start 1) ≡ (
  err (Error.outcome_unknown Error.timeout),
  record (start 1) { trace = asked (record { target = some "vps"; request = true_exec }) ∷ [] },
)
unfolding program
no_answer = refl

without_daemon : invoke parts outside (some "vps") true_exec (start 0) ≡ (
  ok (Response.error "called"),
  record { world = 1; trace = locked ∷ bound ∷ called "k1" true_exec ∷ closed ∷ unlocked ∷ [] },
)
unfolding program
without_daemon = refl

invoke-Episode_example :
    (new : List Event) × ((invoke parts outside (some "vps") true_exec (start 0)).1.trace
      ≡ [] ++ new)
    × Episode true_exec new
invoke-Episode_example = invoke-Episode parts outside true_exec (some "vps") (start 0)
