-- ===== src/Node/Transport/Tests.antt =====
-- Runs of a call over a small network: the world is the number of seconds since the peer's daemon
-- was restarted, and connection 0 was made before that.
use sshe.Protocol.Message.{Response, exec}
use sshe.Node.Error.{failure_kind, connection_lost}
use sshe.Node.Transport.{
  is_connection_lost, unknown_if_exec, is_exec, modify, ready, await, within, within_deadline, note,
  set_slot, dial, lock_slot, reuse_or_dial, acquire, connection, mark_submitted, finish_stream,
  send_request, talk, submitted, dialed, submit, reply_on, exchange, not_configured, may_retry,
  finally, retry, first_reply, call_until, call, Iroh, Net, ◌>>=◌,
}
use sshe.Node.Transport.Submits.{submits-call, told, submits}
use sshe.Prelude.{
  arith, none, refl, true, ltb, str_eq, err, ◌&&◌, if◌then◌else◌, ◌==◌, ◌≡◌, ◌≤◌, ◌+◌, [], false,
  ok, ◌∷◌, ℕ, some,
}
use sshe.Node.Transport.Deadlines.{call_within_budget}
use sshe.Io.{ConnectionError}
use sshe.Node.Transport.Setup.{
  bound, bind_prepared, v4, v6, endpoint-Settings, fixed_port, settings_of, built, with_socket,
  IsBuilders, Builders, Settings, endpoint,
}

abbrev answer : Response ℕ
answer = Response.health (record { endpoint_id = "p"; status = "ok"; version = "1" })

-- Connection 0 is closed, and a stream cannot be opened on it; connection 1 answers in 20 ms.
abbrev network : Iroh ℕ
network = record {
  World = ℕ;
  Conn = ℕ;
  Stream = ℕ;
  lock = λ w slots id. (1, slots, w);
  connect = λ w id. (50, ok 1, w + 1);
  is_closed = λ w c. c == 0 && ltb 0 w;
  open_bi = λ w c. (2, (if c == 0 then err ConnectionError.reset else ok c), w + 1);
  write_frame = λ w s request. (3, ok tt, w);
  finish = λ w s. true;
  read_frame = λ w s. (20, ok answer, w);
}

abbrev start : Net network
start = record { now = 1000; slots = λ id. some 0; world = 0; submitted = false; trace = [] }

program : Unit {0}
unfolding call call_until first_reply retry finally may_retry exchange reply_on submit send_request
    talk finish_stream mark_submitted connection acquire reuse_or_dial lock_slot dial set_slot note
    within_deadline within await ready modify ◌>>=◌ is_exec unknown_if_exec is_connection_lost
    connection_lost failure_kind not_configured
program = tt

-- The cached connection turns out to be dead when the stream is opened: it is replaced, and the
-- exec is submitted once.
replaced : call network ("p" ∷ []) "p" (exec "true" [] 30) start ≡ (
  ok answer,
  record start {
    now = 1079;
    world = 3;
    slots = λ id. if str_eq id "p" then some 1 else some 0;
    submitted = true;
    trace = dialed 1004 "p" ∷ submitted 1056 (exec "true" [] 30) ∷ [];
  },
)
unfolding program
replaced = refl

submits-call_example :
    submits (call network ("p" ∷ []) "p" (exec "true" [] 30) start).1.trace
    ≡ submits start.trace + told (call network ("p" ∷ []) "p" (exec "true" [] 30) start).0
submits-call_example = submits-call network ("p" ∷ []) "p" "true" [] 30 start

call_within_budget_example : (call network ("p" ∷ []) "p" (exec "true" [] 30) start).1.now ≤ 111000
call_within_budget_example = call_within_budget network ("p" ∷ []) "p" (exec "true" [] 30) start

-- A builder is what it is set to, and every socket can be bound.
abbrev builders : Builders
builders = record {
  Builder = Settings;
  BindError = Unit;
  Endpoint = Settings;
  World = ℕ;
  builder = record { key = none; protocols = []; socket = λ family. (0, true) };
  secret_key = λ key m. record m { key = some key };
  alpns = λ protocols m. record m { protocols = protocols };
  bind_addr = λ family port m. ok (with_socket family (port, true) m);
  bind_addr_with_opts = λ family port required m. ok (with_socket family (port, required) m);
  bind = λ m w. (ok m, w + 1);
}

abbrev bound_to : Settings → Settings
bound_to m = m

builders-IsBuilders : IsBuilders builders bound_to
builders-IsBuilders = record {
  sets_key = λ key m. refl;
  sets_alpns = λ protocols m. refl;
  sets_addr = λ family port m m' done. ground (arith, done);
  sets_opts = λ family port required m m' done. ground (arith, done);
}

abbrev at_4433 : Settings
at_4433 =
    with_socket v6 (4433, false)
      (with_socket v4 (4433, true)
        (record builders.builder { key = some "k"; protocols = "sshe/1" ∷ [] }))

bound_at_4433 : endpoint builders "k" (some 4433) 0 ≡ (ok at_4433, 1)
unfolding endpoint built fixed_port bind_prepared bound
bound_at_4433 = refl

endpoint-Settings_example :
    (m : Settings) × (builders.bind m 0 ≡ (ok at_4433, 1))
    × (bound_to m ≡ settings_of "k" (some 4433) builders.builder)
endpoint-Settings_example =
    endpoint-Settings builders bound_to builders-IsBuilders "k" (some 4433) 0 1 at_4433
      bound_at_4433
