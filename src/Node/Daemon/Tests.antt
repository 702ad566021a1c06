-- ===== src/Node/Daemon/Tests.antt =====
-- A daemon that replaces a stale socket, and the slots of one that allows one request at a time.
use sshe.Prelude.{
  ltb, if◌then◌else◌, List, ok, err, ◌≡◌, ◌≤◌, ◌*◌, length, refl, true, [], ◌∷◌, none, some,
}
use sshe.Io.{ErrorKind, IoError}
use sshe.Core.Config.{default_probe}
use sshe.Node.Config.{Paths, default_daemon}
use sshe.Node.Layout.{Names, layout}
use sshe.Node.Daemon.Careful.{bind_socket-IsCareful, IsCareful}
use sshe.Node.Disk.{look, ◌>>=◌}
use sshe.Node.Daemon.Loop.{Turn, Break, initial, turn, turns, admit_local, abort_all, broken}
use sshe.Node.Daemon.{
  Outside, Session, note, noted, done, finally, drop_socket, drop_lock, stale, probe_socket,
  clear_stale, unguarded, set_mode, listen, private_parent, bind_socket, close_endpoint, serve,
  run_endpoint, run_locked, daemon, locked, unlocked, bound, made_private, removed, dropped, opened,
  looped, closed,
}
use sshe.Node.Daemon.Admitted.{turns-bounded}
use sshe.Node.Daemon.Released.{daemon-phases}
use sshe.Node.Daemon.Released.Phases.{Phase, phase_from}
use sshe.Node.Daemon.Released.Phases.{phase_from}

abbrev paths : Paths
paths = record {
  parent = λ p. some "/e";
  is_relative = λ p. true;
  join = λ base p. p;
  strip_prefix = λ p base. none;
}

abbrev names : Names
names = record {
  with_extension = λ p e. "/e/config.sock";
  file_name = λ p. none;
  byte_length = λ p. 14;
}

abbrev refused : IoError
refused = record { kind = ErrorKind.connection_refused; inner = none; text = "" }

-- The loop sees three local connections and a signal.
abbrev seen : List Turn
seen = Turn.accepted 1 ∷ Turn.accepted 2 ∷ Turn.accepted 3 ∷ []

abbrev outside : Outside
outside = record {
  World = Unit;
  read = λ w path. ok (record {
    identity = "/e/config.key";
    peers = [];
    probe = default_probe;
    daemon = default_daemon;
  });
  lock = λ identity w. (ok tt, w);
  load_key = λ w identity. ok "k0";
  mode = λ w path. ok 448;
  is_socket = λ w path. ok true;
  connect = λ path w. (err refused, w);
  remove_file = λ path w. (ok tt, w);
  bind = λ path w. (ok tt, w);
  set_permissions = λ path bits w. (ok tt, w);
  endpoint = λ key port w. (ok tt, w);
  terminate = λ w. ok tt;
  close = λ w. w;
  events = λ max w. ((seen, Break.terminated), w);
}

abbrev begin : Session paths names outside
begin = record { world = tt; tasks = initial 16; trace = [] }

replaced :
    (daemon paths names outside "/e/config.toml" begin).1.trace
    ≡ locked
      ∷ removed
      ∷ bound
      ∷ made_private 384
      ∷ opened
      ∷ looped
      ∷ closed
      ∷ dropped
      ∷ unlocked
      ∷ []
unfolding daemon run_locked run_endpoint serve close_endpoint bind_socket private_parent listen
    unguarded set_mode clear_stale probe_socket stale drop_lock drop_socket finally done noted note
    look ◌>>=◌ broken abort_all turns turn admit_local
replaced = refl

daemon-phases_example :
    phase_from Phase.free (daemon paths names outside "/e/config.toml" begin).1.trace
    ≡ some Phase.free
daemon-phases_example = daemon-phases paths names outside "/e/config.toml" begin refl

-- The third one is dropped.
third_dropped : (turns seen (initial 1)).locals ≡ 2 ∷ 1 ∷ []
unfolding turns turn admit_local
third_dropped = refl

turns-bounded_example :
    (length (turns seen (initial 1)).peers ≤ 64)
    × ((turn (Turn.incoming 4) (turns seen (initial 1))).peers ≡ (
        if ltb (length (turns seen (initial 1)).peers) 64
        then 4 ∷ (turns seen (initial 1)).peers
        else (turns seen (initial 1)).peers))
    × (length (turns seen (initial 1)).locals ≤ 2 * 1)
    × ((turn (Turn.accepted 4) (turns seen (initial 1))).locals ≡ (
        if ltb (length (turns seen (initial 1)).locals) (2 * 1)
        then 4 ∷ (turns seen (initial 1)).locals
        else (turns seen (initial 1)).locals))
turns-bounded_example = turns-bounded 1 seen 4

bind_socket-IsCareful_example :
    IsCareful paths names outside "/e/config.sock" begin
      (bind_socket paths names outside (layout names "/e/config.toml") begin)
bind_socket-IsCareful_example =
    bind_socket-IsCareful paths names outside (layout names "/e/config.toml") begin
