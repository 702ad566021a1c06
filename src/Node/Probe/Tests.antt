-- ===== src/Node/Probe/Tests.antt =====
-- The checks of a network with one domain that has an address and one port that never answers.
use sshe.Prelude.{ℕ, ok, err, ◌≡◌, ◌≤◌, map, length, refl, true, false, [], ◌∷◌, none, some}
use sshe.Io.{ErrorKind, ConnectionError}
use sshe.Protocol.Message.{ProbeKind, FailureKind, Response}
use sshe.Core.Config.{default_probe}
use sshe.Core.Exec.{Os}
use sshe.Core.Probe.{
  Outside, timed, outcome, record_of, measure, addresses, resolve, connected, reach, check_domain,
  check_tcp, network,
}
use sshe.Core.Probe.Host.{Machine}
use sshe.Core.Probe.Coherent.{IsGroup}
use sshe.Node.Config.{Config, default_daemon, validate}
use sshe.Node.Config.Valid.{validate_iff}
use sshe.Prelude.{arith}
use sshe.Node.Transport.{Iroh}
use sshe.Node.Probe.{Surroundings, checks_of}
use sshe.Node.Probe.Answered.{RunsChecks, alone, dispatch-probe}
use sshe.Node.Dispatch.{Parts, dispatch}
use sshe.Core.Error as CoreError
use sshe.Prelude.{All}
use sshe.Protocol.Message.{ProbeReport, Request}
use sshe.Core.Probe.Coherent.{IsCoherent, subject}
use sshe.Node.Probe.Checked.{checks_of-IsGroup, limit_of, subjects, most}

abbrev no_commands : Os
no_commands = record {
  World = Unit;
  Child = Unit;
  spawn =
      λ w program args. (err (record { kind = ErrorKind.not_found; inner = none; text = "" }), w);
  read_to_end = λ w c p n. none;
  wait = λ w c. none;
  pass = λ w t. w;
  kill_group = λ w c. w;
}

-- The payload of a check is the number of addresses.
abbrev outside : Outside ℕ
outside = record {
  os = no_commands;
  run = record { world = tt; trace = [] };
  now = λ t. 1700;
  lookup_host = λ domain. some (20, ok ("192.0.2.1" ∷ []));
  connect = λ address. none;
  from_strings = λ texts. length texts;
  from_utf8_lossy = λ bytes. "";
  to_string = λ e. "failed";
}

abbrev machine : Machine ℕ
machine = record {
  F64 = Unit;
  parse_f64 = λ s. none;
  parse_u64 = λ s. none;
  split_whitespace = λ s. [];
  lines = λ s. [];
  strip_suffix = λ s t. none;
  read_to_string = λ s. ok "";
  statvfs = none;
  to_value = λ h. none;
  ready_at = none;
}

abbrev no_peers : Iroh ℕ
no_peers = record {
  World = Unit;
  Conn = Unit;
  Stream = Unit;
  lock = λ w slots id. (0, slots, w);
  connect = λ w id. (50, ok tt, w);
  is_closed = λ w c. true;
  open_bi = λ w c. (2, err ConnectionError.reset, w);
  write_frame = λ w s request. (3, ok tt, w);
  finish = λ w s. true;
  read_frame = λ w s. (20, ok (Response.error ""), w);
}

abbrev around : Surroundings ℕ
around = record {
  outside = outside;
  machine = machine;
  iroh = no_peers;
  net = record { now = 0; slots = λ id. none; world = tt; submitted = false; trace = [] };
  version_value = λ v. 0;
  to_string = λ e. "failed";
}

abbrev config : Config
config = record {
  identity = "id.key";
  peers = [];
  probe = record default_probe {
    wan = record { domains = "example.org" ∷ []; tcp = "192.0.2.9:443" ∷ [] };
  };
  daemon = default_daemon;
}

program : Unit {0}
unfolding checks_of network check_domain check_tcp resolve reach addresses connected measure
    record_of outcome timed
program = tt

-- The one that never answers ends with the limit of 5 seconds.
timed_out : (checks_of around config ProbeKind.wan).0 ≡ 5000
unfolding program
timed_out = refl

kinds_of_errors :
    map (λ r. r.error_kind) (checks_of around config ProbeKind.wan).1
    ≡ none ∷ some FailureKind.timeout ∷ []
unfolding program
kinds_of_errors = refl

accepted : validate config ≡ ok tt
accepted = (validate_iff config).1 (ground arith)

checks_of-IsGroup_example :
    ((checks_of around config ProbeKind.wan).0 ≤ most ProbeKind.wan)
    × IsGroup ProbeKind.wan
        (limit_of config ProbeKind.wan)
        (subjects config ProbeKind.wan)
        (checks_of around config ProbeKind.wan)
checks_of-IsGroup_example = checks_of-IsGroup around config ProbeKind.wan accepted

-- The interface of the dispatch, over these checks; the world stays as it is.
abbrev parts : Parts ℕ
parts = record {
  World = Unit;
  version = "1";
  now = λ w. 1700;
  sample = λ c kind w. (ok [], w);
  history = λ w. record { capacity = 1; series = [] };
  check = λ c kind w. ((checks_of around c kind).1, w);
  check_peers = λ c w. ((checks_of around c ProbeKind.peers).1, w);
  execute = λ program args timeout_secs w. (err CoreError.timeout, w);
  call = λ id request w. (ok (Response.error "called"), w);
  to_string = λ e. "failed";
}

parts-RunsChecks : RunsChecks parts (λ w. around)
parts-RunsChecks = record {
  check-checks_of = λ c kind w. refl;
  check_peers-checks_of = λ c w. refl;
}

dispatch-probe_example :
    (report : ProbeReport ℕ) × ((dispatch parts
        (alone parts (λ w. around) config "k0" false)
        (Request.probe ProbeKind.wan)
        tt).0
      ≡ ok (Response.probe report))
    × ((report.observer ≡ "k0") × (report.kind ≡ ProbeKind.wan))
    × All (IsCoherent ProbeKind.wan (limit_of config ProbeKind.wan)) report.records
    × (map subject report.records ≡ subjects config ProbeKind.wan)
dispatch-probe_example =
    dispatch-probe parts (λ w. around) parts-RunsChecks config "k0" false ProbeKind.wan tt tt
      accepted
