-- ===== src/Cli/App/Tests.antt =====
-- A peer that is added to an empty address book.
use sshe.Prelude.Maps
use sshe.Prelude.Maps.{string_key, same_key}
use sshe.Prelude.{
  true, ◌++◌, ℕ, pos, inr, inl, sym, Bool-cases, err, ap, subst, List, String, Option, Result, ok,
  ◌≡◌, refl, false, if◌then◌else◌, str_eq, [], ◌∷◌, none, some, arith,
}
use sshe.Protocol.Message.{Response, ExecResult, exec}
use sshe.Core.Config.{default_probe}
use sshe.Node.Config.{
  stored, validate, validate_aliases, all_alias_chars, validate_ranges, validate_services,
  write_config, write_text, Config, Peer, Paths, Toml, Files, default_daemon, read, save, resolved,
  validate_alias,
}
use sshe.Node.Config.Saved.{IsFaithful, PrintsBack}
use sshe.Cli.Args.{LocalAction, Action, PeerAction, RemoteAction}
use sshe.Cli.App.{Ops, edited, saved, peer, request}
use sshe.Cli.App.Peers.{ok_some-eq, peer-Edited, Edited}
use sshe.Cli.Main.{is_daemon, init_logging, main}
use sshe.Cli.Output.{Terminal}

exec_of :
    request (RemoteAction.exec 30 ("printf" ∷ "%s" ∷ [])) ≡ some (exec "printf" ("%s" ∷ []) 30)
unfolding request
exec_of = refl

-- Nothing is stripped of a directory, and every path is absolute.
abbrev paths : Paths
paths = record {
  parent = λ p. some "/e";
  is_relative = λ p. str_eq p "";
  join = λ base p. "/e/id";
  strip_prefix = λ p base. none;
}

abbrev node : List (String × Peer) → Config
node peers = record {
  identity = "/e/id";
  peers = peers;
  probe = default_probe;
  daemon = default_daemon;
}

abbrev with_vps : Config
with_vps = node (("vps", record { id = "k1"; addrs = [] }) ∷ [])

-- Two texts: of no peer, and of one.
abbrev toml : Toml
toml = record {
  to_string_pretty = λ c. some (
      if str_eq (elim c.peers [ [] ↦ "" | (alias, p) ∷ rest ↦ alias ]) "vps"
      then "one"
      else "none");
  from_str = λ s. some (if str_eq s "one" then with_vps else node []);
}

abbrev disk : Files
disk = record {
  World = String;
  Temp = Unit;
  read_to_string = λ w path. ok w;
  new_in = λ w d. (ok tt, w);
  write_all = λ w t s. (ok tt, s);
  sync_all = λ w t. (ok tt, w);
  persist = λ w t p. (ok tt, w);
  sync_dir = λ w d. (ok tt, w);
}

disk-IsFaithful : IsFaithful paths toml disk
disk-IsFaithful = record {
  join-strip_prefix = λ base path rest h. absurd (ground (arith, h));
  read-persist = λ w w₁ w₂ w₃ w₄ w₅ t d path content a b c e f. ground arith;
}

abbrev parse_id : String → Option String
parse_id s = some s

abbrev json : Maps.Map String Peer → Option String
json m = some "{}"

program : Unit {0}
unfolding peer edited saved read save write_config write_text stored resolved validate
    validate_aliases validate_alias all_alias_chars validate_ranges validate_services Maps.get
    Maps.insert
program = tt

added :
    peer paths toml disk parse_id json (PeerAction.add "vps" "k1") "/e/config.toml" "none"
    ≡ (ok tt, "one")
unfolding program
added = refl

ok_eq : {E : Type 0} {a b : Config} → ◌≡◌ {A = Result E Config} (ok a) (ok b) → a ≡ b
ok_eq {a = a} h = ap (λ r. elim r as (λ _. Config) [ ok c ↦ c | err e ↦ a ]) h

-- The configuration that is read is the empty one, and what it becomes has a text.
prints :
    (cfg cfg' : Config)
    → read paths toml disk "none" "/e/config.toml" ≡ ok cfg
    → edited paths toml disk parse_id json (PeerAction.add "vps" "k1") cfg ≡ ok (some cfg')
    → PrintsBack paths toml disk "/e/config.toml" cfg'
unfolding program
prints cfg cfg' found made =
    let was : node [] ≡ cfg = ok_eq found in
    let is : with_vps ≡ cfg' = ok_some-eq (
      subst
        (λ c. edited paths toml disk parse_id json (PeerAction.add "vps" "k1") c ≡ ok (some cfg'))
        (sym was) made) in
    subst (PrintsBack paths toml disk "/e/config.toml") is (λ content h.
      let one : "one" ≡ content = ground (arith, h) in
      subst (λ t. toml.from_str t ≡ some with_vps) one refl)

absolute :
    (identity : String) → paths.is_relative (resolved paths "/e/config.toml" identity) ≡ false
unfolding resolved
absolute identity = elim (Bool-cases (str_eq identity "")) [
  | inl empty ↦ rw empty refl
  | inr full ↦ rw full full
]

peer-Edited_example :
    (cfg : Config) × (cfg' : Config) × (read paths toml disk "none" "/e/config.toml" ≡ ok cfg)
    × (read paths toml disk "one" "/e/config.toml" ≡ ok cfg')
    × Edited paths toml disk parse_id json (PeerAction.add "vps" "k1") cfg cfg'
peer-Edited_example =
    peer-Edited paths toml disk parse_id json disk-IsFaithful (PeerAction.add "vps" "k1")
      "/e/config.toml" "none" "one" absolute prints added

-- The two outputs of this process, and a peer on which the command prints 1 and 2 and is killed.
abbrev screen : Terminal ℕ
screen = record {
  World = List ℕ × List ℕ;
  print = λ text w. w;
  stdout = λ bytes w. (ok tt, (w.0 ++ bytes, w.1));
  stderr = λ bytes w. (ok tt, (w.0, w.1 ++ bytes));
  probe_json = λ r. some "{}";
  history_json = λ r. some "{}";
  exec_json = λ r. some "{}";
}

abbrev killed_by_9 : ExecResult
killed_by_9 = record {
  stdout = 1 ∷ [];
  stderr = 2 ∷ [];
  exit_code = none;
  signal = some (pos 9);
  duration_ms = 5;
}

abbrev ops : Ops paths toml disk parse_id json ℕ
ops = record {
  terminal = screen;
  default_path = ok "/e/config.toml";
  absolute = λ path. ok path;
  init = λ path w. (ok "k", w);
  endpoint_id = λ config w. ok "k";
  daemon = λ path w. (ok tt, w);
  invoke = λ path target request w. (ok (Response.exec killed_by_9), w);
}

daemon_logs :
    (main paths toml disk parse_id json ops none true
      (record {
        target = none;
        config = none;
        json = false;
        command = Action.local_action LocalAction.daemon;
      })
      ("none", ([], []))).0
    ≡ record { filter = "warn,sshe_node=info"; writes_time = false; ansi = some false }
unfolding main init_logging is_daemon
daemon_logs = refl
