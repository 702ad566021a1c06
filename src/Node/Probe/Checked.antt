-- ===== src/Node/Probe/Checked.antt =====
-- What the checks of a validated configuration report.
use sshe.Prelude.{ℕ, List, ok, ◌≡◌, ◌≤◌, ◌++◌, map, arith, some, none, [], ◌∷◌}
use sshe.Protocol.Message.{ProbeKind}
use sshe.Core.Config.{timeout_of, peer_timeout_of}
use sshe.Core.Probe.Coherent.{
  Subject, IsGroup, measure-IsCheck, join_all-IsGroup, network-IsGroup, services-IsGroup,
  host_probe-IsGroup,
}
use sshe.Node.Config.{Config, validate}
use sshe.Node.Config.Valid.{validate_iff, IsValid}
use sshe.Node.Probe.{Surroundings, checks_of, check_peer, ask_health, node_errors}

-- what the records of a kind are about, in order
abbrev pub subjects : Config → ProbeKind → List Subject
subjects config ProbeKind.host = (none, "host") ∷ []
subjects config ProbeKind.lan =
    map (λ d. (none, d)) config.probe.lan.domains ++ map (λ t. (none, t)) config.probe.lan.tcp
subjects config ProbeKind.wan =
    map (λ d. (none, d)) config.probe.wan.domains ++ map (λ t. (none, t)) config.probe.wan.tcp
subjects config ProbeKind.services = map (λ e. (some e.0, e.1)) config.probe.services
subjects config ProbeKind.peers = map (λ e. (some e.0, e.1.id)) config.peers

abbrev pub limit_of : Config → ProbeKind → ℕ
limit_of config ProbeKind.peers = peer_timeout_of config.probe
limit_of config _ = timeout_of config.probe

-- 45 seconds for peers, 10 for the rest
abbrev pub most : ProbeKind → ℕ
most ProbeKind.peers = 45000
most _ = 10000

module _ {Value : Type 0} (around : Surroundings Value) where
  checks_of-IsGroup' :
      (config : Config) (kind : ProbeKind)
      → IsGroup kind (limit_of config kind) (subjects config kind) (checks_of around config kind)
  unfolding checks_of check_peer
  checks_of-IsGroup' config ProbeKind.host = host_probe-IsGroup around.outside around.machine _
  checks_of-IsGroup' config ProbeKind.lan =
      network-IsGroup around.outside config.probe.lan ProbeKind.lan _
  checks_of-IsGroup' config ProbeKind.wan =
      network-IsGroup around.outside config.probe.wan ProbeKind.wan _
  checks_of-IsGroup' config ProbeKind.services =
      services-IsGroup around.outside config.probe.services _
  checks_of-IsGroup' config ProbeKind.peers =
      let ids = map (λ e. e.1.id) config.peers in
      let limit = peer_timeout_of config.probe in
      join_all-IsGroup ProbeKind.peers limit (λ e. (some e.0, e.1.id)) (check_peer around ids limit)
        (λ e.
          measure-IsCheck (node_errors around) around.outside.now ProbeKind.peers e.1.id (some e.0)
            "iroh_health" limit (ask_health around ids e.1.id))
        config.peers

limit_of_le :
    (config : Config) (kind : ProbeKind) → IsValid config → limit_of config kind ≤ most kind
limit_of_le config ProbeKind.host valid = ground (arith, valid)
limit_of_le config ProbeKind.lan valid = ground (arith, valid)
limit_of_le config ProbeKind.wan valid = ground (arith, valid)
limit_of_le config ProbeKind.services valid = ground (arith, valid)
limit_of_le config ProbeKind.peers valid = ground (arith, valid)

module _ {Value : Type 0} (around : Surroundings Value) where
  -- The checks of a configuration that `validate` accepts, whatever the network, the commands and
  -- the peers do: over within 45 seconds for peers and 10 seconds for the rest, with one record for
  -- each configured check, in order, whose success, error, kind of error and time of success agree.
  pub checks_of-IsGroup :
      (config : Config) (kind : ProbeKind)
      → validate config ≡ ok tt
      → ((checks_of around config kind).0 ≤ most kind)
        × IsGroup kind (limit_of config kind) (subjects config kind) (checks_of around config kind)
  checks_of-IsGroup config kind accepted =
      let group = checks_of-IsGroup' around config kind in
      (omega (arith, group.0, limit_of_le config kind ((validate_iff config).0 accepted)), group)
