-- ===== src/Node/Server/Tests.antt =====
-- A connection from a peer, with two streams.
use sshe.Prelude.{arith, [], ◌∷◌}
use sshe.Core.Config.{default_probe}
use sshe.Node.Config.{Config, default_daemon}
use sshe.Node.Server.{find_alias, connected, Turn, Turns, draining}
use sshe.Node.Server.Peers.{brought-Listed, Listed}

abbrev config : Config
config = record {
  identity = "/etc/sshe/id.key";
  peers = ("vps", record { id = "k1"; addrs = [] }) ∷ [];
  probe = default_probe;
  daemon = default_daemon;
}

-- Two streams, and then the connection is closed.
two_streams : Turns (connected config "k1") (draining (2 ∷ 1 ∷ []) [])
unfolding connected find_alias
two_streams =
    Turns.then_turn
      (Turns.then_turn (Turns.then_turn Turns.start (Turn.accept 1 [] []))
        (Turn.accept 2 (1 ∷ []) []))
      (Turn.close (2 ∷ 1 ∷ []) [])

brought-Listed_example : Listed config.peers "k1"
brought-Listed_example =
    brought-Listed config "k1" (draining (2 ∷ 1 ∷ []) []) two_streams (omega arith)
