-- ===== src/Node/Dispatch/Tests.antt =====
-- A probe by the sampler of a daemon, and a query of the history where there is none.
use sshe.Prelude.{none, false, refl, ◌+◌, err, ok, ℕ, ◌≡◌, [], true}
use sshe.Protocol.Message.{ProbeKind, Request, Response}
use sshe.Core.Config.{default_probe}
use sshe.Core.Error as CoreError
use sshe.Node.Config.{default_daemon}
use sshe.Node.Dispatch.{probe_records, dispatch, Parts, Node}
use sshe.Node.Error.{invalid}

abbrev parts : Parts ℕ
parts = record {
  World = ℕ;
  version = "1";
  now = λ w. w;
  sample = λ c kind w. (ok [], w);
  history = λ w. record { capacity = 1; series = [] };
  check = λ c kind w. ([], w);
  check_peers = λ c w. ([], w);
  execute = λ program args timeout w. (err CoreError.timeout, w + 1);
  call = λ id request w. (ok (Response.error "called"), w + 1);
  to_string = λ e. "failed";
}

abbrev node : Node
node = record {
  config = record { identity = "/id"; peers = []; probe = default_probe; daemon = default_daemon };
  id = "k0";
  has_dialer = true;
  has_sampler = true;
}

abbrev report : Response ℕ
report = Response.probe (record { observer = "k0"; kind = ProbeKind.peers; records = [] })

probed : (dispatch parts node (Request.probe ProbeKind.peers) 7).0 ≡ ok report
unfolding dispatch probe_records
probed = refl

-- A node without a sampler has no history.
no_history :
    (dispatch parts (record node { has_sampler = false }) (Request.history none none 5) 7).0
    ≡ err (invalid "history requires a running daemon")
unfolding dispatch
no_history = refl
