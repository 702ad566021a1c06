-- ===== src/Node/Probe/Answered.antt =====
-- A probe request of a node without a daemon, over the checks themselves.
use sshe.Prelude.{err, Result, arith, Bool, String, ok, ◌≡◌, All, map, refl, ap, true, false}
use sshe.Protocol.Message.{ProbeKind, ProbeReport, Request, Response}
use sshe.Core.Probe.Coherent.{IsCoherent, subject}
use sshe.Node.Config.{Config, validate}
use sshe.Node.Dispatch.{reply, probe_reply, Parts, Node, dispatch, probe_records, probe}
use sshe.Node.Probe.{Surroundings, checks_of}
use sshe.Node.Probe.Checked.{checks_of-IsGroup, limit_of, subjects}
use sshe.Node.Error.{Error}

module _ {Value : Type 0} (parts : Parts Value) (around : parts.World → Surroundings Value) where
  -- The checks of the interface are those of Node/Probe, in the surroundings of the world.
  pub record RunsChecks : Type 0 where
    pub check-checks_of :
        (config : Config) (kind : ProbeKind) (w : parts.World)
        → (parts.check config kind w).0 ≡ (checks_of (around w) config kind).1
    pub check_peers-checks_of :
        (config : Config) (w : parts.World)
        → (parts.check_peers config w).0 ≡ (checks_of (around w) config ProbeKind.peers).1

  -- a node without a daemon, with an endpoint or not
  abbrev pub alone : Config → String → Bool → Node
  alone config id has_dialer = record {
    config = config;
    id = id;
    has_dialer = has_dialer;
    has_sampler = false;
  }

  -- The endpoint is there if the kind needs one: `in_process` opens it for the peers only.
  abbrev pub HasEndpoint : ProbeKind → Bool → Type 0
  HasEndpoint ProbeKind.peers has_dialer = has_dialer ≡ true
  HasEndpoint _ has_dialer = Unit

  probed :
      RunsChecks
      → (config : Config) (has_dialer : Bool) (kind : ProbeKind) (w : parts.World)
      → HasEndpoint kind has_dialer
      → (probe parts config has_dialer kind w).0 ≡ ok (checks_of (around w) config kind).1
  unfolding probe
  probed h config has_dialer ProbeKind.host w there =
      ap ok (h.check-checks_of config ProbeKind.host w)
  probed h config has_dialer ProbeKind.lan w there =
      ap ok (h.check-checks_of config ProbeKind.lan w)
  probed h config has_dialer ProbeKind.wan w there =
      ap ok (h.check-checks_of config ProbeKind.wan w)
  probed h config has_dialer ProbeKind.services w there =
      ap ok (h.check-checks_of config ProbeKind.services w)
  probed h config true ProbeKind.peers w there = ap ok (h.check_peers-checks_of config w)
  probed h config false ProbeKind.peers w there = absurd (ground (arith, there))

  reply-done :
      {E A : Type 0} (into : E → Error) (f : A → Response Value) (m : Result E A × parts.World)
      (a : A)
      → m.0 ≡ ok a
      → (reply parts into f m).0 ≡ ok (f a)
  reply-done into f (ok b, w) a h = ground (arith, h)
  reply-done into f (err e, w) a h = absurd (ground (arith, h))

  abbrev report_of : Config → String → ProbeKind → parts.World → ProbeReport Value
  report_of config id kind w = record {
    observer = id;
    kind = kind;
    records = (checks_of (around w) config kind).1;
  }

  dispatched :
      RunsChecks
      → (config : Config) (id : String) (has_dialer : Bool) (kind : ProbeKind) (w : parts.World)
      → HasEndpoint kind has_dialer
      → (dispatch parts (alone config id has_dialer) (Request.probe kind) w).0
        ≡ ok (Response.probe (report_of config id kind w))
  unfolding dispatch probe_records
  dispatched h config id has_dialer kind w there =
      reply-done (λ e. e) (probe_reply parts (alone config id has_dialer) kind)
        (probe parts config has_dialer kind w) (checks_of (around w) config kind).1
        (probed h config has_dialer kind w there)

  -- A node without a daemon, and without an endpoint unless the probe is of its peers, answers a
  -- probe with one record for each check that its validated configuration lists for the kind, in
  -- order and coherent, whatever the checks meet.
  pub dispatch-probe :
      RunsChecks
      → (config : Config) (id : String) (has_dialer : Bool) (kind : ProbeKind) (w : parts.World)
      → HasEndpoint kind has_dialer
      → validate config ≡ ok tt
      → (report : ProbeReport Value) × ((dispatch parts
            (alone config id has_dialer)
            (Request.probe kind)
            w).0
          ≡ ok (Response.probe report))
        × ((report.observer ≡ id) × (report.kind ≡ kind))
        × All (IsCoherent kind (limit_of config kind)) report.records
        × (map subject report.records ≡ subjects config kind)
  dispatch-probe h config id has_dialer kind w there accepted =
      let (_, (_, coherent, same)) = checks_of-IsGroup (around w) config kind accepted in
      (
        report_of config id kind w,
        dispatched h config id has_dialer kind w there,
        (refl, refl),
        coherent,
        same,
      )
