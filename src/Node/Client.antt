-- ===== src/Node/Client.antt =====
-- crates/sshe-node/src/client.rs: where a request of the command line is carried out. The socket,
-- the identity's lock and iroh's endpoint are the parameter `Outside`. `trace` records what is
-- asked of them, and no code reads it.
pub mod Handed
mod Tests
use sshe.Prelude.{
  str_eq, not, filter_option, if◌then◌else◌, false, ok, true, err, ◌>>=◌, List, String, ◌++◌, Bool,
  Option, Result, [], ◌∷◌, none, some,
}
use sshe.Io.{IoError, ErrorKind}
use sshe.Protocol.Message.{Request, Response, ProbeKind, history, probe}
use sshe.Node.Error.{Error}
use sshe.Node.Config.{Config, Peer, peer as find_peer}
use sshe.Node.Dispatch.{dispatch, Parts, Node}
use sshe.Node.Transport.{unknown_if_exec}

pub data Route : Type 0 where
  in_process daemon_or_in_process daemon_or_endpoint daemon_only : Route

pub route : Option String → Request → Route
route (some _) _ = Route.daemon_or_endpoint
route none (history _ _ _) = Route.daemon_only
route none (probe ProbeKind.peers) = Route.daemon_or_endpoint
route none (probe _) = Route.daemon_or_in_process
route none _ = Route.in_process

-- ipc.rs
pub record LocalRequest : Type 0 where
  pub target : Option String
  pub request : Request

-- What was asked of the outside.
pub data Event : Type 0 where
  ran : Request → Event
  asked : LocalRequest → Event
  called : String → Request → Event
  locked unlocked bound closed : Event

module _ {Value : Type 0} (parts : Parts Value) where
  open parts use {World, call}

  pub record Outside : Type 1 where
    pub Socket : Type 0
    -- `config::read`
    pub read : World → Result Error Config
    pub socket_fits : Bool
    pub connect : World → Result IoError Socket × World
    -- the frame that is written and the one that is read, within LOCAL_TIMEOUT
    pub talk : Socket → LocalRequest → World → Result Error (Response Value) × World
    -- `identity::load_key`, as its public key
    pub load_key : Config → World → Result Error String
    pub lock : Config → World → Result Error Unit × World
    pub endpoint : String → World → Result Error Unit × World

  pub record Session : Type 0 where
    pub world : World
    pub trace : List Event

  module _ (outside : Outside) where
    open outside use {Socket, read, socket_fits, connect, talk, load_key, lock, endpoint}

    -- An operation of the outside.
    abbrev pub run : {A : Type 0} → (World → A × World) → Session → A × Session
    run op s = let (a, w) = op s.world in (a, record s { world = w })

    pub note : Event → Session → Session
    note e s = record s { trace = s.trace ++ e ∷ [] }

    pub here : Config → String → Bool → Request → Session → Result Error (Response Value) × Session
    here config id has_dialer request s =
        run
          (dispatch parts
            (record { config = config; id = id; has_dialer = has_dialer; has_sampler = false })
            request)
          (note (ran request) s)

    pub run_in_process : Config → Request → Session → Result Error (Response Value) × Session
    run_in_process config request s = elim (load_key config s.world) [
      | err e ↦ (err e, s)
      | ok id ↦ here config id false request s
    ]

    -- `NotFound | ConnectionRefused`
    abbrev pub no_daemon : IoError → Bool
    no_daemon e = elim e.kind [
      | ErrorKind.not_found ↦ true
      | ErrorKind.connection_refused ↦ true
      | _ ↦ false
    ]

    -- `unknown_if_exec(request, reply).map(Some)`
    pub some_reply :
        Request → Result Error (Response Value) → Result Error (Option (Response Value))
    some_reply request reply = do r ← unknown_if_exec request reply; ok (some r)

    pub ask : Socket → LocalRequest → Session → Result Error (Option (Response Value)) × Session
    ask socket message s =
        let (r, s') = run (talk socket message) (note (asked message) s) in
        (some_reply message.request r, s')

    pub on_connect :
        Option String
        → Request
        → Result IoError Socket × Session
        → Result Error (Option (Response Value)) × Session
    on_connect target request (err e, s) =
        if no_daemon e then (ok none, s) else (err (Error.io e), s)
    on_connect target request (ok socket, s) =
        ask socket (record { target = target; request = request }) s

    pub via_daemon :
        Option String → Request → Session → Result Error (Option (Response Value)) × Session
    via_daemon target request s =
        if not socket_fits then (ok none, s) else on_connect target request (run connect s)

    -- what the endpoint is bound for
    pub use_endpoint :
        Config → Option Peer → String → Request → Session → Result Error (Response Value) × Session
    use_endpoint config (some peer) id request s =
        run (call peer.id request) (note (called peer.id request) s)
    use_endpoint config none id request s = here config id true request s

    -- from the endpoint's binding to its close
    pub bind_and_use :
        Config → Option Peer → String → Request → Session → Result Error (Response Value) × Session
    bind_and_use config peer id request s =
        let (r, s') = run (endpoint id) s in
        elim r [
          | err e ↦ (err e, s')
          | ok _ ↦
              let (r', s'') = use_endpoint config peer id request (note bound s') in
              (r', note closed s'')
        ]

    pub while_locked :
        Config → Option Peer → Request → Session → Result Error (Response Value) × Session
    while_locked config peer request s = elim (load_key config s.world) [
      | err e ↦ (err e, s)
      | ok id ↦ bind_and_use config peer id request s
    ]

    -- `target.map(|alias| config.peer(alias)).transpose()`
    pub target_peer : Config → Option String → Result Error (Option Peer)
    target_peer config none = ok none
    target_peer config (some alias) = do p ← find_peer config alias; ok (some p)

    pub with_endpoint :
        Config → Option String → Request → Session → Result Error (Response Value) × Session
    with_endpoint config target request s = elim (target_peer config target) [
      | err e ↦ (err e, s)
      | ok peer ↦
          let (r, s') = run (lock config) s in
          elim r [
            | err e ↦ (err e, s')
            | ok _ ↦
                let (r', s'') = while_locked config peer request (note locked s') in
                (r', note unlocked s'')
          ]
    ]

    -- no daemon answered
    pub fall_back :
        Config → Route → Option String → Request → Session → Result Error (Response Value) × Session
    fall_back config Route.daemon_only target request s =
        (err (Error.invalid "history requires a running daemon"), s)
    fall_back config Route.daemon_or_endpoint target request s =
        with_endpoint config target request s
    fall_back config _ target request s = run_in_process config request s

    pub after_daemon :
        Config
        → Route
        → Option String
        → Request
        → Result Error (Option (Response Value)) × Session
        → Result Error (Response Value) × Session
    after_daemon config r target request (err e, s) = (err e, s)
    after_daemon config r target request (ok (some response), s) = (ok response, s)
    after_daemon config r target request (ok none, s) = fall_back config r target request s

    pub carry_out :
        Config → Route → Option String → Request → Session → Result Error (Response Value) × Session
    carry_out config Route.in_process target request s = run_in_process config request s
    carry_out config r target request s =
        after_daemon config r target request (via_daemon target request s)

    pub invoke : Option String → Request → Session → Result Error (Response Value) × Session
    invoke target request s = elim (read s.world) [
      | err e ↦ (err e, s)
      | ok config ↦
          let target' = filter_option (λ t. not (str_eq t "self")) target in
          carry_out config (route target' request) target' request s
    ]
