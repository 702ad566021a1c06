-- ===== src/Node/Daemon.antt =====
-- crates/sshe-node/src/daemon.rs: the socket, the loop (Node/Daemon/Loop) and what is given back at
-- the end. The outside is the parameter `Outside`. `trace` records what was asked of the outside,
-- and no code reads it.
pub mod Loop
pub mod Admitted
pub mod Careful
pub mod Released
mod Tests
use Prim.Native.String.{◌++◌ as append}
use sshe.Prelude.{
  zero, length, suc, String, Option, ℕ, Bool, List, Result, ok, err, ok_or, fail_if, map_err, not,
  ◌+◌, ◌-◌, ◌*◌, ◌%◌, ◌==◌, ◌++◌, if◌then◌else◌, [], ◌∷◌, none, some, true, false,
}
use sshe.Node.Daemon.Loop.{Tasks, Turn, Break, initial, turns, abort_all, broken}
use sshe.Io.{IoError, ErrorKind}
use sshe.Node.Error.{Error, io, invalid}
use sshe.Node.Config.{Config, Paths}
use sshe.Node.Disk.{Action, look, ◌>>=◌, ◌>>◌}
use sshe.Node.Layout.{Names, Layout, layout, socket_fits}
use sshe.Core.Probe.{Timed, timed}
use sshe.Node.Client.{LocalRequest}
use sshe.Node.Dispatch.{Parts, Node}
use sshe.Node.Transport.{handshake_timeout}
use sshe.Node.Server.{connected, Connection, Stream, serve_local, try_acquire}

abbrev is_refused : ErrorKind → Bool
is_refused ErrorKind.connection_refused = true
is_refused _ = false

abbrev is_not_found : ErrorKind → Bool
is_not_found ErrorKind.not_found = true
is_not_found _ = false

-- What was asked of the outside.
pub data Event : Type 0 where
  locked unlocked bound removed dropped opened looped closed : Event
  -- with the permission bits that were set
  made_private : ℕ → Event

pub record Outside : Type 1 where
  pub World : Type 0
  pub read : World → String → Result Error Config
  -- `identity::lock`
  pub lock : String → World → Result Error Unit × World
  -- `load_key`, as its public key
  pub load_key : World → String → Result Error String
  -- the permission bits of `metadata`
  pub mode : World → String → Result IoError ℕ
  -- `symlink_metadata`: whether there is a socket
  pub is_socket : World → String → Result IoError Bool
  pub connect : String → World → Result IoError Unit × World
  pub remove_file : String → World → Result IoError Unit × World
  pub bind : String → World → Result IoError Unit × World
  pub set_permissions : String → ℕ → World → Result IoError Unit × World
  -- an endpoint with this key at this port
  pub endpoint : String → Option ℕ → World → Result Error Unit × World
  -- `signal(SignalKind::terminate())`
  pub terminate : World → Result IoError Unit
  pub close : World → World
  -- what the loop sees until it ends, and the world then
  pub events : ℕ → World → (List Turn × Break) × World

module _ (paths : Paths) (names : Names) (outside : Outside) where
  open outside use {
    World, read, lock, load_key, mode, is_socket, connect, remove_file, bind, set_permissions,
    endpoint, terminate, close, events,
  }

  pub record Session : Type 0 where
    pub world : World
    pub tasks : Tasks
    pub trace : List Event

  pub note : Event → Session → Session
  note e s = record s { trace = s.trace ++ e ∷ [] }

  noted :
      {E : Type 0}
      → (E → Error)
      → Event
      → Session
      → Result E Unit × World
      → Result Error Unit × Session
  noted into e s (ok _, w) = (ok tt, note e (record s { world = w }))
  noted into e s (err x, w) = (err (into x), record s { world = w })

  -- an operation that is noted when it succeeds
  pub done :
      {E : Type 0} → (E → Error) → Event → (World → Result E Unit × World) → Action Session Unit
  done into e op s = noted into e s (op s.world)

  -- what a guard does when it is dropped, on every path
  pub finally : {A : Type 0} → Action Session A → (Session → Session) → Action Session A
  finally m drop s = let (r, s') = m s in (r, drop s')

  -- `SocketGuard`: an error is ignored
  pub drop_socket : String → Session → Session
  drop_socket socket s =
      let (_, w) = remove_file socket s.world in note dropped (record s { world = w })

  drop_lock : Session → Session
  drop_lock s = note unlocked s

  -- nobody listens on the socket
  stale : Result IoError Unit → Result Error Unit
  stale (ok _) = err (invalid "daemon socket is already in use")
  stale (err e) = if is_refused e.kind then ok tt else err (io e)

  probe_socket : String → Action Session Unit
  probe_socket socket s = let (r, w) = connect socket s.world in (stale r, record s { world = w })

  -- the `match` on what is at the socket's path
  clear_stale : String → Action Session Unit
  clear_stale socket s = elim (is_socket s.world socket) [
    | ok true ↦ (do probe_socket socket; done io removed (remove_file socket)) s
    | ok false ↦ (err (invalid "refusing to remove non-socket at socket path"), s)
    | err e ↦ ((if is_not_found e.kind then ok tt else err (io e)), s)
  ]

  -- The guard of a socket whose setup fails is dropped.
  unguarded : String → Result Error Unit × Session → Result Error Unit × Session
  unguarded socket (ok u, s) = (ok u, s)
  unguarded socket (err e, s) = (err e, drop_socket socket s)

  set_mode : String → ℕ → Action Session Unit
  set_mode socket bits = done io (made_private bits) (set_permissions socket bits)

  -- the guard is there once the socket is bound
  listen : String → Action Session Unit
  listen socket = do done io bound (bind socket); λ s. unguarded socket (set_mode socket 384 s)

  -- The directory is private.
  private_parent : String → Action Session Unit
  private_parent socket = do
    parent ← look (λ s. ok_or (paths.parent socket) (invalid "socket parent missing"))
    bits ← look (λ s. map_err io (mode s.world parent))
    look (λ s.
        fail_if (not (bits % 64 == 0))
          (invalid "daemon config directory must be private (chmod 700)"))

  too_long : String → Error
  too_long socket =
      invalid (
        append "socket path "
          (append socket " is longer than 107 bytes; use a shorter config path"))

  pub bind_socket : Layout → Action Session Unit
  bind_socket l = do
    look (λ s. fail_if (not (socket_fits names l)) (too_long l.socket))
    private_parent l.socket
    clear_stale l.socket
    listen l.socket

  -- `ep.close()`
  close_endpoint : Session → Session
  close_endpoint s = note closed (record s { world = close s.world })

  -- The loop, which is noted when it begins, the end of the tasks and of the endpoint.
  pub serve : Config → Action Session Unit
  serve config s =
      let ((seen, last), w) = events config.daemon.max_concurrent s.world in
      let tasks = abort_all (turns seen (initial config.daemon.max_concurrent)) in
      (broken last, close_endpoint (record (note looped s) { world = w; tasks = tasks }))

  -- with the socket
  pub run_endpoint : Config → Action Session Unit
  run_endpoint config = do
    key ← look (λ s. load_key s.world config.identity)
    done (λ e. e) opened (endpoint key config.daemon.bind_port)
    look (λ s. map_err io (terminate s.world))
    serve config

  -- with the identity's lock
  pub run_locked : String → Config → Action Session Unit
  run_locked path config = do
    bind_socket (layout names path)
    finally (run_endpoint config) (drop_socket (layout names path).socket)

  pub daemon : String → Action Session Unit
  daemon path = do
    config ← look (λ s. read s.world path)
    done (λ e. e) locked (lock config.identity)
    finally (run_locked path config) drop_lock

-- A connection whose handshake is over in time goes to `serve_peer`; `handshake` has the peer's key.
pub handle_peer : Config → Timed (Result Error String) → Option Connection
handle_peer config handshake = elim (timed handshake_timeout handshake).1 [
  | some (ok remote) ↦ some (connected config remote)
  | some (err e) ↦ none
  | none ↦ none
]

-- An error is only logged.
pub handle_local :
    {Value : Type 0} (parts : Parts Value)
    → Stream parts LocalRequest
    → Node
    → ℕ
    → parts.World
    → parts.World
handle_local parts stream node permits w = (serve_local parts stream node permits w).1
