-- ===== src/Node/Daemon/Released.antt =====
-- What a daemon holds, and when: the identity's lock, the socket, the endpoint.
pub mod Phases
pub mod Bound
use sshe.Prelude.{
  Option-cases, String, Option, List, Result, ok, err, and_then, ◌≡◌, ◌⊎◌, inl, inr, refl, ap, ◌∙◌,
  ◌++◌, subst, arith, Result-cases, true, false, [], ◌∷◌, none, some,
}
use sshe.Node.Error.{Error, io}
use sshe.Node.Config.{Config, Paths}
use sshe.Node.Disk.{Action, look, Outcome, >>=-Outcome, look-Outcome}
use sshe.Node.Layout.{Names, Layout, layout}
use sshe.Node.Daemon.{
  noted, unguarded, Event, Outside, Session, note, done, finally, drop_socket, drop_lock,
  probe_socket, clear_stale, listen, private_parent, bind_socket, close_endpoint, serve,
  run_endpoint, run_locked, daemon, locked, unlocked, bound, made_private, removed, dropped, opened,
  looped, closed,
}
use sshe.Node.Daemon.Released.Phases.{
  finally-Outcome, weaken, note-At, done-Outcome, Phase, At, phase_from,
}
use sshe.Node.Daemon.Released.Bound.{bind_socket-Outcome, drop_socket-At}

module _ (paths : Paths) (names : Names) (outside : Outside) where
  -- with the socket, and with an endpoint that has not served or without one
  abbrev Open : Session paths names outside → Type 0
  Open s = At Phase.listening s ⊎ At Phase.ready s

  checked-Open :
      (r : Result Error Unit) (s : Session paths names outside)
      → At Phase.listening s
      → Outcome Open Open (r, s)
  checked-Open (ok u) s here = inl here
  checked-Open (err e) s here = inl here

  close_endpoint-At :
      (s : Session paths names outside)
      → At Phase.serving s
      → At Phase.listening (close_endpoint paths names outside s)
  unfolding close_endpoint
  close_endpoint-At s here =
      note-At closed Phase.serving Phase.listening (record s { world = outside.close s.world }) refl
        here

  serve-Outcome :
      (config : Config) (s : Session paths names outside)
      → At Phase.ready s
      → Outcome Open Open (serve paths names outside config s)
  unfolding serve
  serve-Outcome config s here = checked-Open _ (close_endpoint paths names outside _) (
      close_endpoint-At (record (note paths names outside looped s) { world = _; tasks = _ })
        (note-At looped Phase.ready Phase.serving s refl here))

  run_endpoint-Outcome :
      (config : Config) (s : Session paths names outside)
      → At Phase.listening s
      → Outcome Open Open (run_endpoint paths names outside config s)
  unfolding run_endpoint
  run_endpoint-Outcome config s here =
      let Listening = At Phase.listening in
      let Ready = At Phase.ready in
      >>=-Outcome Listening Open Open (look _) _ s
        (weaken Listening Listening Listening Open _ (look-Outcome Listening _ s here) (λ s p. p)
          (λ s p. inl p))
        (λ key s₁ here₁.
          >>=-Outcome Ready Open Open
            (done paths names outside (λ e. e) opened
              (outside.endpoint key config.daemon.bind_port))
            _ s₁
            (weaken Ready Ready Listening Open _
              (done-Outcome (λ e. e) opened Phase.listening Phase.ready
                (outside.endpoint key config.daemon.bind_port) s₁ refl here₁)
              (λ s p. p) (λ s p. inl p))
            (λ u s₂ here₂.
              >>=-Outcome Ready Open Open (look _) _ s₂
                (weaken Ready Ready Ready Open _ (look-Outcome Ready _ s₂ here₂) (λ s p. p)
                  (λ s p. inr p))
                (λ u s₃ here₃. serve-Outcome config s₃ here₃)))

  drop_socket-Open :
      (socket : String) (s : Session paths names outside)
      → Open s
      → At Phase.held (drop_socket paths names outside socket s)
  drop_socket-Open socket s (inl here) = drop_socket-At socket Phase.listening s refl here
  drop_socket-Open socket s (inr here) = drop_socket-At socket Phase.ready s refl here

  run_locked-Outcome :
      (path : String) (config : Config) (s : Session paths names outside)
      → At Phase.held s
      → Outcome (At Phase.held) (At Phase.held) (run_locked paths names outside path config s)
  unfolding run_locked
  run_locked-Outcome path config s here =
      let l = layout names path in
      >>=-Outcome (At Phase.listening) (At Phase.held) (At Phase.held)
        (bind_socket paths names outside l) _ s (bind_socket-Outcome l s here)
        (λ u s₁ here₁.
          finally-Outcome Open Open (At Phase.held) (run_endpoint paths names outside config)
            (drop_socket paths names outside l.socket) s₁ (run_endpoint-Outcome config s₁ here₁)
            (drop_socket-Open l.socket) (drop_socket-Open l.socket))

  drop_lock-At :
      (s : Session paths names outside)
      → At Phase.held s
      → At Phase.free (drop_lock paths names outside s)
  unfolding drop_lock
  drop_lock-At s here = note-At unlocked Phase.held Phase.free s refl here

  daemon-Outcome :
      (path : String) (s : Session paths names outside)
      → At Phase.free s
      → Outcome (At Phase.free) (At Phase.free) (daemon paths names outside path s)
  unfolding daemon
  daemon-Outcome path s here =
      let Free = At Phase.free in
      let Held = At Phase.held in
      >>=-Outcome Free Free Free (look _) _ s (look-Outcome Free _ s here) (λ config s₁ here₁.
        >>=-Outcome Held Free Free
          (done paths names outside (λ e. e) locked (outside.lock config.identity)) _ s₁
          (done-Outcome (λ e. e) locked Phase.free Phase.held (outside.lock config.identity) s₁ refl
            here₁)
          (λ u s₂ here₂.
            finally-Outcome Held Held Free (run_locked paths names outside path config)
              (drop_lock paths names outside) s₂ (run_locked-Outcome path config s₂ here₂)
              drop_lock-At drop_lock-At))

  ended-At :
      (p : Phase) (r : Result Error Unit × Session paths names outside)
      → Outcome (At p) (At p) r
      → At p r.1
  ended-At p (ok u, s) here = here
  ended-At p (err e, s) here = here

  -- A daemon that starts with nothing held and ends, for whatever reason, has held things in
  -- order and gives all of them back: a socket was removed or bound only under the identity's
  -- lock, an endpoint was opened only behind the socket, one that the loop has run with was closed
  -- before anything else was given back, and a socket that was bound was asked to be removed before
  -- the lock was given back.
  pub daemon-phases :
      (path : String) (s : Session paths names outside)
      → phase_from Phase.free s.trace ≡ some Phase.free
      → phase_from Phase.free (daemon paths names outside path s).1.trace ≡ some Phase.free
  daemon-phases path s here = ended-At Phase.free _ (daemon-Outcome path s here)
