-- ===== src/Node/Daemon/Released/Bound.antt =====
-- The socket is bound under the lock, or not at all.
use sshe.Prelude.{String, Result, ok, err, ◌≡◌, inl, inr, refl, Result-cases, true, false, some}
use sshe.Node.Error.{Error, io}
use sshe.Node.Config.{Paths}
use sshe.Node.Disk.{look, Outcome, >>=-Outcome, look-Outcome}
use sshe.Node.Layout.{Names, Layout}
use sshe.Node.Daemon.{
  unguarded, set_mode, Outside, Session, done, drop_socket, probe_socket, clear_stale, listen,
  private_parent, bind_socket, bound, made_private, removed, dropped,
}
use sshe.Node.Daemon.Released.Phases.{note-At, next, done-Outcome, Phase, At}

module _ {paths : Paths} {names : Names} {outside : Outside} where
  pub drop_socket-At :
      (socket : String) (p : Phase) (s : Session paths names outside)
      → next dropped p ≡ some Phase.held
      → At p s
      → At Phase.held (drop_socket paths names outside socket s)
  unfolding drop_socket
  drop_socket-At socket p s allowed here =
      note-At dropped p Phase.held (record s { world = (outside.remove_file socket s.world).1 })
        allowed here

  checked-At :
      (r : Result Error Unit) (s : Session paths names outside)
      → At Phase.held s
      → Outcome (At Phase.held) (At Phase.held) (r, s)
  checked-At (ok u) s here = here
  checked-At (err e) s here = here

  clear_stale-Outcome :
      (socket : String) (s : Session paths names outside)
      → At Phase.held s
      → Outcome (At Phase.held) (At Phase.held) (clear_stale paths names outside socket s)
  unfolding clear_stale probe_socket
  clear_stale-Outcome socket s here = elim (Result-cases (outside.is_socket s.world socket)) [
    | inr (e, failed) ↦ rw (failed, clear_stale) (checked-At _ s here)
    | inl (true, there) ↦
        rw (there, clear_stale)
          (>>=-Outcome (At Phase.held) (At Phase.held) (At Phase.held)
            (probe_socket paths names outside socket) _ s
            (checked-At _ (record s { world = (outside.connect socket s.world).1 }) here)
            (λ u s' here'.
              done-Outcome io removed Phase.held Phase.held (outside.remove_file socket) s' refl
                here'))
    | inl (false, there) ↦ rw (there, clear_stale) here
  ]

  unguarded-Outcome :
      (socket : String) (r : Result Error Unit × Session paths names outside)
      → Outcome (At Phase.listening) (At Phase.listening) r
      → Outcome (At Phase.listening) (At Phase.held) (unguarded paths names outside socket r)
  unfolding unguarded
  unguarded-Outcome socket (ok u, s) here = here
  unguarded-Outcome socket (err e, s) here = drop_socket-At socket Phase.listening s refl here

  listen-Outcome :
      (socket : String) (s : Session paths names outside)
      → At Phase.held s
      → Outcome (At Phase.listening) (At Phase.held) (listen paths names outside socket s)
  unfolding listen set_mode
  listen-Outcome socket s here =
      >>=-Outcome (At Phase.listening) (At Phase.listening) (At Phase.held)
        (done paths names outside io bound (outside.bind socket)) _ s
        (done-Outcome io bound Phase.held Phase.listening (outside.bind socket) s refl here)
        (λ u s' here'. unguarded-Outcome socket _ (
          done-Outcome io (made_private 384) Phase.listening Phase.listening
            (outside.set_permissions socket 384) s' refl here'))

  private_parent-Outcome :
      (socket : String) (s : Session paths names outside)
      → At Phase.held s
      → Outcome (At Phase.held) (At Phase.held) (private_parent paths names outside socket s)
  unfolding private_parent
  private_parent-Outcome socket s here =
      let Held = At Phase.held in
      >>=-Outcome Held Held Held (look _) _ s (look-Outcome Held _ s here) (λ parent s₁ here₁.
        >>=-Outcome Held Held Held (look _) _ s₁ (look-Outcome Held _ s₁ here₁)
          (λ bits s₂ here₂. look-Outcome Held _ s₂ here₂))

  pub bind_socket-Outcome :
      (l : Layout) (s : Session paths names outside)
      → At Phase.held s
      → Outcome (At Phase.listening) (At Phase.held) (bind_socket paths names outside l s)
  unfolding bind_socket
  bind_socket-Outcome l s here =
      let Held = At Phase.held in
      >>=-Outcome Held (At Phase.listening) Held (look _) _ s (look-Outcome Held _ s here)
        (λ u s₁ here₁.
          >>=-Outcome Held (At Phase.listening) Held (private_parent paths names outside l.socket) _
            s₁ (private_parent-Outcome l.socket s₁ here₁)
            (λ u s₂ here₂.
              >>=-Outcome Held (At Phase.listening) Held (clear_stale paths names outside l.socket)
                _ s₂ (clear_stale-Outcome l.socket s₂ here₂)
                (λ u s₃ here₃. listen-Outcome l.socket s₃ here₃)))
