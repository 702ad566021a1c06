-- ===== src/Node/Daemon/Careful.antt =====
-- When a daemon replaces a socket, and what it leaves behind.
use sshe.Prelude.{
  map_err-eq-ok, ok_or-eq-ok, String, ℕ, Bool, List, Result, ok, err, map_err, ok_or, fail_if, not,
  ◌==◌, ◌%◌, ◌≡◌, ◌⊎◌, inl, inr, refl, ap, sym, ◌∙◌, ◌++◌, subst, arith, Result-cases, true, false,
  [], ◌∷◌, some,
}
use sshe.Io.{IoError, ErrorKind}
use sshe.Node.Error.{Error, io}
use sshe.Node.Config.{Paths}
use sshe.Node.Disk.{continue, look, ◌>>=◌, ◌>>◌, >>=-cases, look_then-cases, look_then-ok}
use sshe.Node.Layout.{Names, Layout}
use sshe.Node.Daemon.{
  is_refused, Event, Outside, Session, note, noted, done, drop_socket, stale, probe_socket,
  clear_stale, unguarded, set_mode, listen, private_parent, bind_socket, bound, made_private,
  removed, dropped,
}
use mathlib.Core.List.{append_assoc, append-nil}

is_refused-eq : (k : ErrorKind) → is_refused k ≡ true → k ≡ ErrorKind.connection_refused
is_refused-eq ErrorKind.connection_refused h = refl
is_refused-eq _ h = absurd (ground (arith, h))

passed : (b : Bool) (e : Error) {u : Unit {0}} → fail_if (not b) e ≡ ok u → b ≡ true
passed true e h = refl
passed false e h = absurd (ground (arith, h))

module _ (paths : Paths) (names : Names) (outside : Outside) (socket : String)
    (begin : Session paths names outside) where
  abbrev Run : Type 0
  Run = Result Error Unit × Session paths names outside

  -- There is a socket, and nobody listens on it.
  abbrev pub Stale : Type 0
  Stale =
      (outside.is_socket begin.world socket ≡ ok true)
      × (e : IoError) × ((outside.connect socket begin.world).0 ≡ err e)
      × (e.kind ≡ ErrorKind.connection_refused)

  -- The socket's directory is for its owner only.
  abbrev pub IsPrivate : Type 0
  IsPrivate =
      (parent : String) × (paths.parent socket ≡ some parent)
      × (bits : ℕ) × (outside.mode begin.world parent ≡ ok bits)
      × ((bits % 64 == 0) ≡ true)

  -- What was removed, and why it could be.
  abbrev pub IsCleared : List Event → Type 0
  IsCleared before = (before ≡ []) ⊎ ((before ≡ removed ∷ []) × Stale)

  -- What was bound: a socket that was given the mode 0o600, or one that is given up.
  abbrev pub IsBound : Result Error Unit → List Event → Type 0
  IsBound (ok u) after = (after ≡ bound ∷ made_private 384 ∷ []) × IsPrivate
  IsBound (err e) after = (after ≡ []) ⊎ (after ≡ bound ∷ dropped ∷ [])

  abbrev pub IsCareful : Run → Type 0
  IsCareful (r, s) =
      (before : List Event) × (after : List Event) × (s.trace ≡ begin.trace ++ before ++ after)
      × IsCleared before
      × IsBound r after

  -- the state once the way is clear
  abbrev Cleared : Session paths names outside → Type 0
  Cleared s = (before : List Event) × (s.trace ≡ begin.trace ++ before) × IsCleared before

  stop : (e : Error) (s : Session paths names outside) → Cleared s → IsCareful (err e, s)
  stop e s (before, trace, cleared) =
      (before, [], trace ∙ sym (append-nil (begin.trace ++ before)), cleared, inl refl)

  refused-stale :
      (r : Result IoError Unit) {u : Unit {0}}
      → stale paths names outside r ≡ ok u
      → (e : IoError) × (r ≡ err e) × (e.kind ≡ ErrorKind.connection_refused)
  unfolding stale
  refused-stale (ok u) h = absurd (ground (arith, h))
  refused-stale (err e) h = (e, refl, is_refused-eq e.kind (ground (arith, h)))

  -- what was noted of an operation
  noted-cases :
      {E : Type 0} (into : E → Error) (e : Event) (s : Session paths names outside)
      (r : Result E Unit × outside.World) (G : Run → Type 0)
      → ((x : Error) (w : outside.World) → G (err x, record s { world = w }))
      → ((w : outside.World) → G (ok tt, note paths names outside e (record s { world = w })))
      → G (noted paths names outside into e s r)
  unfolding noted
  noted-cases into e s (ok u, w) G failed went = went w
  noted-cases into e s (err x, w) G failed went = failed (into x) w

  -- A clear way, or an error with what was removed.
  abbrev ClearsOrStops : Run → Type 0
  ClearsOrStops (ok u, s) = Cleared s
  ClearsOrStops (err e, s) = Cleared s

  untouched : (s : Session paths names outside) → s.trace ≡ begin.trace → Cleared s
  untouched s same = ([], same ∙ sym (append-nil begin.trace), inl refl)

  stops :
      (r : Result Error Unit) (s : Session paths names outside)
      → s.trace ≡ begin.trace
      → ClearsOrStops (r, s)
  stops (ok u) s same = untouched s same
  stops (err e) s same = untouched s same

  clear_stale-Cleared : ClearsOrStops (clear_stale paths names outside socket begin)
  unfolding clear_stale probe_socket note done
  clear_stale-Cleared = elim (Result-cases (outside.is_socket begin.world socket)) [
    | inr (e, failed) ↦ rw (failed, clear_stale) (stops _ begin refl)
    | inl (false, other) ↦ rw (other, clear_stale) (untouched begin refl)
    | inl (true, there) ↦
        rw (there, clear_stale)
          (>>=-cases ClearsOrStops (probe_socket paths names outside socket) _ begin
            (λ e failed.
              untouched (record begin { world = (outside.connect socket begin.world).1 }) refl)
            (λ u went.
              let (e, answer, kind) =
                refused-stale (outside.connect socket begin.world).0 (ap (λ p. p.0) went) in
              noted-cases io removed _
                (outside.remove_file socket (outside.connect socket begin.world).1) ClearsOrStops
                (λ x w. untouched (record begin { world = w }) refl)
                (λ w. (removed ∷ [], refl, inr (refl, (there, e, answer, kind))))))
  ]

  -- what `listen` adds to a trace
  abbrev Listens : List Event → Run → Type 0
  Listens trace (ok u, s) = s.trace ≡ trace ++ bound ∷ made_private 384 ∷ []
  Listens trace (err e, s) = (s.trace ≡ trace) ⊎ (s.trace ≡ trace ++ bound ∷ dropped ∷ [])

  -- The trace was `trace` before the socket was bound.
  unguarded-Listens :
      (trace : List Event) (s : Session paths names outside)
      (r : Result IoError Unit × outside.World)
      → s.trace ≡ trace ++ bound ∷ []
      → Listens trace (
          unguarded paths names outside socket
            (noted paths names outside io (made_private 384) s r))
  unfolding unguarded noted note drop_socket
  unguarded-Listens trace s (ok u, w) same =
      ap (λ t. t ++ made_private 384 ∷ []) same
      ∙ append_assoc trace (bound ∷ []) (made_private 384 ∷ [])
  unguarded-Listens trace s (err e, w) same =
      inr (ap (λ t. t ++ dropped ∷ []) same ∙ append_assoc trace (bound ∷ []) (dropped ∷ []))

  bound_then-Listens :
      (s : Session paths names outside) (r : Result IoError Unit × outside.World)
      → Listens s.trace (
          continue (noted paths names outside io bound s r) (λ u s'.
            unguarded paths names outside socket (set_mode paths names outside socket 384 s')))
  unfolding noted done note set_mode
  bound_then-Listens s (ok u, w) =
      unguarded-Listens s.trace (note paths names outside bound (record s { world = w })) _ refl
  bound_then-Listens s (err e, w) = inl refl

  listen-Listens :
      (s : Session paths names outside) → Listens s.trace (listen paths names outside socket s)
  unfolding listen done ◌>>=◌
  listen-Listens s = bound_then-Listens s (outside.bind socket s.world)

  -- a directory that is private, and a state that is as before
  private_parent-IsPrivate :
      (s : Session paths names outside)
      → private_parent paths names outside socket begin ≡ (ok tt, s)
      → IsPrivate × (s ≡ begin)
  unfolding private_parent look
  private_parent-IsPrivate s went =
      let (parent, found, h₁) = look_then-ok (λ s. ok_or (paths.parent socket) _) _ begin went in
      let (bits, read, h₂) =
        look_then-ok (λ s. map_err io (outside.mode s.world parent)) _ begin h₁ in
      (
        (
          parent,
          ok_or-eq-ok (paths.parent socket) _ found,
          bits,
          map_err-eq-ok io _ read,
          passed (bits % 64 == 0) _ (ap (λ p. p.0) h₂),
        ),
        sym (ap (λ p. p.1) h₂),
      )

  private_parent-same : (private_parent paths names outside socket begin).1 ≡ begin
  unfolding private_parent look
  private_parent-same =
      look_then-cases (λ r. r.1 ≡ begin) _ _ begin (λ e. refl)
        (λ parent h. look_then-cases (λ r. r.1 ≡ begin) _ _ begin (λ e. refl) (λ bits h. refl))

  join :
      (before : List Event) (private : IsPrivate) (s : Session paths names outside) (r : Run)
      → s.trace ≡ begin.trace ++ before
      → IsCleared before
      → Listens s.trace r
      → IsCareful r
  join before private s (ok u, s') same cleared listens = (
    before,
    bound ∷ made_private 384 ∷ [],
    listens ∙ ap (λ t. t ++ bound ∷ made_private 384 ∷ []) same,
    cleared,
    (refl, private),
  )
  join before private s (err e, s') same cleared (inl nothing) =
      (before, [], nothing ∙ same ∙ sym (append-nil (begin.trace ++ before)), cleared, inl refl)
  join before private s (err e, s') same cleared (inr given_up) = (
    before,
    bound ∷ dropped ∷ [],
    given_up ∙ ap (λ t. t ++ bound ∷ dropped ∷ []) same,
    cleared,
    inr refl,
  )

  ClearsOrStops-Cleared : (r : Run) → ClearsOrStops r → Cleared r.1
  ClearsOrStops-Cleared (ok u, s) cleared = cleared
  ClearsOrStops-Cleared (err e, s) cleared = cleared

  clear_then-IsCareful :
      IsPrivate
      → IsCareful
          ((clear_stale paths names outside socket >> listen paths names outside socket) begin)
  clear_then-IsCareful private =
      let after = (clear_stale paths names outside socket begin).1 in
      let (before, same, cleared) =
        ClearsOrStops-Cleared (clear_stale paths names outside socket begin) clear_stale-Cleared in
      >>=-cases IsCareful (clear_stale paths names outside socket) _ begin
        (λ e failed. stop e after (before, same, cleared))
        (λ u went. join before private after _ same cleared (listen-Listens after))

-- Whatever is at the socket's path: `bind_socket` removes it only if it is a socket on which nobody
-- listens, it reports success only if the directory is private, with a socket whose mode was set to
-- 0o600, and a socket whose setup fails is given up.
pub bind_socket-IsCareful :
    (paths : Paths) (names : Names) (outside : Outside) (l : Layout)
    (s : Session paths names outside)
    → IsCareful paths names outside l.socket s (bind_socket paths names outside l s)
unfolding bind_socket
bind_socket-IsCareful paths names outside l s =
    look_then-cases (IsCareful paths names outside l.socket s) _ _ s
      (λ e.
        stop paths names outside l.socket s e s (untouched paths names outside l.socket s s refl))
      (λ u fits.
        >>=-cases (IsCareful paths names outside l.socket s)
          (private_parent paths names outside l.socket) _ s
          (λ e failed.
            let s' = (private_parent paths names outside l.socket s).1 in
            stop paths names outside l.socket s e s' (
              untouched paths names outside l.socket s s'
                (ap (λ x. x.trace) (private_parent-same paths names outside l.socket s))))
          (λ u went.
            subst
              (λ x. IsCareful paths names outside l.socket s (
                (clear_stale paths names outside l.socket >> listen paths names outside l.socket)
                  x))
              (sym (private_parent-same paths names outside l.socket s))
              (clear_then-IsCareful paths names outside l.socket s
                (private_parent-IsPrivate paths names outside l.socket s _ went).0)))
