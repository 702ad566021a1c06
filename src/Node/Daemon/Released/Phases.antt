-- ===== src/Node/Daemon/Released/Phases.antt =====
-- What a daemon may hold and when, and how the guards change it.
use sshe.Prelude.{
  Option-cases, Option, List, Result, ok, err, and_then, ◌≡◌, inl, inr, refl, ap, ◌∙◌, ◌++◌, subst,
  arith, [], ◌∷◌, none, some,
}
use sshe.Node.Error.{Error}
use sshe.Node.Config.{Paths}
use sshe.Node.Disk.{Action, Outcome}
use sshe.Node.Layout.{Names}
use sshe.Node.Daemon.{
  noted, Event, Outside, Session, note, done, finally, locked, unlocked, bound, made_private,
  removed, dropped, opened, looped, closed,
}

-- What is held.
pub data Phase : Type 0 where
  free held listening ready serving : Phase

-- What may happen when so much is held: a socket is removed, or bound, under the lock only; an
-- endpoint is opened while the socket is there, and the lock is given back after the socket. An
-- endpoint that was only opened goes with its last owner; one that the loop has served is closed
-- before the socket goes.
abbrev pub next : Event → Phase → Option Phase
next locked Phase.free = some Phase.held
next removed Phase.held = some Phase.held
next bound Phase.held = some Phase.listening
next (made_private bits) Phase.listening = some Phase.listening
next opened Phase.listening = some Phase.ready
next looped Phase.ready = some Phase.serving
next closed Phase.serving = some Phase.listening
next dropped Phase.listening = some Phase.held
next dropped Phase.ready = some Phase.held
next unlocked Phase.held = some Phase.free
next _ _ = none

-- What is held after a trace that begins with nothing held, if each event may happen.
abbrev pub phase_from : Phase → List Event → Option Phase
phase_from p [] = some p
phase_from p (e ∷ es) = and_then (next e p) (λ q. phase_from q es)

and_then-some : {A : Type 0} (o : Option A) → and_then o some ≡ o
and_then-some none = refl
and_then-some (some a) = refl

phase_from-snoc :
    (p : Phase) (es : List Event) (e : Event) (q : Phase)
    → phase_from p es ≡ some q
    → phase_from p (es ++ e ∷ []) ≡ next e q
phase_from-snoc p [] e q h =
    let same : p ≡ q = ap (λ o. elim o as (λ _. Phase) [ some x ↦ x | none ↦ p ]) h in
    and_then-some (next e p) ∙ ap (next e) same
phase_from-snoc p (x ∷ es) e q h = elim (Option-cases (next x p)) [
  | inl stuck ↦ absurd (ground (arith, stuck, h))
  | inr (p', moved) ↦
      rw (moved) (
        phase_from-snoc p' es e q (subst (λ o. and_then o (λ q. phase_from q es) ≡ some q) moved h))
]

module _ {paths : Paths} {names : Names} {outside : Outside} where
  abbrev pub At : Phase → Session paths names outside → Type 0
  At p s = phase_from Phase.free s.trace ≡ some p

  pub note-At :
      (e : Event) (p q : Phase) (s : Session paths names outside)
      → next e p ≡ some q
      → At p s
      → At q (note paths names outside e s)
  unfolding note
  note-At e p q s allowed here = phase_from-snoc Phase.free s.trace e p here ∙ allowed

  noted-Outcome :
      {E : Type 0} (into : E → Error) (e : Event) (p q : Phase) (s : Session paths names outside)
      (r : Result E Unit × outside.World)
      → next e p ≡ some q
      → At p s
      → Outcome (At q) (At p) (noted paths names outside into e s r)
  unfolding noted
  noted-Outcome into e p q s (ok u, w) allowed here =
      note-At e p q (record s { world = w }) allowed here
  noted-Outcome into e p q s (err x, w) allowed here = here

  pub done-Outcome :
      {E : Type 0} (into : E → Error) (e : Event) (p q : Phase)
      (op : outside.World → Result E Unit × outside.World) (s : Session paths names outside)
      → next e p ≡ some q
      → At p s
      → Outcome (At q) (At p) (done paths names outside into e op s)
  unfolding done
  done-Outcome into e p q op s allowed here = noted-Outcome into e p q s (op s.world) allowed here

  finished-Outcome :
      {A : Type 0} (Q R P : Session paths names outside → Type 0)
      (drop : Session paths names outside → Session paths names outside)
      (r : Result Error A × Session paths names outside)
      → Outcome Q R r
      → ((s : Session paths names outside) → Q s → P (drop s))
      → ((s : Session paths names outside) → R s → P (drop s))
      → Outcome P P (r.0, drop r.1)
  finished-Outcome Q R P drop (ok a, s) h q r = q s h
  finished-Outcome Q R P drop (err e, s) h q r = r s h

  pub finally-Outcome :
      {A : Type 0} (Q R P : Session paths names outside → Type 0)
      (m : Action (Session paths names outside) A)
      (drop : Session paths names outside → Session paths names outside)
      (s : Session paths names outside)
      → Outcome Q R (m s)
      → ((s : Session paths names outside) → Q s → P (drop s))
      → ((s : Session paths names outside) → R s → P (drop s))
      → Outcome P P (finally paths names outside m drop s)
  unfolding finally
  finally-Outcome Q R P m drop s h q r = finished-Outcome Q R P drop (m s) h q r

  pub weaken :
      {A : Type 0} (Q Q' R R' : Session paths names outside → Type 0)
      (r : Result Error A × Session paths names outside)
      → Outcome Q R r
      → ((s : Session paths names outside) → Q s → Q' s)
      → ((s : Session paths names outside) → R s → R' s)
      → Outcome Q' R' r
  weaken Q Q' R R' (ok a, s) h q r = q s h
  weaken Q Q' R R' (err e, s) h q r = r s h
