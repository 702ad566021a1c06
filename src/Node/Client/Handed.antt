-- ===== src/Node/Client/Handed.antt =====
-- What one invocation asks of the outside, and in which order.
use sshe.Prelude.{
  false, true, if◌then◌else◌, not, Bool, err, ok, Bool-cases, Result, ◌∙◌, ap, inr, refl, sym,
  subst, Result-cases, inl, ◌⊎◌, ◌++◌, Option, ◌≡◌, String, List, [], ◌∷◌, none, some,
}
use sshe.Io.{IoError}
use sshe.Protocol.Message.{Request, Response}
use sshe.Node.Error.{Error}
use sshe.Node.Config.{Config, Peer}
use sshe.Node.Dispatch.{Parts}
use sshe.Node.Client.{
  no_daemon, ask, some_reply, on_connect, target_peer, after_daemon, note, via_daemon, invoke, here,
  fall_back, bind_and_use, with_endpoint, carry_out, use_endpoint, while_locked, run_in_process,
  Event, Outside, Session, Route, ran, asked, called, locked, unlocked, bound, closed,
}
use mathlib.Core.List.{append_assoc, append-nil}
use sshe.Node.Transport.{unknown_if_exec}

-- The uses of a bound endpoint.
pub data Use (request : Request) : Event → Type 0 where
  local : Use request (ran request)
  remote : (id : String) → Use request (called id request)

-- The events of an invocation: the request is handed over at most once, and an endpoint is bound
-- only between the lock and its release, closed before it.
pub data Episode (request : Request) : List Event → Type 0 where
  nothing : Episode request []
  ran_here : Episode request (ran request ∷ [])
  at_daemon :
      (target : Option String)
      → Episode request (asked (record { target = target; request = request }) ∷ [])
  unbound : Episode request (locked ∷ unlocked ∷ [])
  at_endpoint :
      (e : Event) → Use request e → Episode request (locked ∷ bound ∷ e ∷ closed ∷ unlocked ∷ [])

module _ {Value : Type 0} (parts : Parts Value) (outside : Outside parts) (request : Request) where
  -- The trace grew by events with this property.
  abbrev pub Added : (List Event → Type 0) → Session parts → Session parts → Type 0
  Added P s s' = (new : List Event) × (s'.trace ≡ s.trace ++ new) × P new

  run_in_process-Added :
      (config : Config) (s : Session parts)
      → Added (Episode request) s (run_in_process parts outside config request s).1
  unfolding run_in_process here note
  run_in_process-Added config s = elim (Result-cases (outside.load_key config s.world)) [
    | inl (id, e) ↦ (ran request ∷ [], rw (e, run_in_process) refl, ran_here)
    | inr (x, e) ↦ ([], rw (e, run_in_process) (sym (append-nil s.trace)), nothing)
  ]

  -- Nothing, or one use of the endpoint between its binding and its close.
  abbrev Bracket : List Event → Type 0
  Bracket new = (new ≡ []) ⊎ ((e : Event) × Use request e × (new ≡ bound ∷ e ∷ closed ∷ []))

  use_endpoint-Added :
      (config : Config) (peer : Option Peer) (id : String) (s : Session parts)
      → (e : Event) × Use request e
        × ((use_endpoint parts outside config peer id request s).1.trace ≡ s.trace ++ e ∷ [])
  unfolding use_endpoint here note
  use_endpoint-Added config (some p) id s = (called p.id request, remote p.id, refl)
  use_endpoint-Added config none id s = (ran request, local, refl)

  bind_and_use-Added :
      (config : Config) (peer : Option Peer) (id : String) (s : Session parts)
      → Added Bracket s (bind_and_use parts outside config peer id request s).1
  unfolding bind_and_use note
  bind_and_use-Added config peer id s = elim (Result-cases (outside.endpoint id s.world).0) [
    | inr (x, e) ↦ ([], rw (e, bind_and_use) (sym (append-nil s.trace)), inl refl)
    | inl (u, e) ↦
        let s' = note parts outside bound (record s { world = (outside.endpoint id s.world).1 }) in
        let (event, used, grew) = use_endpoint-Added config peer id s' in
        (
          bound ∷ event ∷ closed ∷ [],
          rw (e, bind_and_use)
              (ap (λ t. t ++ closed ∷ []) grew
                ∙ append_assoc s'.trace (event ∷ []) (closed ∷ [])
                ∙ append_assoc s.trace (bound ∷ []) (event ∷ closed ∷ [])),
          inr (event, used, refl),
        )
  ]

  while_locked-Added :
      (config : Config) (peer : Option Peer) (s : Session parts)
      → Added Bracket s (while_locked parts outside config peer request s).1
  unfolding while_locked
  while_locked-Added config peer s = elim (Result-cases (outside.load_key config s.world)) [
    | inr (x, e) ↦ ([], rw (e, while_locked) (sym (append-nil s.trace)), inl refl)
    | inl (id, e) ↦ rw (e, while_locked) (bind_and_use-Added config peer id s)
  ]

  Episode-locked :
      (new : List Event) → Bracket new → Episode request (locked ∷ new ++ unlocked ∷ [])
  Episode-locked new (inl e) =
      subst (λ t. Episode request (locked ∷ t ++ unlocked ∷ [])) (sym e) unbound
  Episode-locked new (inr (event, used, e)) =
      subst (λ t. Episode request (locked ∷ t ++ unlocked ∷ [])) (sym e) (at_endpoint event used)

  with_endpoint-Added :
      (config : Config) (target : Option String) (s : Session parts)
      → Added (Episode request) s (with_endpoint parts outside config target request s).1
  unfolding with_endpoint note
  with_endpoint-Added config target s =
      elim (Result-cases (target_peer parts outside config target)) [
        | inr (x, e) ↦ ([], rw (e, with_endpoint) (sym (append-nil s.trace)), nothing)
        | inl (peer, e) ↦ elim (Result-cases (outside.lock config s.world).0) [
          | inr (x, f) ↦ (
            [],
            rw (e, with_endpoint) (rw (f, with_endpoint) (sym (append-nil s.trace))),
            nothing,
          )
          | inl (u, f) ↦
              let s' =
                note parts outside locked (record s { world = (outside.lock config s.world).1 }) in
              let (new, grew, bracket) = while_locked-Added config peer s' in
              (
                locked ∷ new ++ unlocked ∷ [],
                rw (e, with_endpoint)
                    (rw (f, with_endpoint)
                      (ap (λ t. t ++ unlocked ∷ []) grew
                        ∙ append_assoc s'.trace new (unlocked ∷ [])
                        ∙ append_assoc s.trace (locked ∷ []) (new ++ unlocked ∷ []))),
                Episode-locked new bracket,
              )
        ]
      ]

  fall_back-Added :
      (config : Config) (r : Route) (target : Option String) (s : Session parts)
      → Added (Episode request) s (fall_back parts outside config r target request s).1
  unfolding fall_back
  fall_back-Added config Route.daemon_only target s = ([], sym (append-nil s.trace), nothing)
  fall_back-Added config Route.daemon_or_endpoint target s = with_endpoint-Added config target s
  fall_back-Added config Route.in_process target s = run_in_process-Added config s
  fall_back-Added config Route.daemon_or_in_process target s = run_in_process-Added config s

  -- Nothing follows such an answer.
  abbrev IsSettled : Result Error (Option (Response Value)) → Type 0
  IsSettled (ok none) = ⊥
  IsSettled _ = Unit

  some_reply-IsSettled :
      (reply : Result Error (Response Value)) → IsSettled (some_reply parts outside request reply)
  unfolding some_reply
  some_reply-IsSettled reply = elim (Result-cases (unknown_if_exec request reply)) [
    | inl (r, e) ↦ rw (e, some_reply) tt
    | inr (x, e) ↦ rw (e, some_reply) tt
  ]

  -- Nothing was asked, or the daemon was and its answer is the end of it.
  abbrev Settled :
      Option String
      → Session parts
      → Result Error (Option (Response Value)) × Session parts
      → Type 0
  Settled target s v =
      (v.1.trace ≡ s.trace)
      ⊎ ((v.1.trace ≡ s.trace ++ asked (record { target = target; request = request }) ∷ [])
          × IsSettled v.0)

  on_connect-Settled :
      (target : Option String) (r : Result IoError outside.Socket) (s : Session parts)
      → Settled target s (on_connect parts outside target request (r, s))
  unfolding on_connect ask note
  on_connect-Settled target (err e) s = elim (Bool-cases (no_daemon parts outside e)) [
    | inl h ↦ inl (rw (h, on_connect) refl)
    | inr h ↦ inl (rw (h, on_connect) refl)
  ]
  on_connect-Settled target (ok socket) s = inr (refl, some_reply-IsSettled _)

  unless-Settled :
      (target : Option String) (s : Session parts) (skip : Bool)
      (v : Result Error (Option (Response Value)) × Session parts)
      → Settled target s v
      → Settled target s (if skip then (ok none, s) else v)
  unless-Settled target s true v h = inl refl
  unless-Settled target s false v h = h

  via_daemon-Settled :
      (target : Option String) (s : Session parts)
      → Settled target s (via_daemon parts outside target request s)
  unfolding via_daemon
  via_daemon-Settled target s =
      let (r, w) = outside.connect s.world in
      unless-Settled target s (not outside.socket_fits) _
        (on_connect-Settled target r (record s { world = w }))

  after_daemon-Added :
      (config : Config) (r : Route) (target : Option String) (s : Session parts)
      (v : Result Error (Option (Response Value)) × Session parts)
      → Settled target s v
      → Added (Episode request) s (after_daemon parts outside config r target request v).1
  unfolding after_daemon
  after_daemon-Added config r target s (err e, s') (inl same) =
      ([], same ∙ sym (append-nil s.trace), nothing)
  after_daemon-Added config r target s (err e, s') (inr (grew, h)) = (_, grew, at_daemon target)
  after_daemon-Added config r target s (ok (some x), s') (inl same) =
      ([], same ∙ sym (append-nil s.trace), nothing)
  after_daemon-Added config r target s (ok (some x), s') (inr (grew, h)) =
      (_, grew, at_daemon target)
  after_daemon-Added config r target s (ok none, s') (inl same) =
      let (new, grew, episode) = fall_back-Added config r target s' in
      (new, grew ∙ ap (λ t. t ++ new) same, episode)
  after_daemon-Added config r target s (ok none, s') (inr (grew, h)) = absurd h

  carry_out-Added :
      (config : Config) (r : Route) (target : Option String) (s : Session parts)
      → Added (Episode request) s (carry_out parts outside config r target request s).1
  unfolding carry_out
  carry_out-Added config Route.in_process target s = run_in_process-Added config s
  carry_out-Added config Route.daemon_only target s =
      after_daemon-Added config _ target s _ (via_daemon-Settled target s)
  carry_out-Added config Route.daemon_or_endpoint target s =
      after_daemon-Added config _ target s _ (via_daemon-Settled target s)
  carry_out-Added config Route.daemon_or_in_process target s =
      after_daemon-Added config _ target s _ (via_daemon-Settled target s)

  -- An invocation hands the request over at most once, be it here, to the daemon or to a peer, on
  -- every path; a temporary endpoint is bound only while the identity is locked, and is closed
  -- before the lock is released.
  pub invoke-Episode :
      (target : Option String) (s : Session parts)
      → Added (Episode request) s (invoke parts outside target request s).1
  unfolding invoke
  invoke-Episode target s = elim (Result-cases (outside.read s.world)) [
    | inr (x, e) ↦ ([], rw (e, invoke) (sym (append-nil s.trace)), nothing)
    | inl (config, e) ↦ rw (e, invoke) (carry_out-Added config _ _ s)
  ]
