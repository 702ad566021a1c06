-- ===== src/Node/Server/Peers.antt =====
-- Which connections are served, and what becomes of the requests that a connection brought.
use sshe.Prelude.Maps
use sshe.Prelude.{
  List, refl, inr, ◌+◌, inl, str_eq, any, arith, Option-cases, ◌↔◌, length, subst, String, ◌≡◌, ℕ,
  ◌≤◌, [], ◌∷◌, none, true, false,
}
use sshe.Node.Config.{Config, Peer}
use sshe.Node.Error.{unauthorized_code}
use sshe.Node.Server.{find_alias, connected, Connection, Turn, Turns, accepting, draining, rejected}

-- Some configured peer has this key.
abbrev pub Listed : Maps.Map String Peer → String → Type 0
Listed m remote = any (λ e. str_eq e.1.id remote) m ≡ true

find_alias_iff :
    (m : Maps.Map String Peer) (remote : String)
    → (find_alias m remote ≡ none) ↔ (any (λ e. str_eq e.1.id remote) m ≡ false)
unfolding find_alias
find_alias_iff [] remote = ground arith
find_alias_iff ((alias, p) ∷ rest) remote = ground (arith, find_alias_iff rest remote)

-- The requests that a connection brought so far.
abbrev pub brought : Connection → ℕ
brought (rejected code) = 0
brought (accepting inflight ended) = length inflight + length ended
brought (draining inflight ended) = length inflight + length ended

-- A rejected connection stays so.
abbrev Unrejected : Connection → Type 0
Unrejected (rejected code) = ⊥
Unrejected _ = Unit

Turn-Unrejected : {c d : Connection} → Turn c d → Unrejected c
Turn-Unrejected (Turn.accept n inflight ended) = tt
Turn-Unrejected (Turn.end n before after ended) = tt
Turn-Unrejected (Turn.close inflight ended) = tt
Turn-Unrejected (Turn.drain n before after ended) = tt

rejected-brought : {c d : Connection} (code : ℕ) → c ≡ rejected code → Turns c d → d ≡ rejected code
rejected-brought code same Turns.start = same
rejected-brought code same (Turns.then_turn ts t) =
    absurd (subst Unrejected (rejected-brought code same ts) (Turn-Unrejected t))

unknown_brings_nothing :
    (config : Config) (remote : String) (c : Connection)
    → find_alias config.peers remote ≡ none
    → Turns (connected config remote) c
    → 1 ≤ brought c
    → ⊥
unfolding connected
unknown_brings_nothing config remote c unknown ts some_request =
    let first : connected config remote ≡ rejected unauthorized_code =
      rw (unknown, connected) refl in
    let last = rejected-brought unauthorized_code first ts in
    omega (arith, subst (λ x. 1 ≤ brought x) last some_request)

-- Only a configured peer brings requests: a connection that has brought one is from a key that
-- `[peers]` lists.
pub brought-Listed :
    (config : Config) (remote : String) (c : Connection)
    → Turns (connected config remote) c
    → 1 ≤ brought c
    → Listed config.peers remote
brought-Listed config remote c ts some_request =
    elim (Option-cases (find_alias config.peers remote)) [
      | inl unknown ↦ absurd (unknown_brings_nothing config remote c unknown ts some_request)
      | inr (alias, found) ↦ ground (arith, find_alias_iff config.peers remote, found)
    ]

-- When the peer has closed its connection, the requests in flight can all be done, and those that
-- are done are then as many as were brought.
drained :
    (c : Connection) (inflight ended : List ℕ)
    → Turns c (draining inflight ended)
    → (all_ended : List ℕ) × Turns c (draining [] all_ended)
      × (length all_ended ≡ length inflight + length ended)
drained c [] ended ts = (ended, ts, omega arith)
drained c (n ∷ inflight) ended ts =
    let (all_ended, more, count) =
      drained c inflight (n ∷ ended) (Turns.then_turn ts (Turn.drain n [] inflight ended)) in
    (all_ended, more, omega (arith, count))
