-- ===== src/Node/Daemon/Admitted.antt =====
-- How many connections and local requests a daemon works on at a time.
use sshe.Prelude.{
  ltb, if◌then◌else◌, zero, suc, ℕ, List, length, ◌+◌, ◌*◌, ◌≡◌, ◌≤◌, arith, inl, inr, Option-cases,
  [], ◌∷◌, some,
}
use sshe.Node.Daemon.Loop.{Tasks, Turn, initial, turn, turns, admit_peer, admit_local, remove_at}

-- Each slot is free or has a task.
abbrev IsBalanced : ℕ → Tasks → Type 0
IsBalanced max t =
    (t.connection_slots + length t.peers ≡ 64) × (t.local_slots + length t.locals ≡ 2 * max)

length-remove_at : (n : ℕ) (xs ys : List ℕ) → remove_at n xs ≡ some ys → length ys + 1 ≡ length xs
length-remove_at n [] ys h = absurd (ground (arith, h))
length-remove_at zero (x ∷ xs) ys h = ground (arith, h)
length-remove_at (suc n) (x ∷ xs) ys h = elim (Option-cases (remove_at n xs)) [
  | inl lost ↦ absurd (ground (arith, lost, h))
  | inr (rest, found) ↦ ground (arith, found, h, length-remove_at n xs rest found)
]

admit_peer-peers :
    (n : ℕ) (t : Tasks)
    → t.connection_slots + length t.peers ≡ 64
    → (turn (Turn.incoming n) t).peers ≡ (if ltb (length t.peers) 64 then n ∷ t.peers else t.peers)
unfolding turn admit_peer
admit_peer-peers n t balanced = ground (arith, balanced)

admit_local-locals :
    (limit n : ℕ) (t : Tasks)
    → t.local_slots + length t.locals ≡ limit
    → (turn (Turn.accepted n) t).locals
      ≡ (if ltb (length t.locals) limit then n ∷ t.locals else t.locals)
unfolding turn admit_local
admit_local-locals limit n t balanced = ground (arith, balanced)

turn-IsBalanced : (max : ℕ) (x : Turn) (t : Tasks) → IsBalanced max t → IsBalanced max (turn x t)
unfolding turn admit_peer admit_local
turn-IsBalanced max (Turn.incoming n) t balanced = ground (arith, balanced)
turn-IsBalanced max (Turn.accepted n) t balanced = ground (arith, balanced)
turn-IsBalanced max (Turn.peer_joined place) t balanced =
    elim (Option-cases (remove_at place t.peers)) [
      | inl lost ↦ rw (lost, turn) balanced
      | inr (rest, found) ↦
          rw (found, turn)
            (omega (arith, balanced, length-remove_at place t.peers rest found), balanced.1)
    ]
turn-IsBalanced max (Turn.local_joined place) t balanced =
    elim (Option-cases (remove_at place t.locals)) [
      | inl lost ↦ rw (lost, turn) balanced
      | inr (rest, found) ↦
          rw (found, turn)
            (balanced.0, omega (arith, balanced, length-remove_at place t.locals rest found))
    ]
turn-IsBalanced max Turn.scheduler_joined t balanced = balanced

turns-IsBalanced :
    (max : ℕ) (xs : List Turn) (t : Tasks) → IsBalanced max t → IsBalanced max (turns xs t)
unfolding turns
turns-IsBalanced max [] t balanced = balanced
turns-IsBalanced max (x ∷ xs) t balanced =
    turns-IsBalanced max xs (turn x t) (turn-IsBalanced max x t balanced)

-- Whatever a daemon's loop has seen, in any order: at most 64 connections are worked on, and one
-- more is taken on exactly if there are fewer than 64; at most twice `max_concurrent` local ones
-- are, and one more is taken on exactly if there are fewer, however many connections there are.
pub turns-bounded :
    (max : ℕ) (xs : List Turn) (n : ℕ)
    → (length (turns xs (initial max)).peers ≤ 64)
      × ((turn (Turn.incoming n) (turns xs (initial max))).peers ≡ (
          if ltb (length (turns xs (initial max)).peers) 64
          then n ∷ (turns xs (initial max)).peers
          else (turns xs (initial max)).peers))
      × (length (turns xs (initial max)).locals ≤ 2 * max)
      × ((turn (Turn.accepted n) (turns xs (initial max))).locals ≡ (
          if ltb (length (turns xs (initial max)).locals) (2 * max)
          then n ∷ (turns xs (initial max)).locals
          else (turns xs (initial max)).locals))
turns-bounded max xs n =
    let (peers, locals) = turns-IsBalanced max xs (initial max) (omega arith, omega arith) in
    (
      omega (arith, peers),
      admit_peer-peers n (turns xs (initial max)) peers,
      omega (arith, locals),
      admit_local-locals (2 * max) n (turns xs (initial max)) locals,
    )
