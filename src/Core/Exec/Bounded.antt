-- ===== src/Core/Exec/Bounded.antt =====
-- What bounds a command: its time, its output and the life of its process group.
use sshe.Prelude.{
  refl, Result-cases, ◌&&◌, ◌*◌, String, min, inr, inl, ◌+◌, leb, take, arith, Bool-cases, ◌++◌,
  ◌≤◌, ◌⊎◌, map_ok, err, ok, Option, ℕ, Result, length, List, ◌≡◌, [], ◌∷◌, none, some,
}
use sshe.Io.{IoError}
use sshe.Protocol.Message.{ExecResult}
use sshe.Protocol.Limits.{output_limit, max_exec_seconds}
use sshe.Core.Error.{Error}
use sshe.Core.Exec.{
  result_of, note, execute, supervise, exited, outputs, limited, try_join, read_output,
  within_limit, Os, Run, Future, Status, spawned, killed,
}
use mathlib.Core.List.{append_assoc}

-- The result, if there is one, has this property.
abbrev pub Ensures : {A : Type 0} → (A → Type 0) → Result Error A → Type 0
Ensures P (ok a) = P a
Ensures P (err e) = Unit

abbrev EnsuresAt : {A : Type 0} → (A → Type 0) → Future A → Type 0
EnsuresAt P none = Unit
EnsuresAt P (some (at, r)) = Ensures P r

abbrev IsSmall : List ℕ → Type 0
IsSmall bytes = length bytes ≤ output_limit

-- At most 256 KiB on either stream.
abbrev pub Fits : ExecResult → Type 0
Fits r = (length r.stdout ≤ 262144) × (length r.stderr ≤ 262144)

within_limit-IsSmall : (r : Result IoError (List ℕ)) → Ensures IsSmall (within_limit r)
unfolding within_limit
within_limit-IsSmall (err e) = tt
within_limit-IsSmall (ok bytes) = ground arith

read_output-IsSmall : (r : Option (ℕ × Result IoError (List ℕ))) → EnsuresAt IsSmall (read_output r)
unfolding read_output
read_output-IsSmall none = tt
read_output-IsSmall (some (at, r)) = within_limit-IsSmall (map_ok (take (output_limit + 1)) r)

try_join-Ensures :
    {A B : Type 0} (P : A → Type 0) (Q : B → Type 0) (f : Future A) (g : Future B)
    → EnsuresAt P f
    → EnsuresAt Q g
    → EnsuresAt (λ p. P p.0 × Q p.1) (try_join f g)
unfolding try_join
try_join-Ensures P Q none none p q = tt
try_join-Ensures P Q none (some (at, err e)) p q = tt
try_join-Ensures P Q none (some (at, ok b)) p q = tt
try_join-Ensures P Q (some (at, err e)) none p q = tt
try_join-Ensures P Q (some (at, ok a)) none p q = tt
try_join-Ensures P Q (some (at, ok a)) (some (at', ok b)) p q = (p, q)
try_join-Ensures P Q (some (at, ok a)) (some (at', err e)) p q = tt
try_join-Ensures P Q (some (at, err e)) (some (at', ok b)) p q = tt
try_join-Ensures P Q (some (at, err e)) (some (at', err f)) p q = ground arith

any-Ensures : {A : Type 0} (f : Future A) → EnsuresAt (λ a. Unit) f
any-Ensures none = tt
any-Ensures (some (at, ok a)) = tt
any-Ensures (some (at, err e)) = tt

limited-Ensures :
    {A : Type 0} (P : A → Type 0) (limit : ℕ) (f : Future A)
    → EnsuresAt P f
    → Ensures P (limited limit f).1
unfolding limited
limited-Ensures P limit none p = tt
limited-Ensures P limit (some (at, r)) p = elim (Bool-cases (leb at limit)) [
  | inl early ↦ rw early p
  | inr late ↦ rw late tt
]

pub limited_le : {A : Type 0} (limit : ℕ) (f : Future A) → (limited limit f).0 ≤ limit
unfolding limited
limited_le limit none = omega arith
limited_le limit (some (at, r)) = ground arith

map_ok-Ensures :
    {A B : Type 0} (P : A → Type 0) (Q : B → Type 0) (f : A → B) (r : Result Error A)
    → ((a : A) → P a → Q (f a))
    → Ensures P r
    → Ensures Q (map_ok f r)
map_ok-Ensures P Q f (ok a) h p = h a p
map_ok-Ensures P Q f (err e) h p = tt

module _ (os : Os) where
  abbrev SmallPair : (List ℕ × List ℕ) × Status → Type 0
  SmallPair p = (IsSmall p.0.0 × IsSmall p.0.1) × Unit

  outputs-SmallPair : (w : os.World) (c : os.Child) → EnsuresAt SmallPair (outputs os w c)
  unfolding outputs
  outputs-SmallPair w c =
      try_join-Ensures (λ p. IsSmall p.0 × IsSmall p.1) (λ s. Unit) _ (exited (os.wait w c))
        (try_join-Ensures IsSmall IsSmall _ _ (read_output-IsSmall _) (read_output-IsSmall _))
        (any-Ensures _)

  -- Nothing was started, or one child was, and its group was killed at the end.
  abbrev pub Bracketed : Run os → Run os → Type 0
  Bracketed s s' =
      (s'.trace ≡ s.trace) ⊎ ((c : os.Child) × (s'.trace ≡ s.trace ++ spawned c ∷ killed c ∷ []))

  -- time, output and process group
  abbrev pub Bounded : ℕ → Run os → (ℕ × Result Error ExecResult) × Run os → Type 0
  Bounded timeout_secs s out =
      (out.0.0 ≤ min timeout_secs 60 * 1000) × Ensures Fits out.0.1 × Bracketed s out.1

  supervise-Bounded :
      (c : os.Child) (timeout_secs : ℕ) (s : Run os)
      → timeout_secs ≤ 60
      → Bounded timeout_secs s (supervise os c timeout_secs (note os (spawned c) s))
  unfolding supervise note
  supervise-Bounded c timeout_secs s few =
      let f = outputs os s.world c in
      let fits = limited-Ensures SmallPair (timeout_secs * 1000) f (outputs-SmallPair s.world c) in
      (
        omega (arith, few, limited_le (timeout_secs * 1000) f),
        map_ok-Ensures SmallPair Fits (result_of os (limited (timeout_secs * 1000) f).0) _
            (λ p small. small.0) fits,
        inr (c, append_assoc s.trace (spawned c ∷ []) (killed c ∷ [])),
      )

  -- A command is over within its timeout, and within a minute in any case: whatever it does, its
  -- result holds at most 256 KiB of each output, and if it was started then its process group is
  -- killed at the end, on success, errors and timeout alike.
  pub execute-Bounded :
      (program : String) (args : List String) (timeout_secs : ℕ) (s : Run os)
      → Bounded timeout_secs s (execute os program args timeout_secs s)
  unfolding execute
  execute-Bounded program args timeout_secs s =
      elim (Bool-cases (leb 1 timeout_secs && leb timeout_secs max_exec_seconds)) [
        | inr bad ↦ rw (bad, execute) (omega arith, tt, inl refl)
        | inl good ↦
            let few : timeout_secs ≤ 60 = ground (arith, good) in
            let (r, w) = os.spawn s.world program args in
            elim (Result-cases (os.spawn s.world program args).0) [
              | inr (e, failed) ↦
                  rw (good, execute) (rw (failed, execute) (omega arith, tt, inl refl))
              | inl (c, started) ↦
                  rw (good, execute)
                    (rw (started, execute)
                      (supervise-Bounded c timeout_secs
                        (record s { world = (os.spawn s.world program args).1 }) few))
            ]
      ]
