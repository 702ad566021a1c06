-- ===== src/Node/History/Log.antt =====
-- The abstract view of a history: the list of all records ever inserted, oldest first. A series
-- of the history is what this log says of one key.
use native.Mathlib.Decide.{dec_lt}
use mathlib.Core.Option
use sshe.Prelude.Maps
use sshe.Protocol.Message.{Record}
use sshe.Node.History.{
  recovered, failed, unchanged, first, Transition, SeriesKey, key_of, series_key,
}
use sshe.Prelude.{
  drop-nil, last?-drop, last?, none, ==_iff, drop-append, drop-suc, length-append, length-drop,
  refl, arith, ◌==◌, suc, some, ap, ◌-◌, true, false, [], if◌then◌else◌, min, length, ◌++◌, ◌≤◌,
  ◌∷◌, keep, drop, ◌≡◌, Option, List, ℕ,
}

module _ {Value : Type 0} where
  -- The records of the log with one key.
  abbrev pub of_key : SeriesKey → List (Record Value) → List (Record Value)
  of_key k = keep (λ r. Maps.same_key k (key_of r))

  -- The newest success after one more record.
  abbrev pub latest : Option ℕ → Record Value → Option ℕ
  latest last r = if r.success then some r.observed_at else last

  -- The time of the newest success, or `last` where there is none.
  abbrev pub newest_success : Option ℕ → List (Record Value) → Option ℕ
  newest_success last [] = last
  newest_success last (r ∷ rs) = newest_success (latest last r) rs

  -- Each record with the newest success up to it, itself included.
  abbrev pub stamped : Option ℕ → List (Record Value) → List (Record Value)
  stamped last [] = []
  stamped last (r ∷ rs) = record r { last_success_at = latest last r } ∷ stamped (latest last r) rs

  abbrev pub newest : ℕ → List (Record Value) → List (Record Value)
  newest n xs = drop (length xs - n) xs

  pub newest_success-snoc :
      (last : Option ℕ) (xs : List (Record Value)) (r : Record Value)
      → newest_success last (xs ++ r ∷ []) ≡ latest (newest_success last xs) r
  newest_success-snoc last [] r = refl
  newest_success-snoc last (x ∷ xs) r = newest_success-snoc (latest last x) xs r

  pub stamped-snoc :
      (last : Option ℕ) (xs : List (Record Value)) (r : Record Value)
      → stamped last (xs ++ r ∷ [])
        ≡ stamped last xs ++ record r { last_success_at = latest (newest_success last xs) r } ∷ []
  stamped-snoc last [] r = refl
  stamped-snoc last (x ∷ xs) r =
      ap (◌∷◌ (record x { last_success_at = latest last x })) (stamped-snoc (latest last x) xs r)

  pub length-stamped :
      (last : Option ℕ) (xs : List (Record Value)) → length (stamped last xs) ≡ length xs
  length-stamped last [] = refl
  length-stamped last (x ∷ xs) = ap suc (length-stamped (latest last x) xs)

  pub of_key-snoc_self :
      (k : SeriesKey) (xs : List (Record Value)) (r : Record Value)
      → Maps.same_key k (key_of r) ≡ true
      → of_key k (xs ++ r ∷ []) ≡ of_key k xs ++ r ∷ []
  of_key-snoc_self k [] r h = rw h
  of_key-snoc_self k (x ∷ xs) r h = ground (arith, of_key-snoc_self k xs r h)

  pub of_key-snoc_ne :
      (k : SeriesKey) (xs : List (Record Value)) (r : Record Value)
      → Maps.same_key k (key_of r) ≡ false
      → of_key k (xs ++ r ∷ []) ≡ of_key k xs
  of_key-snoc_ne k [] r h = rw h
  of_key-snoc_ne k (x ∷ xs) r h = ground (arith, of_key-snoc_ne k xs r h)

  pub length-newest : (n : ℕ) (xs : List (Record Value)) → length (newest n xs) ≡ min n (length xs)
  length-newest n xs = omega (arith, length-drop (length xs - n) xs)

  -- Keeping the newest `n` after each new record keeps the newest `n` of all.
  pub newest-snoc :
      (n : ℕ) (xs : List (Record Value)) (r : Record Value)
      → 1 ≤ n
      → newest n (xs ++ r ∷ [])
        ≡ (if length (newest n xs) == n then drop 1 (newest n xs) else newest n xs) ++ r ∷ []
  newest-snoc n xs r h = elim (dec_lt (length xs) n) [
    | yes short ↦
        let e : length xs - n ≡ 0 = omega arith in
        let e' : length (xs ++ r ∷ []) - n ≡ 0 = omega (arith, length-append xs (r ∷ [])) in
        rw (e, e') (ground arith)
    | no long ↦
        let k : ℕ = length xs - n in
        let e : length (xs ++ r ∷ []) - n ≡ suc k = omega (arith, length-append xs (r ∷ [])) in
        let full : length (newest n xs) ≡ n = omega (arith, length-newest n xs) in
        rw (
          e,
          drop-suc k (xs ++ r ∷ []),
          drop-append k xs (r ∷ []) (omega arith),
          drop-append 1 (drop k xs) (r ∷ []) (omega (arith, length-drop k xs)),
          (==_iff (length (newest n xs)) n).1 full,
        )
  ]

  -- What a record tells about a target after the one before it.
  abbrev pub change : Option (Record Value) → Record Value → Option ℕ → Transition
  change none r last = first
  change (some p) r last =
      if p.success
      then (if r.success then unchanged else failed)
      else (if r.success then recovered last else unchanged)

  last?-stamped :
      (last : Option ℕ) (xs : List (Record Value))
      → Option.map (λ x. x.success) (last? (stamped last xs))
        ≡ Option.map (λ x. x.success) (last? xs)
  last?-stamped last [] = refl
  last?-stamped last (x ∷ []) = refl
  last?-stamped last (x ∷ y ∷ xs) = last?-stamped (latest last x) (y ∷ xs)

  -- The bound keeps the newest status.
  pub last?-newest :
      (n : ℕ) (xs : List (Record Value))
      → 1 ≤ n
      → Option.map (λ x. x.success) (last? (newest n (stamped none xs)))
        ≡ Option.map (λ x. x.success) (last? xs)
  last?-newest n [] h = rw (drop-nil (0 - n))
  last?-newest n (x ∷ xs) h =
      rw (last?-drop (length (stamped none (x ∷ xs)) - n) (stamped none (x ∷ xs)) (omega arith))
        (last?-stamped none (x ∷ xs))
