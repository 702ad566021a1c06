-- ===== src/Node/History/Query.antt =====
-- What a query returns: the newest of the matching records, in the order of time.
use mathlib.Core.List.Perm
use sshe.Protocol.Message.{Record, ProbeKind}
use sshe.Protocol.Limits.{max_history_query}
use sshe.Node.History.{History, place, sort_by_time, matching, query}
use sshe.Prelude.{
  length-drop, take-append-drop, take, ◌-◌, inr, min, inl, refl, leb, suc, ◌++◌, ℕ, arith,
  Bool-cases, ◌≡◌, [], ◌∷◌, String, length, All, Option, ◌≤◌, List,
}
use mathlib.Core.List.{Perm}

module _ {Value : Type 0} where
  abbrev NotAfter : Record Value → Record Value → Type 0
  NotAfter a b = a.observed_at ≤ b.observed_at

  -- Each record is no later than all that follow it.
  abbrev pub Ascending : List (Record Value) → Type 0
  Ascending [] = Unit
  Ascending (r ∷ rs) = All (NotAfter r) rs × Ascending rs

  place-perm : (r : Record Value) (xs : List (Record Value)) → Perm (place r xs) (r ∷ xs)
  unfolding place
  place-perm r [] = Perm.refl (r ∷ [])
  place-perm r (x ∷ xs) = elim (Bool-cases (leb r.observed_at x.observed_at)) [
    | inl before ↦ rw before (Perm.refl (r ∷ x ∷ xs))
    | inr after ↦ rw after (Perm.trans (Perm.cons x (place-perm r xs)) (Perm.swap r x xs))
  ]

  sort_by_time-perm : (xs : List (Record Value)) → Perm (sort_by_time xs) xs
  unfolding sort_by_time
  sort_by_time-perm [] = Perm.refl []
  sort_by_time-perm (r ∷ rs) =
      Perm.trans (place-perm r (sort_by_time rs)) (Perm.cons r (sort_by_time-perm rs))

  All-NotAfter-trans :
      (a b : Record Value) (xs : List (Record Value))
      → NotAfter a b
      → All (NotAfter b) xs
      → All (NotAfter a) xs
  All-NotAfter-trans a b [] h hs = tt
  All-NotAfter-trans a b (x ∷ xs) h hs = (omega arith, All-NotAfter-trans a b xs h hs.1)

  All-place :
      (a r : Record Value) (xs : List (Record Value))
      → NotAfter a r
      → All (NotAfter a) xs
      → All (NotAfter a) (place r xs)
  unfolding place
  All-place a r [] h hs = (h, tt)
  All-place a r (x ∷ xs) h hs = ground (arith, All-place a r xs h hs.1)

  place-Ascending :
      (r : Record Value) (xs : List (Record Value)) → Ascending xs → Ascending (place r xs)
  unfolding place
  place-Ascending r [] h = (tt, tt)
  place-Ascending r (x ∷ xs) h = elim (Bool-cases (leb r.observed_at x.observed_at)) [
    | inl before ↦ rw before ((ground arith, All-NotAfter-trans r x xs (ground arith) h.0), h)
    | inr after ↦ rw after (All-place x r xs (ground arith) h.0, place-Ascending r xs h.1)
  ]

  pub sort_by_time-Ascending : (xs : List (Record Value)) → Ascending (sort_by_time xs)
  unfolding sort_by_time
  sort_by_time-Ascending [] = tt
  sort_by_time-Ascending (r ∷ rs) = place-Ascending r (sort_by_time rs) (sort_by_time-Ascending rs)

  length-place :
      (r : Record Value) (xs : List (Record Value)) → length (place r xs) ≡ suc (length xs)
  unfolding place
  length-place r [] = refl
  length-place r (x ∷ xs) = ground (arith, length-place r xs)

  length-sort_by_time : (xs : List (Record Value)) → length (sort_by_time xs) ≡ length xs
  unfolding sort_by_time
  length-sort_by_time [] = refl
  length-sort_by_time (r ∷ rs) =
      omega (arith, length-place r (sort_by_time rs), length-sort_by_time rs)

  -- A query is the end of the matching records in the order of time: it leaves out none that is
  -- newer than one it returns, and has as many as there are, up to the limit and to 1000.
  pub query_newest :
      (h : History Value) (kind : Option ProbeKind) (about : Option String) (limit : ℕ)
      → (older : List (Record Value)) × Perm
          (older ++ query h kind about limit)
          (matching h kind about)
        × Ascending (older ++ query h kind about limit)
        × (length (query h kind about limit)
            ≡ min (min limit max_history_query) (length (matching h kind about)))
  unfolding query
  query_newest h kind about limit =
      let all = sort_by_time (matching h kind about) in
      let n : ℕ = length all - min limit max_history_query in
      (
        take n all,
        rw (take-append-drop n all) (sort_by_time-perm (matching h kind about)),
        rw (take-append-drop n all) (sort_by_time-Ascending (matching h kind about)),
        omega (arith, length-drop n all, length-sort_by_time (matching h kind about)),
      )
