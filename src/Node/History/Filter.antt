-- ===== src/Node/History/Filter.antt =====
-- Which records a query returns: those of the asked kind that are about the asked name.
use sshe.Prelude.Maps
use sshe.Protocol.Message.{Record, ProbeKind}
use sshe.Node.History.{
  rank, stamp, rank_injective, sort_by_time, is_about, push, place, series_key, same_kind, matching,
  series_at, History, Series, SeriesKey, key_of, new, insert, query,
}
use sshe.Node.History.Stored.{inserted}
use sshe.Prelude.{
  length-take, length-drop, take-append-drop, take, ◌-◌, ◌+◌, min, ◌++◌, subst, ◌↔◌, refl, drop,
  All-append, ◌==◌, str_eq_iff, sym, length, ◌∙◌, arith, ap, All-drop, Bool-cases, inr, keep, ◌⊎◌,
  none, [], true, inl, String, ◌∷◌, ℕ, some, ◌≡◌, Option-cases, is_none_or, Bool, Option, List, All,
}
use mathlib.Core.List.{flat_map}
use sshe.Node.History.Query.{sort_by_time-Ascending, Ascending}

same_kind→eq : (a b : ProbeKind) → same_kind a b ≡ true → a ≡ b
same_kind→eq a b h = rank_injective a b (ground arith)

-- An element of a list.
abbrev pub IsIn : {A : Type 0} → A → List A → Type 0
IsIn a [] = ⊥
IsIn a (x ∷ xs) = (a ≡ x) ⊎ IsIn a xs

IsIn-All : {A : Type 0} (P : A → Type 0) (a : A) (xs : List A) → All P xs → IsIn a xs → P a
IsIn-All P a [] h there = absurd there
IsIn-All P a (x ∷ xs) h (inl same) = subst P (sym same) h.0
IsIn-All P a (x ∷ xs) h (inr there) = IsIn-All P a xs h.1 there

IsIn-append : {A : Type 0} (a : A) (xs ys : List A) → IsIn a (xs ++ ys) ↔ (IsIn a xs ⊎ IsIn a ys)
IsIn-append a [] ys = ((λ h. inr h), λ h. elim h [ inl never ↦ absurd never | inr there ↦ there ])
IsIn-append a (x ∷ xs) ys = ground (arith, IsIn-append a xs ys)

IsIn-keep :
    {A : Type 0} (p : A → Bool) (a : A) (xs : List A)
    → IsIn a (keep p xs) ↔ (IsIn a xs × (p a ≡ true))
IsIn-keep p a [] = ((λ h. absurd h), λ h. h.0)
IsIn-keep p a (x ∷ xs) = ground (arith, IsIn-keep p a xs)

module _ {Value : Type 0} where
  abbrev KeyedBy : SeriesKey × Series Value → Type 0
  KeyedBy e = All (λ r. key_of r ≡ e.0) e.1.records

  -- Each series holds records of its own key.
  abbrev IsKeyed : History Value → Type 0
  IsKeyed h = All KeyedBy h.series

  series_at-KeyedBy : (h : History Value) (k : SeriesKey) → IsKeyed h → KeyedBy (k, series_at h k)
  unfolding series_at
  series_at-KeyedBy h k v = elim (Option-cases (Maps.get k h.series)) [
    | inl e ↦ rw e tt
    | inr (s, e) ↦ rw e (Maps.All-get KeyedBy k s h.series v e)
  ]

  push-KeyedBy :
      (n : ℕ) (s : Series Value) (r : Record Value)
      → KeyedBy (key_of r, s)
      → KeyedBy (key_of r, push n s r)
  unfolding push stamp
  push-KeyedBy n s r v = elim (Bool-cases (length s.records == n)) [
    | inl full ↦ rw full (All-append _ (drop 1 s.records) _ (All-drop _ 1 s.records v) (refl, tt))
    | inr room ↦ rw room (All-append _ s.records _ v (refl, tt))
  ]

  insert-IsKeyed : (h : History Value) (r : Record Value) → IsKeyed h → IsKeyed (insert h r).0
  unfolding insert
  insert-IsKeyed h r v =
      Maps.All-insert KeyedBy (key_of r) _ h.series
        (push-KeyedBy h.capacity (series_at h (key_of r)) r (series_at-KeyedBy h (key_of r) v)) v

  inserted-IsKeyed :
      (h : History Value) (rs : List (Record Value)) → IsKeyed h → IsKeyed (inserted h rs)
  inserted-IsKeyed h [] v = v
  inserted-IsKeyed h (r ∷ rs) v = inserted-IsKeyed (insert h r).0 rs (insert-IsKeyed h r v)

  abbrev pub IsOfKind : Option ProbeKind → Record Value → Type 0
  IsOfKind none r = Unit
  IsOfKind (some k) r = r.kind ≡ k

  abbrev pub IsAbout : Option String → Record Value → Type 0
  IsAbout none r = Unit
  IsAbout (some a) r = (r.target ≡ a) ⊎ (r.label ≡ some a)

  IsOfKind-iff :
      (kind : Option ProbeKind) (k : SeriesKey) (r : Record Value)
      → key_of r ≡ k
      → (is_none_or (λ a. same_kind a k.0) kind ≡ true) ↔ IsOfKind kind r
  IsOfKind-iff none k r same = ((λ h. tt), λ h. refl)
  IsOfKind-iff (some a) k r same = (
    (λ h. ap (λ j. j.0) same ∙ sym (same_kind→eq a k.0 h)),
    λ h. ground (arith, ap (λ j. rank j.0) same, ap rank h),
  )

  IsAbout-iff :
      (about : Option String) (r : Record Value)
      → (is_none_or (λ a. is_about a r) about ≡ true) ↔ IsAbout about r
  IsAbout-iff none r = ((λ h. tt), λ h. refl)
  IsAbout-iff (some a) r = elim (Option-cases r.label) [
    | inl e ↦ ground (arith, str_eq_iff r.target a)
    | inr (l, e) ↦ ground (arith, str_eq_iff r.target a, str_eq_iff l a)
  ]

  -- It is in one of the series.
  abbrev pub IsStored : History Value → Record Value → Type 0
  IsStored h r = (e : SeriesKey × Series Value) × IsIn e h.series × IsIn r e.1.records

  IsIn-flat_map :
      (r : Record Value) (es : List (SeriesKey × Series Value))
      → IsIn r (flat_map (λ e. e.1.records) es)
        ↔ ((e : SeriesKey × Series Value) × IsIn e es × IsIn r e.1.records)
  unfolding flat_map
  IsIn-flat_map r [] = ((λ h. absurd h), λ (e, never, there). never)
  IsIn-flat_map r (e ∷ es) =
      let split = IsIn-append r e.1.records (flat_map (λ e. e.1.records) es) in
      let rest = IsIn-flat_map r es in
      (
        λ h. elim (split.0 h) [
          | inl here ↦ (e, inl refl, here)
          | inr there ↦ let (e', at, within) = rest.0 there in (e', inr at, within)
        ],
        λ (e', at, within). split.1 (elim at [
          | inl same ↦ inl (subst (λ x. IsIn r x.1.records) same within)
          | inr there ↦ inr (rest.1 (e', there, within))
        ]),
      )

  IsIn-place :
      (r a : Record Value) (xs : List (Record Value)) → IsIn r (place a xs) ↔ ((r ≡ a) ⊎ IsIn r xs)
  unfolding place
  IsIn-place r a [] = ground arith
  IsIn-place r a (x ∷ xs) = ground (arith, IsIn-place r a xs)

  IsIn-sort_by_time :
      (r : Record Value) (xs : List (Record Value)) → IsIn r (sort_by_time xs) ↔ IsIn r xs
  unfolding sort_by_time
  IsIn-sort_by_time r [] = ground arith
  IsIn-sort_by_time r (x ∷ xs) =
      ground (arith, IsIn-place r x (sort_by_time xs), IsIn-sort_by_time r xs)

  matching_iff :
      (h : History Value) (kind : Option ProbeKind) (about : Option String) (r : Record Value)
      → IsKeyed h
      → IsIn r (matching h kind about) ↔ (IsStored h r × IsOfKind kind r × IsAbout about r)
  unfolding matching
  matching_iff h kind about r v =
      let of_kind : SeriesKey × Series Value → Bool =
        λ e. is_none_or (λ k. same_kind k e.0.0) kind in
      let named = IsAbout-iff about r in
      let kept =
        IsIn-keep (λ r. is_none_or (λ a. is_about a r) about) r
          (flat_map (λ e. e.1.records) (keep of_kind h.series)) in
      let flat = IsIn-flat_map r (keep of_kind h.series) in
      let keyed : (e : SeriesKey × Series Value)
          → IsIn e h.series
          → IsIn r e.1.records
          → key_of r ≡ e.0 =
        λ e at within.
          IsIn-All (λ r. key_of r ≡ e.0) r e.1.records (IsIn-All KeyedBy e h.series v at) within in
      (
        λ there.
            let (stored, is) = kept.0 there in
            let (e, at, within) = flat.0 stored in
            let (at', on) = (IsIn-keep of_kind e h.series).0 at in
            ((e, at', within), (IsOfKind-iff kind e.0 r (keyed e at' within)).0 on, named.0 is),
        λ ((e, at, within), of, is). kept.1 (
          flat.1 (
            e,
            (IsIn-keep of_kind e h.series).1
                (at, (IsOfKind-iff kind e.0 r (keyed e at within)).1 of),
            within,
          ),
          named.1 is,
        ),
      )

  -- After any insertions, the records that a query returns, and the older ones that it leaves out,
  -- are exactly those that are stored, of the asked kind and about the asked name, by their target or
  -- by their label. They are in the order of time, and the query returns as many of the end as the
  -- limit and 1000 allow: all of them if they fit.
  pub query_filtered :
      (n : ℕ) (log : List (Record Value)) (kind : Option ProbeKind) (about : Option String)
      (limit : ℕ)
      → let h = inserted (new n) log in
        let found = query h kind about limit in
        (older : List (Record Value)) × Ascending (older ++ found)
        × (length found ≡ min (min limit 1000) (length older + length found))
        × ((r : Record Value)
            → IsIn r (older ++ found) ↔ (IsStored h r × IsOfKind kind r × IsAbout about r))
  unfolding query new
  query_filtered n log kind about limit =
      let h = inserted (new n) log in
      let all = sort_by_time (matching h kind about) in
      let keeps : ℕ = length all - min limit 1000 in
      (
        take keeps all,
        rw (take-append-drop keeps all) (sort_by_time-Ascending (matching h kind about)),
        omega (arith, length-drop keeps all, length-take keeps all),
        λ r. rw (take-append-drop keeps all) (
            let sorted = IsIn-sort_by_time r (matching h kind about) in
            let found = matching_iff h kind about r (inserted-IsKeyed (new n) log tt) in
            ((λ there. found.0 (sorted.0 there)), λ w. sorted.1 (found.1 w))),
      )
