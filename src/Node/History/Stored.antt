-- ===== src/Node/History/Stored.antt =====
-- What a history holds after any sequence of insertions, read off the log of all of them.
use mathlib.Core.Option
use sshe.Prelude.Maps
use sshe.Protocol.Message.{Record}
use sshe.Node.History.{
  History, Series, SeriesKey, key_of, series_key, series_at, insert, new, push, stamp,
  transition_of,
}
use sshe.Node.History.Log.{
  last?-newest, change, of_key-snoc_ne, of_key-snoc_self, latest, newest-snoc, stamped-snoc,
  newest_success-snoc, of_key, stamped, newest, newest_success,
}
use sshe.Prelude.{
  last?, Option, ◌∙◌, subst, max, inr, ◌-◌, drop-nil, inl, Bool-cases, sym, arith, none, ◌∷◌,
  if◌then◌else◌, [], ◌++◌, ◌≤◌, refl, ℕ, ◌≡◌, List,
}
use mathlib.Core.List.{append_assoc, append-nil}

module _ {Value : Type 0} where
  -- A series against the log of its key: the newest records, at most `n`, each with the newest
  -- success up to it, and the newest success of all of them.
  abbrev pub Summary : ℕ → Series Value → List (Record Value) → Type 0
  Summary n s log =
      (s.records ≡ newest n (stamped none log)) × (s.last_success_at ≡ newest_success none log)

  pub record Represents (h : History Value) (log : List (Record Value)) : Type 0 where
    pub bound : 1 ≤ h.capacity
    pub at : (k : SeriesKey) → Summary h.capacity (series_at h k) (of_key k log)

  new-Represents : (n : ℕ) → Represents (new n) []
  unfolding new series_at Maps.get
  new-Represents n = record { bound = omega arith; at = λ k. (sym (drop-nil (0 - max n 1)), refl) }

  pub capacity-insert :
      (h : History Value) (r : Record Value) → (insert h r).0.capacity ≡ h.capacity
  unfolding insert
  capacity-insert h r = refl

  -- Only the record's own series changes.
  series_at-insert :
      (h : History Value) (r : Record Value) (k : SeriesKey)
      → series_at (insert h r).0 k ≡ (
          if Maps.same_key k (key_of r)
          then push h.capacity (series_at h (key_of r)) r
          else series_at h k)
  unfolding insert series_at
  series_at-insert h r k = rw Maps.get-insert (ground arith)

  push-Summary :
      (n : ℕ) (s : Series Value) (log : List (Record Value)) (r : Record Value)
      → 1 ≤ n
      → Summary n s log
      → Summary n (push n s r) (log ++ r ∷ [])
  unfolding push stamp
  push-Summary n s log r h (held, success) =
      rw
        (
          newest_success-snoc none log r,
          stamped-snoc none log r,
          newest-snoc n (stamped none log)
              (record r { last_success_at = latest (newest_success none log) r }) h,
          held,
          success,
        )
        (refl, refl)

  module _ (h : History Value) (log : List (Record Value)) (r : Record Value)
      (v : Represents h log) where
    abbrev Extended : SeriesKey → Type 0
    Extended k = Summary h.capacity (series_at (insert h r).0 k) (of_key k (log ++ r ∷ []))

    own_series : Extended (key_of r)
    own_series =
        rw
          (
            series_at-insert,
            Maps.same_key_self (key_of r),
            of_key-snoc_self (key_of r) log r (Maps.same_key_self (key_of r)),
          )
          (push-Summary h.capacity (series_at h (key_of r)) (of_key (key_of r) log) r v.bound
            (v.at (key_of r)))

    each_series : (k : SeriesKey) → Extended k
    each_series k = elim (Bool-cases (Maps.same_key k (key_of r))) [
      | inl own ↦ subst Extended (sym (Maps.same_key→eq k (key_of r) own)) own_series
      | inr other ↦ rw (series_at-insert, other, of_key-snoc_ne k log r other) (v.at k)
    ]

    -- One insertion is one more record in the log.
    insert-Represents : Represents (insert h r).0 (log ++ r ∷ [])
    insert-Represents = record {
      bound = rw capacity-insert v.bound;
      at = λ k. rw capacity-insert (each_series k);
    }

  -- The daemon's records in the order of their insertion.
  abbrev pub inserted : History Value → List (Record Value) → History Value
  inserted h [] = h
  inserted h (r ∷ rs) = inserted (insert h r).0 rs

  inserted-Represents :
      (h : History Value) (log rs : List (Record Value))
      → Represents h log
      → Represents (inserted h rs) (log ++ rs)
  inserted-Represents h log [] v = rw append-nil v
  inserted-Represents h log (r ∷ rs) v =
      subst (Represents (inserted (insert h r).0 rs)) (append_assoc log (r ∷ []) rs)
        (inserted-Represents (insert h r).0 (log ++ r ∷ []) rs (insert-Represents h log r v))

  capacity-inserted :
      (h : History Value) (rs : List (Record Value)) → (inserted h rs).capacity ≡ h.capacity
  capacity-inserted h [] = refl
  capacity-inserted h (r ∷ rs) = capacity-inserted (insert h r).0 rs ∙ capacity-insert h r

  capacity-inserted-new :
      (n : ℕ) (log : List (Record Value)) → (inserted (new n) log).capacity ≡ max n 1
  unfolding new
  capacity-inserted-new n log = capacity-inserted (new n) log

  -- After any insertions into a new history, each series holds the newest records of its key, at
  -- most the capacity and at least one, each stamped with the newest success up to it; and it
  -- knows the newest success of all its records, those that the bound has dropped included.
  pub inserted-Summary :
      (n : ℕ) (log : List (Record Value)) (k : SeriesKey)
      → ((series_at (inserted (new n) log) k).records
          ≡ newest (max n 1) (stamped none (of_key k log)))
        × ((series_at (inserted (new n) log) k).last_success_at
            ≡ newest_success none (of_key k log))
  inserted-Summary n log k =
      let v = inserted-Represents (new n) [] log (new-Represents n) in
      subst (λ c. Summary c (series_at (inserted (new n) log) k) (of_key k log))
        (capacity-inserted-new n log) (v.at k)

  change_by_status :
      (o : Option (Record Value)) (r : Record Value) (last : Option ℕ)
      → transition_of (Option.map (λ x. x.success) o) r.success last ≡ change o r last
  unfolding transition_of
  change_by_status o r last = ground arith

  -- What an insertion reports, after any others: how the record changes the status of its key,
  -- judged by the newest earlier record of that key, with the newest earlier success on a
  -- recovery; and the record comes back with the newest success, its own included.
  pub insert-change :
      (n : ℕ) (log : List (Record Value)) (r : Record Value)
      → let earlier = of_key (key_of r) log in
        let (h, r', transition) = insert (inserted (new n) log) r in
        (transition ≡ change (last? earlier) r (newest_success none earlier))
        × (r' ≡ record r { last_success_at = newest_success none (earlier ++ r ∷ []) })
  unfolding insert stamp
  insert-change n log r =
      let v = inserted-Represents (new n) [] log (new-Represents n) in
      let (held, success) = v.at (key_of r) in
      rw
        (
          held,
          success,
          last?-newest (inserted (new n) log).capacity (of_key (key_of r) log) v.bound,
        )
        (
          change_by_status (last? (of_key (key_of r) log)) r
              (newest_success none (of_key (key_of r) log)),
          rw (newest_success-snoc none (of_key (key_of r) log) r),
        )
