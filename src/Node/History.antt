-- ===== src/Node/History.antt =====
-- crates/sshe-node/src/history.rs: probe results in memory, bounded for each series.
pub mod Log
pub mod Stored
pub mod Query
pub mod Filter
mod Tests
use Prim.Native.Nat.{compare}
use Prim.Native.String.{compare as compare_text}
use mathlib.Core.List.{flat_map}
use mathlib.Core.Option
use text.Mathlib.TextEquality.{path_by_compare}
use sshe.Prelude.Maps
use sshe.Prelude.Maps.{Key}
use sshe.Protocol.Message.{ProbeKind, Record, host, lan, wan, services, peers}
use sshe.Prelude.{
  true, false, min, is_some_and, ◌||◌, leb, ◌++◌, is_none_or, ◌-◌, str_eq, drop, some, length, none,
  keep, ◌==◌, ◌∷◌, Bool, unwrap_or, last?, max, [], List, arith, if◌then◌else◌, Option, Ordering, ℕ,
  String, ◌≡◌,
}
use sshe.Prelude.Maps.{Key}
use sshe.Protocol.Limits.{max_history_query}

-- `#[derive(Ord)]` on `ProbeKind` compares the places of the constructors.
abbrev pub rank : ProbeKind → ℕ
rank host = 0
rank lan = 1
rank wan = 2
rank services = 3
rank peers = 4

-- kind, method, target
abbrev pub SeriesKey : Type 0
SeriesKey = ProbeKind × String × String

-- Tuples compare lexicographically.
abbrev pub then_cmp : Ordering → Ordering → Ordering
then_cmp Ordering.eq o = o
then_cmp o _ = o

abbrev pub cmp_key : SeriesKey → SeriesKey → Ordering
cmp_key a b =
    then_cmp (compare (rank a.0) (rank b.0))
      (then_cmp (compare_text a.1 b.1) (compare_text a.2 b.2))

pub rank_injective : (a b : ProbeKind) → rank a ≡ rank b → a ≡ b
rank_injective a b h = ground arith

pub cmp_key-eq : (a b : SeriesKey) → cmp_key a b ≡ Ordering.eq → a ≡ b
cmp_key-eq a b h =
    ground (arith, rank_injective a.0 b.0, path_by_compare a.1 b.1, path_by_compare a.2 b.2)

pub cmp_key_self : (a : SeriesKey) → cmp_key a a ≡ Ordering.eq
cmp_key_self a = ground (arith, Maps.compare_self a.1, Maps.compare_self a.2)

instance abbrev pub series_key : Key SeriesKey
series_key = record { cmp = cmp_key; eq_sound = cmp_key-eq; eq_self = cmp_key_self }

pub data Transition : Type 0 where
  first failed unchanged : Transition
  recovered : Option ℕ → Transition

transition_of : Option Bool → Bool → Option ℕ → Transition
transition_of none _ _ = first
transition_of (some true) false _ = failed
transition_of (some false) true last = recovered last
transition_of _ _ _ = unchanged

-- `kind == *k`
abbrev pub same_kind : ProbeKind → ProbeKind → Bool
same_kind a b = rank a == rank b

pub record Series (Value : Type 0) : Type 0 where
  pub records : List (Record Value)
  pub last_success_at : Option ℕ

pub record History (Value : Type 0) : Type 0 where
  pub capacity : ℕ
  pub series : Maps.Map SeriesKey (Series Value)

module _ {Value : Type 0} where
  unfoldable pub new : ℕ → History Value
  new capacity = record { capacity = max capacity 1; series = [] }

  -- `Series Value::default`
  abbrev pub empty_series : Series Value
  empty_series = record { records = []; last_success_at = none }

  abbrev pub key_of : Record Value → SeriesKey
  key_of r = (r.kind, r.method, r.target)

  -- `entry(key).or_default()`, as far as a read of it goes
  unfoldable pub series_at : History Value → SeriesKey → Series Value
  series_at h key = unwrap_or (Maps.get key h.series) empty_series

  -- The record that is stored: `insert` writes its `last_success_at`.
  stamp : Record Value → Option ℕ → Record Value
  stamp r last = record r { last_success_at = if r.success then some r.observed_at else last }

  -- pop_front when full, then push_back
  push : ℕ → Series Value → Record Value → Series Value
  unfolding stamp
  push capacity s r =
      let r' = stamp r s.last_success_at in
      record {
        records = (if length s.records == capacity then drop 1 s.records else s.records) ++ r' ∷ [];
        last_success_at = r'.last_success_at;
      }

  -- The history after the call, the record as the call leaves it, and the transition.
  unfoldable pub insert : History Value → Record Value → History Value × Record Value × Transition
  unfolding push transition_of
  insert h r =
      let s = series_at h (key_of r) in
      (
        record h { series = Maps.insert (key_of r) (push h.capacity s r) h.series },
        stamp r s.last_success_at,
        transition_of (Option.map (λ x. x.success) (last? s.records)) r.success s.last_success_at,
      )

  -- `sort_by_key(|r| r.observed_at)`: stable
  place : Record Value → List (Record Value) → List (Record Value)
  place r [] = r ∷ []
  place r (x ∷ xs) = if leb r.observed_at x.observed_at then r ∷ x ∷ xs else x ∷ place r xs

  unfoldable pub sort_by_time : List (Record Value) → List (Record Value)
  unfolding place
  sort_by_time [] = []
  sort_by_time (r ∷ rs) = place r (sort_by_time rs)

  abbrev is_about : String → Record Value → Bool
  is_about a r = str_eq r.target a || is_some_and (λ l. str_eq l a) r.label

  -- The records that pass both filters, series by series.
  unfoldable pub matching : History Value → Option ProbeKind → Option String → List (Record Value)
  matching h kind about =
      keep (λ r. is_none_or (λ a. is_about a r) about)
        (flat_map (λ e. e.1.records)
          (keep (λ e. is_none_or (λ k. same_kind k e.0.0) kind) h.series))

  unfoldable pub query : History Value → Option ProbeKind → Option String → ℕ → List (Record Value)
  unfolding matching sort_by_time
  query h kind about limit =
      let records = sort_by_time (matching h kind about) in
      drop (length records - min limit max_history_query) records
