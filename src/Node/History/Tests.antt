-- ===== src/Node/History/Tests.antt =====
-- Runs of the history, on the records of the unit tests in crates/sshe-node/src/history.rs.
use sshe.Prelude.Maps
use sshe.Protocol.Message.{peers, Record}
use sshe.Node.History.{
  sort_by_time, place, matching, transition_of, recovered, stamp, push, query, series_at, new,
  insert, SeriesKey,
}
use sshe.Prelude.{
  ◌↔◌, ◌+◌, Option, refl, min, length, [], false, ◌∷◌, ◌++◌, none, true, ◌≡◌, some, Bool, ℕ, String,
  map, List,
}
use sshe.Node.History.Filter.{IsStored, IsIn, query_filtered, IsAbout, IsOfKind}
use sshe.Node.History.Stored.{inserted-Summary, insert-change, inserted}
use mathlib.Core.List.{flat_map, Perm}
use sshe.Node.History.Log.{of_key, stamped, newest}
use sshe.Node.History.Query.{query_newest, Ascending}

abbrev sample : String → ℕ → Bool → Record ℕ
sample target at success = record {
  kind = peers;
  target = target;
  label = none;
  method = "iroh_health";
  observed_at = at;
  duration_ms = 1;
  success = success;
  error = none;
  error_kind = none;
  last_success_at = none;
  payload = none;
}

abbrev outage : List (Record ℕ)
outage = sample "a" 1 true ∷ sample "a" 2 false ∷ sample "a" 3 false ∷ sample "b" 4 true ∷ []

abbrev peer_a : SeriesKey
peer_a = (peers, "iroh_health", "a")

program : Unit {0}
unfolding new series_at insert push stamp transition_of matching query Maps.get Maps.insert flat_map
    place sort_by_time
program = tt

bounded_and_keeps_last_success :
    map {B = ℕ × Option ℕ}
      (λ r. (r.observed_at, r.last_success_at))
      (query (inserted (new 2) outage) none (some "a") 10)
    ≡ (2, some 1) ∷ (3, some 1) ∷ []
unfolding program
bounded_and_keeps_last_success = refl

latest_two : map (λ r. r.observed_at) (query (inserted (new 2) outage) none none 2) ≡ 3 ∷ 4 ∷ []
unfolding program
latest_two = refl

recovery : (insert (inserted (new 2) outage) (sample "a" 5 true)).2 ≡ recovered (some 1)
unfolding program
recovery = refl

inserted-Summary_example :
    ((series_at (inserted (new 2) outage) peer_a).records
      ≡ newest 2 (stamped none (of_key peer_a outage)))
    × ((series_at (inserted (new 2) outage) peer_a).last_success_at ≡ some 1)
inserted-Summary_example = inserted-Summary 2 outage peer_a

insert-change_example :
    ((insert (inserted (new 2) outage) (sample "a" 5 true)).2 ≡ recovered (some 1))
    × ((insert (inserted (new 2) outage) (sample "a" 5 true)).1
        ≡ record (sample "a" 5 true) { last_success_at = some 5 })
insert-change_example = insert-change 2 outage (sample "a" 5 true)

query_newest_example :
    (older : List (Record ℕ)) × Perm
      (older ++ query (inserted (new 2) outage) none none 2)
      (matching (inserted (new 2) outage) none none)
    × Ascending (older ++ query (inserted (new 2) outage) none none 2)
    × (length (query (inserted (new 2) outage) none none 2)
        ≡ min 2 (length (matching (inserted (new 2) outage) none none)))
query_newest_example = query_newest (inserted (new 2) outage) none none 2

query_filtered_example :
    (older : List (Record ℕ)) × Ascending
      (older ++ query (inserted (new 2) outage) (some peers) (some "a") 5)
    × (length (query (inserted (new 2) outage) (some peers) (some "a") 5)
        ≡ min 5 (length older + length (query (inserted (new 2) outage) (some peers) (some "a") 5)))
    × ((r : Record ℕ)
        → IsIn r (older ++ query (inserted (new 2) outage) (some peers) (some "a") 5)
          ↔ (IsStored (inserted (new 2) outage) r × IsOfKind (some peers) r × IsAbout (some "a") r))
query_filtered_example = query_filtered 2 outage (some peers) (some "a") 5
