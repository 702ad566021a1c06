-- ===== src/Core/Probe/Coherent.antt =====
-- What the records of a group of checks promise, whatever the network and the commands do.
use mathlib.Core.List.{map-append}
use sshe.Prelude.Maps
use sshe.Prelude.{
  ℕ, List, Option, String, ◌≡◌, ◌≤◌, ◌++◌, All, All-append, Result, arith, refl, map, is_none,
  is_some, if◌then◌else◌, max, [], ◌∷◌, none, some, ok, err,
}
use sshe.Protocol.Message.{ProbeKind, Record}
use sshe.Core.Config.{NetworkTargets}
use sshe.Core.Probe.{
  record_of, Timed, Outside, Classify, timed, join_all, outcome, measure, network, services,
  check_domain, check_tcp, check_service, core_errors,
}
use sshe.Core.Probe.Host.{Machine, host_probe, host_future}

-- what a record is about: its label and its target
abbrev pub Subject : Type 0
Subject = Option String × String

module _ {Value : Type 0} where
  -- Success is the absence of an error; an error has a kind and leaves no payload.
  abbrev pub IsCoherent : ProbeKind → ℕ → Record Value → Type 0
  IsCoherent kind limit r =
      (r.kind ≡ kind)
      × (r.duration_ms ≤ limit)
      × (r.success ≡ is_none r.error)
      × (is_some r.error_kind ≡ is_some r.error)
      × (r.last_success_at ≡ (if r.success then some r.observed_at else none))
      × (r.payload ≡ (if r.success then r.payload else none))

  abbrev pub subject : Record Value → Subject
  subject r = (r.label, r.target)

  -- One coherent record for each subject, in order, within the limit.
  abbrev pub IsGroup : ProbeKind → ℕ → List Subject → ℕ × List (Record Value) → Type 0
  IsGroup kind limit subjects (at, records) =
      (at ≤ limit) × All (IsCoherent kind limit) records × (map subject records ≡ subjects)

  abbrev IsCheck : ProbeKind → ℕ → Subject → ℕ × Record Value → Type 0
  IsCheck kind limit s (at, r) = (at ≤ limit) × IsCoherent kind limit r × (subject r ≡ s)

timed_le : {A : Type 0} (limit : ℕ) (f : Timed A) → (timed limit f).0 ≤ limit
unfolding timed
timed_le limit none = omega arith
timed_le limit (some (at, a)) = ground arith

module _ {Value E : Type 0} (classify : Classify E) (now : ℕ → ℕ) (kind : ProbeKind)
    (target : String) (label : Option String) (method : String) where
  record_of-IsCheck :
      (limit at : ℕ) (r : Option (Result E (Option Value)))
      → at ≤ limit
      → IsCheck kind limit
          (label, target)
          (at, record_of classify now kind target label method at (outcome classify r))
  unfolding record_of outcome
  record_of-IsCheck limit at none soon = (soon, (refl, soon, refl, refl, refl, refl), refl)
  record_of-IsCheck limit at (some (ok payload)) soon =
      (soon, (refl, soon, refl, refl, refl, refl), refl)
  record_of-IsCheck limit at (some (err e)) soon =
      (soon, (refl, soon, refl, refl, refl, refl), refl)

  pub measure-IsCheck :
      (limit : ℕ) (f : Timed (Result E (Option Value)))
      → IsCheck kind limit (label, target) (measure classify now kind target label method limit f)
  unfolding measure
  measure-IsCheck limit f =
      record_of-IsCheck limit (timed limit f).0 (timed limit f).1 (timed_le limit f)

pub join_all-IsGroup :
    {Value X : Type 0} (kind : ProbeKind) (limit : ℕ) (s : X → Subject) (f : X → ℕ × Record Value)
    → ((x : X) → IsCheck kind limit (s x) (f x))
    → (xs : List X) → IsGroup kind limit (map s xs) (join_all (map f xs))
join_all-IsGroup kind limit s f each [] = (omega arith, tt, refl)
join_all-IsGroup kind limit s f each (x ∷ xs) =
    let (soon, coherent, same) = each x in
    let (last, all_coherent, all_same) = join_all-IsGroup kind limit s f each xs in
    (omega (arith, soon, last), (coherent, all_coherent), cc)

-- two groups that run at once
append-IsGroup :
    {Value : Type 0} (kind : ProbeKind) (limit : ℕ) (subjects subjects' : List Subject)
    (group group' : ℕ × List (Record Value))
    → IsGroup kind limit subjects group
    → IsGroup kind limit subjects' group'
    → IsGroup kind limit (subjects ++ subjects') (max group.0 group'.0, group.1 ++ group'.1)
append-IsGroup kind limit subjects subjects' (at, rs) (at', rs') (soon, coherent, same)
      (soon', coherent', same') =
    (
      omega (arith, soon, soon'),
      All-append (IsCoherent kind limit) rs rs' coherent coherent',
      rw (map-append subject rs rs', same, same') refl,
    )

abbrev unnamed : String → Subject
unnamed target = (none, target)

module _ {Value : Type 0} (outside : Outside Value) where
  pub network-IsGroup :
      (targets : NetworkTargets) (kind : ProbeKind) (limit : ℕ)
      → IsGroup kind limit
          (map unnamed targets.domains ++ map unnamed targets.tcp)
          (network outside targets kind limit)
  unfolding network check_domain check_tcp
  network-IsGroup targets kind limit =
      append-IsGroup kind limit _ _ _ _
        (join_all-IsGroup kind limit unnamed (check_domain outside kind limit)
          (λ domain. measure-IsCheck _ _ kind domain none "dns" limit _) targets.domains)
        (join_all-IsGroup kind limit unnamed (check_tcp outside kind limit)
          (λ target. measure-IsCheck _ _ kind target none "tcp" limit _) targets.tcp)

  abbrev named : String × String → Subject
  named (name, target) = (some name, target)

  pub services-IsGroup :
      (checks : Maps.Map String String) (limit : ℕ)
      → IsGroup ProbeKind.services limit (map named checks) (services outside checks limit)
  unfolding services check_service
  services-IsGroup checks limit =
      join_all-IsGroup ProbeKind.services limit named (check_service outside limit)
        (λ c. measure-IsCheck _ _ ProbeKind.services c.1 (some c.0) "service" limit _) checks

  pub host_probe-IsGroup :
      (machine : Machine Value) (limit : ℕ)
      → IsGroup ProbeKind.host limit ((none, "host") ∷ []) (host_probe machine outside limit)
  unfolding host_probe
  host_probe-IsGroup machine limit =
      let (soon, coherent, same) =
        measure-IsCheck (core_errors outside) outside.now ProbeKind.host "host" none "procfs" limit
          (host_future machine) in
      (soon, (coherent, tt), cc)
