-- ===== src/Node/Scheduler/Started.antt =====
-- Which loops run, and since when.
use sshe.Prelude.{
  ap, min, refl, ◌∙◌, [], none, ◌==◌, inr, some, suc, inl, any, Bool-cases, if◌then◌else◌, ◌∷◌,
  keep, ℕ, arith, Bool, List, ◌≡◌,
}
use sshe.Node.Scheduler.{kinds_of, run, wait_online}
use sshe.Protocol.Message.{all_kinds, ProbeKind}
use sshe.Core.Probe.{Timed, timed}
use sshe.Node.Config.{DaemonConfig}
use sshe.Node.History.{rank_injective, rank, same_kind}

-- How often a kind is in a list.
abbrev pub count : ProbeKind → List ProbeKind → ℕ
count kind [] = 0
count kind (k ∷ ks) = if same_kind k kind then suc (count kind ks) else count kind ks

count-keep :
    (p : ProbeKind → Bool) (kind : ProbeKind) (ks : List ProbeKind)
    → count kind (keep p ks) ≡ (if p kind then count kind ks else 0)
count-keep p kind [] = ground arith
count-keep p kind (k ∷ ks) = elim (Bool-cases (same_kind k kind)) [
  | inl same ↦
      let is : k ≡ kind = rank_injective k kind (ground (arith, same)) in
      let like : p k ≡ p kind = ap p is in ground (arith, same, like, count-keep p kind ks)
  | inr differ ↦ ground (arith, differ, count-keep p kind ks)
]

count-all_kinds : (kind : ProbeKind) → count kind all_kinds ≡ 1
count-all_kinds kind = ground arith

-- As soon as the endpoint is online, and after 10 seconds if it is not.
abbrev pub within_wait : Timed Unit → ℕ
within_wait none = 10000
within_wait (some (at, u)) = min at 10000

wait_online-within_wait : (online : Timed Unit) → wait_online online ≡ within_wait online
unfolding wait_online timed
wait_online-within_wait none = refl
wait_online-within_wait (some (at, u)) = ground arith

-- The loops start as soon as the endpoint is online, and after 10 seconds if it is not by then;
-- each kind that is configured, however often, has exactly one loop, and no other kind has one.
pub run-once :
    (daemon : DaemonConfig) (online : Timed Unit) (kind : ProbeKind)
    → ((run daemon online).0 ≡ within_wait online)
      × (count kind (run daemon online).1
          ≡ (if any (λ k. same_kind k kind) daemon.probes then 1 else 0))
unfolding run kinds_of
run-once daemon online kind = (
  wait_online-within_wait online,
  count-keep (λ kind. any (λ k. rank k == rank kind) daemon.probes) kind all_kinds
      ∙ rw (count-all_kinds kind) refl,
)
