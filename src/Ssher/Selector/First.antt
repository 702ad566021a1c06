-- ===== src/Ssher/Selector/First.antt =====
-- What `select_best_endpoint` returns, for every outcome of the probes.
use mathlib.Core.List.{Permᴰ}
use mathlib.Core.List.Permᴰ
use sshe.Prelude.{
  sym, subst, length-append, ◌++◌, str_eq_iff, inl, ◌+◌, suc, map_err, inr, err, refl, ap, map,
  >>=-eq-ok, str_eq, String, ◌∙◌, false, ◌⊎◌, true, any, ◌≡◌, All, ℕ, ok, length, arith, List,
  Result, Bool, [], ◌∷◌,
}
use sshe.Ssher.Error.{Error, errors, unreachable}
use sshe.Ssher.Cache.{ProbeResult}
use sshe.Ssher.Config.{FinalHostConfig, SelectionMode}
use sshe.Ssher.Selector.{latency, probe_endpoint, first_ok, select_best_endpoint, Outside}

abbrev Answer : Type 0
Answer = Result Error ProbeResult

abbrev pub is_ok : Answer → Bool
is_ok (ok r) = true
is_ok (err e) = false

-- Some output is this answer.
abbrev Among : ProbeResult → List Answer → Type 0
Among r [] = ⊥
Among r (x ∷ xs) = (x ≡ ok r) ⊎ Among r xs

-- All outputs are failures.
abbrev Failed : List Answer → Type 0
Failed = All (λ x. is_ok x ≡ false)

Among-Perm : (r : ProbeResult) {xs ys : List Answer} → Permᴰ xs ys → Among r xs → Among r ys
Among-Perm r Permᴰ.nil h = h
Among-Perm r (Permᴰ.cons e p) h = ground (arith, e, Among-Perm r p)
Among-Perm r (Permᴰ.swap e f) h = ground (arith, e, f)
Among-Perm r (Permᴰ.trans p q) h = Among-Perm r q (Among-Perm r p h)

length-Perm : {xs ys : List Answer} → Permᴰ xs ys → length xs ≡ length ys
length-Perm Permᴰ.nil = refl
length-Perm (Permᴰ.cons e p) = omega (arith, length-Perm p)
length-Perm (Permᴰ.swap e f) = refl
length-Perm (Permᴰ.trans p q) = length-Perm p ∙ length-Perm q

Failed-Perm : {xs ys : List Answer} → Permᴰ xs ys → Failed xs → Failed ys
Failed-Perm Permᴰ.nil h = h
Failed-Perm (Permᴰ.cons e p) h = ground (arith, e, Failed-Perm p)
Failed-Perm (Permᴰ.swap e f) h = ground (arith, e, f)
Failed-Perm (Permᴰ.trans p q) h = Failed-Perm q (Failed-Perm p h)

-- The first answer among the outputs, or all their errors.
first_ok-cases :
    (failed : List Error) (xs : List Answer)
    → ((r : ProbeResult) × (first_ok failed xs ≡ ok r) × Among r xs)
      ⊎ ((es : List Error) × (first_ok failed xs ≡ err (unreachable (errors es)))
          × (length es ≡ length failed + length xs)
          × Failed xs)
unfolding first_ok
first_ok-cases failed [] = inr (failed, refl, omega arith, tt)
first_ok-cases failed (ok r ∷ xs) = inl (r, refl, inl refl)
first_ok-cases failed (err e ∷ xs) = elim (first_ok-cases (failed ++ e ∷ []) xs) [
  | inl (r, found, among) ↦ inl (r, found, inr among)
  | inr (es, found, count, all_failed) ↦
      inr (es, found, omega (arith, count, length-append failed (e ∷ [])), (refl, all_failed))
]

-- An answer names the endpoint that was probed.
endpoint-probe_endpoint :
    (outside : Outside) (port timeout : ℕ) (mode : SelectionMode) (e : String) (r : ProbeResult)
    → probe_endpoint outside port timeout mode e ≡ ok r
    → r.endpoint ≡ e
unfolding probe_endpoint
endpoint-probe_endpoint outside port timeout mode e r h =
    let (n, made, _) =
      >>=-eq-ok _ (map_err (Error.probe e port) (latency outside mode e port timeout)) h in
    ground (arith, made)

module _ (outside : Outside) (port timeout : ℕ) (mode : SelectionMode) where
  abbrev outputs : List String → List Answer
  outputs = map (probe_endpoint outside port timeout mode)

  Among-outputs :
      (r : ProbeResult) (endpoints : List String)
      → Among r (outputs endpoints)
      → (any (λ e. str_eq e r.endpoint) endpoints ≡ true)
        × (probe_endpoint outside port timeout mode r.endpoint ≡ ok r)
  Among-outputs r [] h = absurd h
  Among-outputs r (e ∷ es) (inr h) =
      let rest = Among-outputs r es h in (ground (arith, rest.0), rest.1)
  Among-outputs r (e ∷ es) (inl h) =
      let same : r.endpoint ≡ e = endpoint-probe_endpoint outside port timeout mode e r h in
      (
        ground (arith, str_eq_iff e r.endpoint, same),
        subst (λ x. probe_endpoint outside port timeout mode x ≡ ok r) (sym same) h,
      )

  Failed-outputs :
      (endpoints : List String)
      → Failed (outputs endpoints)
      → All (λ e. is_ok (probe_endpoint outside port timeout mode e) ≡ false) endpoints
  Failed-outputs [] h = tt
  Failed-outputs (e ∷ es) h = (h.0, Failed-outputs es h.1)

  length-outputs : (endpoints : List String) → length (outputs endpoints) ≡ length endpoints
  length-outputs [] = refl
  length-outputs (e ∷ es) = ap suc (length-outputs es)

-- The selection is total: it is the answer of the probe of one of the host's own endpoints, if
-- one answers, and otherwise, when every endpoint's probe fails, the error that carries one error
-- for each of them. The outputs of the probes come in any order, each once.
pub select_best_endpoint-cases :
    (outside : Outside) (host : FinalHostConfig) (port : ℕ)
    → ((xs : List Answer) → Permᴰ xs (outside.completed xs))
    → ((r : ProbeResult) × (select_best_endpoint outside host port ≡ ok r)
        × (any (λ e. str_eq e r.endpoint) host.endpoints ≡ true)
        × (probe_endpoint outside port host.probe_timeout_ms host.selection_mode r.endpoint ≡ ok r))
      ⊎ ((es : List Error) × (select_best_endpoint outside host port
            ≡ err (unreachable (errors es)))
          × (length es ≡ length host.endpoints)
          × All
              (λ e.
                is_ok (probe_endpoint outside port host.probe_timeout_ms host.selection_mode e)
                ≡ false)
              host.endpoints)
unfolding select_best_endpoint
select_best_endpoint-cases outside host port order =
    let xs = outputs outside port host.probe_timeout_ms host.selection_mode host.endpoints in
    let reordered = order xs in
    let back = Permᴰ.symm reordered in
    elim (first_ok-cases [] (outside.completed xs)) [
      | inl (r, found, among) ↦
          let h =
            Among-outputs outside port host.probe_timeout_ms host.selection_mode r host.endpoints
              (Among-Perm r back among) in
          inl (r, found, h.0, h.1)
      | inr (es, found, count, failed) ↦ inr (
        es,
        found,
        omega (
          arith,
          count,
          length-Perm reordered,
          length-outputs outside port host.probe_timeout_ms host.selection_mode host.endpoints,
        ),
        Failed-outputs outside port host.probe_timeout_ms host.selection_mode host.endpoints
            (Failed-Perm back failed),
      )
    ]
