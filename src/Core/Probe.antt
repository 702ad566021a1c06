-- ===== src/Core/Probe.antt =====
-- crates/sshe-core/src/probe/measurement.rs, network.rs and services.rs: groups of checks that all
-- start at once. Times are milliseconds since then. The network, the commands and the clock, as
-- they are from then on, are the parameter `Outside`.
pub mod Coherent
pub mod Host
use Prim.Native.String.{◌++◌ as append}
use sshe.Prelude.Maps
use sshe.Prelude.{
  String, Option, ℕ, Result, List, ℤ, Bool, ok, err, max, leb, is_none, map, [], ◌∷◌, none, some,
  true, false, ◌++◌, strip_prefix, trim, map_err, map_ok, if◌then◌else◌, ◌/◌, pos, zero,
}
use sshe.Io.{IoError}
use sshe.Protocol.Message.{ExecResult, FailureKind, ProbeKind, Record}
use sshe.Core.Error.{Error, io, dns, inactive, invalid, failure_kind}
use sshe.Core.Config.{NetworkTargets}
use sshe.Core.Exec.{Os, Run, Future, execute}

-- What is awaited is ready after some time, if it ever is.
abbrev pub Timed : Type 0 → Type 0
Timed A = Option (ℕ × A)

-- `timeout(limit, f)`: when it is over, and what `f` gave if it was ready by then
unfoldable pub timed : {A : Type 0} → ℕ → Timed A → ℕ × Option A
timed limit none = (limit, none)
timed limit (some (at, a)) = if leb at limit then (at, some a) else (limit, none)

-- `join_all`: all the results in order, when the last one is there
abbrev pub join_all : {A : Type 0} → List (ℕ × A) → ℕ × List A
join_all [] = (0, [])
join_all ((at, a) ∷ rest) = let (last, values) = join_all rest in (max at last, a ∷ values)

-- How a check failed, if it did: the kind and the text.
abbrev pub Failure : Type 0
Failure = Option (FailureKind × String)

abbrev pub kind_of_failure : Failure → Option FailureKind
kind_of_failure none = none
kind_of_failure (some (kind, _)) = some kind

abbrev pub text_of_failure : Failure → Option String
text_of_failure none = none
text_of_failure (some (_, text)) = some text

-- `Classify`, and the text of an error
pub record Classify (E : Type 0) : Type 0 where
  pub failure_kind : E → FailureKind
  pub to_string : E → String

module _ {Value E : Type 0} where
  -- the `match` on what was awaited
  unfoldable pub outcome : Classify E → Option (Result E (Option Value)) → Failure × Option Value
  outcome classify (some (ok payload)) = (none, payload)
  outcome classify (some (err e)) = (some (classify.failure_kind e, classify.to_string e), none)
  outcome classify none = (some (FailureKind.timeout, "timeout"), none)

  module _ (classify : Classify E) (now : ℕ → ℕ) (kind : ProbeKind) (target : String)
      (label : Option String) (method : String) where
    unfoldable pub record_of : ℕ → Failure × Option Value → Record Value
    record_of at (failure, payload) = record {
      kind = kind;
      target = target;
      label = label;
      method = method;
      observed_at = now at;
      duration_ms = at;
      success = is_none failure;
      error = text_of_failure failure;
      error_kind = kind_of_failure failure;
      last_success_at = if is_none failure then some (now at) else none;
      payload = payload;
    }

    -- The record of a check, and when it is over; `now` is the clock at a time.
    unfoldable pub measure : ℕ → Timed (Result E (Option Value)) → ℕ × Record Value
    measure limit f = let (at, r) = timed limit f in (at, record_of at (outcome classify r))

pub record Outside (Value : Type 0) : Type 1 where
  pub os : Os
  pub run : Run os
  -- `sshe_core::now` after some time
  pub now : ℕ → ℕ
  pub lookup_host : String → Timed (Result IoError (List String))
  pub connect : String → Timed (Result IoError Unit)
  -- `Value::from`
  pub from_strings : List String → Value
  pub from_utf8_lossy : List ℕ → String
  -- an error's text
  pub to_string : Error → String

-- `Some(0)`
abbrev is_success : Option ℤ → Bool
is_success (some (pos zero)) = true
is_success _ = false

module _ {Value : Type 0} (outside : Outside Value) where
  open outside use {os, run, now, lookup_host, connect, from_strings, from_utf8_lossy, to_string}

  abbrev pub core_errors : Classify Error
  core_errors = record { failure_kind = failure_kind; to_string = to_string }

  unfoldable pub addresses : Result IoError (List String) → Result Error (Option Value)
  addresses (err e) = err (dns e.text)
  addresses (ok []) = err (dns "no addresses returned")
  addresses (ok (a ∷ more)) = ok (some (from_strings (a ∷ more)))

  unfoldable pub resolve : String → Future (Option Value)
  resolve domain = elim (lookup_host domain) [ none ↦ none | some (at, r) ↦ some (at, addresses r) ]

  unfoldable pub connected : Result IoError Unit → Result Error (Option Value)
  connected (err e) = err (io e)
  connected (ok _) = ok none

  unfoldable pub reach : String → Future (Option Value)
  reach address = elim (connect address) [ none ↦ none | some (at, r) ↦ some (at, connected r) ]

  unfoldable pub check_domain : ProbeKind → ℕ → String → ℕ × Record Value
  check_domain kind limit domain =
      measure core_errors now kind domain none "dns" limit (resolve domain)

  unfoldable pub check_tcp : ProbeKind → ℕ → String → ℕ × Record Value
  check_tcp kind limit target = measure core_errors now kind target none "tcp" limit (reach target)

  unfoldable pub network : NetworkTargets → ProbeKind → ℕ → ℕ × List (Record Value)
  network targets kind limit =
      let (dns_end, results) = join_all (map (check_domain kind limit) targets.domains) in
      let (tcp_end, tcp) = join_all (map (check_tcp kind limit) targets.tcp) in
      (max dns_end tcp_end, results ++ tcp)

  active : Result Error ExecResult → Result Error (Option Value)
  active (err e) = err e
  active (ok output) =
      if is_success output.exit_code
      then ok none
      else err (inactive (append "unit inactive: " (trim (from_utf8_lossy output.stdout))))

  pub is_active : ℕ → String → Future (Option Value)
  is_active limit unit =
      let ((at, r), _) =
        execute os "systemctl" ("is-active" ∷ "--" ∷ unit ∷ []) (max (limit / 1000) 1) run in
      some (at, active r)

  -- what a service's target asks for
  pub check_target : ℕ → String → Future (Option Value)
  check_target limit target = elim (strip_prefix "tcp:" target) [
    | some address ↦ reach address
    | none ↦ elim (strip_prefix "systemd:" target) [
      | some unit ↦ is_active limit unit
      | none ↦ some (0, err (invalid (append "unsupported service check: " target)))
    ]
  ]

  check_service : ℕ → String × String → ℕ × Record Value
  check_service limit (name, target) =
      measure core_errors now ProbeKind.services target (some name) "service" limit
        (check_target limit target)

  pub services : Maps.Map String String → ℕ → ℕ × List (Record Value)
  services checks limit = join_all (map (check_service limit) checks)
