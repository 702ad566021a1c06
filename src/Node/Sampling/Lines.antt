-- ===== src/Node/Sampling/Lines.antt =====
-- crates/sshe-node/src/sampling/log.rs: the line that a record leaves in the log.
use sshe.Prelude.{if◌then◌else◌, String, Option, ℕ, unwrap_or, ◌-◌, none, some}
use sshe.Protocol.Message.{Record, failure_as_str}
use sshe.Node.History.{Transition}

-- The level and what is said at it.
pub data Line : Type 0 where
  -- ms
  info_ok : ℕ → Line
  -- error_kind, error
  warn_failed : String → String → Line
  -- since_last_ok_secs
  info_recovered : Option ℕ → Line
  -- error
  debug_check : String → Line

module _ {Value : Type 0} where
  abbrev since : Record Value → Option ℕ → Option ℕ
  since r none = none
  since r (some at) = some (r.observed_at - at)

  abbrev error_kind_text : Record Value → String
  error_kind_text r = elim r.error_kind [ none ↦ "" | some kind ↦ failure_as_str kind ]

  pub line : Record Value → Transition → Line
  line r (Transition.recovered last_success_at) = Line.info_recovered (since r last_success_at)
  line r Transition.first =
      if r.success
      then Line.info_ok r.duration_ms
      else Line.warn_failed (error_kind_text r) (unwrap_or r.error "")
  line r Transition.failed =
      if r.success
      then Line.debug_check (unwrap_or r.error "")
      else Line.warn_failed (error_kind_text r) (unwrap_or r.error "")
  line r Transition.unchanged = Line.debug_check (unwrap_or r.error "")
