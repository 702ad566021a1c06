-- ===== src/Protocol/Message.antt =====
-- crates/sshe-protocol/src/message.rs. `serde_json::Value` is a parameter `Value`; an exit code or
-- a signal number is a signed integer.
use sshe.Prelude.{ℕ, ℤ, Bool, List, [], ◌∷◌, String, Option}

pub data ProbeKind : Type 0 where
  host lan wan services peers : ProbeKind

-- `ProbeKind::ALL`
abbrev pub all_kinds : List ProbeKind
all_kinds = host ∷ lan ∷ wan ∷ services ∷ peers ∷ []

-- `ProbeKind::as_str`
unfoldable pub kind_as_str : ProbeKind → String
kind_as_str host = "host"
kind_as_str lan = "lan"
kind_as_str wan = "wan"
kind_as_str services = "services"
kind_as_str peers = "peers"

pub data FailureKind : Type 0 where
  timeout no_address refused unreachable unauthorized connection_lost dns remote other : FailureKind

-- `FailureKind::as_str`
unfoldable pub failure_as_str : FailureKind → String
failure_as_str timeout = "timeout"
failure_as_str no_address = "no_address"
failure_as_str refused = "refused"
failure_as_str unreachable = "unreachable"
failure_as_str unauthorized = "unauthorized"
failure_as_str connection_lost = "connection_lost"
failure_as_str dns = "dns"
failure_as_str remote = "remote"
failure_as_str other = "other"

pub data Request : Type 0 where
  health : Request
  probe : ProbeKind → Request
  -- kind, about, limit
  history : Option ProbeKind → Option String → ℕ → Request
  -- program, args, timeout_secs
  exec : String → List String → ℕ → Request

pub record Health : Type 0 where
  pub endpoint_id : String
  pub status : String
  pub version : String

pub record ExecResult : Type 0 where
  pub stdout : List ℕ
  pub stderr : List ℕ
  pub exit_code : Option ℤ
  pub signal : Option ℤ
  pub duration_ms : ℕ

module _ (Value : Type 0) where
  -- One check result.
  pub record Record : Type 0 where
    pub kind : ProbeKind
    pub target : String
    pub label : Option String
    pub method : String
    pub observed_at : ℕ
    pub duration_ms : ℕ
    pub success : Bool
    pub error : Option String
    pub error_kind : Option FailureKind
    pub last_success_at : Option ℕ
    pub payload : Option Value

  pub record ProbeReport : Type 0 where
    pub observer : String
    pub kind : ProbeKind
    pub records : List Record

  pub record HistoryReport : Type 0 where
    pub observer : String
    pub queried_at : ℕ
    pub records : List Record

  pub data Response : Type 0 where
    health : Health → Response
    probe : ProbeReport → Response
    history : HistoryReport → Response
    exec : ExecResult → Response
    error : String → Response
