-- ===== src/Gateway.antt =====
-- The coordinator of accesses to PASS: backend/app/services/pass_gateway.py. One system row says
-- which operation runs, when PASS rests and whether the circuit is open; every operation has a row.
pub mod Quota
pub mod Windows
pub mod Exact
pub mod Guards
pub mod Reserve
pub mod Complete
pub mod Single
pub mod Grants
pub mod Deadlines
pub mod Outcome
pub mod Transitions
use imtegrale.Prelude.{
  ℕ, ◌+◌, ◌-◌, ◌/◌, Bool, true, false, not, ◌&&◌, Option, none, some, List, [], ◌∷◌, leb, ◌==◌,
  if◌then◌else◌, holds,
}
use imtegrale.Query.{update}
use imtegrale.Models.{seconds, minutes, hours}
use Prim.Native.String.{String}

pub data OperationKind : Type 0 where
  registration imt_login sync_credential_enroll : OperationKind
  automatic_sync admin_sync manual_sync : OperationKind

pub data OperationStatus : Type 0 where
  running succeeded failed interrupted : OperationStatus

pub data ErrorClass : Type 0 where
  lease_expired authentication credential_key credential_invalid credential_missing : ErrorClass
  autonomous_runtime autonomous_state_changed credential upstream network internal : ErrorClass

-- A row of `PassOperation`. A bypass reason is stripped, and `none` when nothing is left.
pub record Operation : Type 0 where
  pub id : ℕ
  pub account_id : Option ℕ
  pub target_ref : ℕ
  pub kind : OperationKind
  pub actor : String
  pub status : OperationStatus
  pub quota_bypassed : Bool
  pub bypass_reason : Option String
  pub is_probe : Bool
  pub started_at : ℕ
  pub completed_at : Option ℕ
  pub duration_ms : Option ℕ
  pub request_count : ℕ
  pub session_reused : Bool
  pub full_sso_performed : Bool
  pub profile_fetched : Bool
  pub autonomous_credential_used : Bool
  pub error_class : Option ErrorClass
  pub upstream_status : Option ℕ
  pub retry_after_seconds : Option ℕ

pub data CircuitState : Type 0 where
  closed half_open opened : CircuitState

-- The row of `PassSystemState`.
pub record SystemState : Type 0 where
  pub active_operation_id : Option ℕ
  pub active_until : Option ℕ
  pub quiet_until : Option ℕ
  pub circuit_state : CircuitState
  pub circuit_reason : Option String
  pub circuit_open_until : Option ℕ
  pub circuit_failure_count : ℕ
  pub probe_operation_id : Option ℕ
  pub last_auto_account_id : Option ℕ

-- A row of `PassDenial`.
pub record Denial : Type 0 where
  pub account_id : Option ℕ
  pub target_ref : ℕ
  pub kind : OperationKind
  pub reason : String

pub record State : Type 0 where
  pub system : SystemState
  pub operations : List Operation
  pub denials : List Denial

-- The settings `pass_*` of config.py.
pub record GatewaySettings : Type 0 where
  pub pass_hourly_quota : ℕ
  pub pass_daily_quota : ℕ
  pub pass_quiet_period_seconds : ℕ
  pub pass_operation_lease_seconds : ℕ

abbrev pub is_running : OperationStatus → Bool
is_running running = true
is_running _ = false

abbrev pub is_open : CircuitState → Bool
is_open opened = true
is_open _ = false

abbrev pub is_half_open : CircuitState → Bool
is_half_open half_open = true
is_half_open _ = false

-- `seconds_until`: whole seconds, rounded up, and 0 once the instant has come.
abbrev pub seconds_until : ℕ → ℕ → ℕ
seconds_until value now = (value - now + 999_999) / 1_000_000

abbrev pub set_operation : (Operation → Bool) → (Operation → Operation) → State → State
set_operation test change state = record state { operations = update test change state.operations }
