-- ===== src/Gateway/Guards.antt =====
-- The guards of `reserve_pass_operation` of pass_gateway.py, in their order, with what they answer.
use imtegrale.Prelude.{
  ℕ, ◌+◌, max, Bool, true, false, not, ◌&&◌, Option, none, some, List, [], ◌∷◌, ltb, leb, ◌==◌,
  if◌then◌else◌, is_none, holds,
}
use imtegrale.Query.{select}
use imtegrale.Models.{Account, seconds, minutes, hours}
use imtegrale.Availability.{Settings}
use imtegrale.Schedule.{
  Zones, Raised, returned, raised, next_auto_sync_at, effective_auto_sync_interval,
}
use imtegrale.Gateway.{
  State, SystemState, Operation, OperationKind, registration, imt_login, sync_credential_enroll,
  OperationStatus, ErrorClass, CircuitState, GatewaySettings, is_running, is_open, is_half_open,
  set_operation,
}
use imtegrale.Gateway.Quota.{quota_snapshot}
use Prim.Native.String.{String}

pub record ReserveArgs : Type 0 where
  pub account_id : Option ℕ
  pub target_ref : ℕ
  pub kind : OperationKind
  pub actor : String
  pub quota_bypass : Bool
  pub bypass_reason : Option String
  pub force_probe : Bool
  pub enforce_fairness : Bool

-- `PassOperationLease`.
pub record Lease : Type 0 where
  pub id : ℕ
  pub account_id : Option ℕ
  pub target_ref : ℕ
  pub kind : OperationKind
  pub actor : String
  pub started_at : ℕ
  pub is_probe : Bool

-- The code, `available_at` and `status_code` of a `PassAccessRejected`.
pub record Rejection : Type 0 where
  pub code : String
  pub available_at : ℕ
  pub status_code : ℕ

-- A refusal, or another exception: a ValueError, a TypeError of a comparison with None, or the
-- RuntimeError of the schedule. Only a refusal commits.
pub data Refusal : Type 0 where
  rejected : Rejection → Refusal
  value_error type_error schedule_error : Refusal

pub data Answer : Type 0 where
  granted : Lease → Answer
  refused : Refusal → Answer

-- `auto_sync_overdue_by_full_interval` of sync_schedule.py.
abbrev is_overdue_at : Account → ℕ → Raised (Option ℕ) → Raised Bool
is_overdue_at account current raised = raised
is_overdue_at account current (returned none) = returned false
is_overdue_at account current (returned (some due_at)) =
    returned (leb (due_at + hours (effective_auto_sync_interval account.auto_sync)) current)

unfoldable pub auto_sync_overdue_by_full_interval : Zones → Settings → Account → ℕ → Raised Bool
auto_sync_overdue_by_full_interval zones settings account current =
    is_overdue_at account current (next_auto_sync_at zones settings account current)

-- `any(...)` stops at the first answer that is true or an exception.
abbrev or_later : Raised Bool → Raised Bool → Raised Bool
or_later raised later = raised
or_later (returned true) later = returned true
or_later (returned false) later = later

abbrev any_overdue : Zones → Settings → ℕ → List Account → Raised Bool
any_overdue zones settings current [] = returned false
any_overdue zones settings current (account ∷ rest) =
    or_later (auto_sync_overdue_by_full_interval zones settings account current)
      (any_overdue zones settings current rest)

-- `_overdue_auto_exists`.
unfoldable pub overdue_auto_exists : Zones → Settings → List Account → ℕ → Raised Bool
overdue_auto_exists zones settings accounts current = any_overdue zones settings current (
    select (λ a. a.auto_sync.enabled && not (is_none a.auto_sync.consented_at) && not a.is_disabled)
      accounts)

-- The operation whose lease has passed is interrupted and frees the system row.
abbrev pub abandon : ℕ → ℕ → State → State
abandon id current state =
    let closed =
      set_operation (λ op. op.id == id && is_running op.status)
        (λ op. record op {
          status = OperationStatus.interrupted;
          completed_at = some current;
          error_class = some ErrorClass.lease_expired;
        })
        state in
    record closed {
      system = record state.system {
        active_operation_id = none;
        active_until = none;
        probe_operation_id = none;
      };
    }

unfoldable pub release_expired : ℕ → State → State
release_expired current state = elim state.system.active_operation_id [
  | none ↦ state
  | some id ↦
      if holds (λ t. leb t current) state.system.active_until
      then abandon id current state
      else state
]

abbrev reject : String → ℕ → ℕ → Option Refusal
reject code available_at status_code =
    some (rejected (record { code = code; available_at = available_at; status_code = status_code }))

-- A lease that runs, and the rest between two operations.
abbrev pub check_busy : ℕ → SystemState → Option Refusal
check_busy current system = elim system.active_operation_id [
  | none ↦ none
  | some _ ↦ elim system.active_until [
    | none ↦ some type_error
    | some t ↦ if ltb current t then reject "PASS_BUSY" t 409 else none
  ]
]

abbrev pub check_quiet : ℕ → SystemState → Option Refusal
check_quiet current system = elim system.quiet_until [
  | none ↦ none
  | some t ↦ if ltb current t then reject "PASS_QUIET_PERIOD" t 429 else none
]

-- An open circuit whose time has come is half open.
unfoldable pub half_open_due : ℕ → SystemState → SystemState
half_open_due current system =
    if is_open system.circuit_state && holds (λ t. leb t current) system.circuit_open_until
    then record system { circuit_state = CircuitState.half_open; probe_operation_id = none }
    else system

abbrev or_time : Option ℕ → ℕ → ℕ
or_time none default = default
or_time (some t) _ = t

-- `kind in {"registration", "imt_login", "sync-credential-enroll"}`.
abbrev pub is_interactive : OperationKind → Bool
is_interactive registration = true
is_interactive imt_login = true
is_interactive sync_credential_enroll = true
is_interactive _ = false

abbrev pub check_circuit : GatewaySettings → ReserveArgs → ℕ → SystemState → Option Refusal
check_circuit settings args current system =
    if is_open system.circuit_state && not args.force_probe
    then reject "PASS_CIRCUIT_OPEN" (or_time system.circuit_open_until (current + minutes 15)) 503
    else if is_half_open system.circuit_state
        && not (is_none system.probe_operation_id)
        && not args.force_probe
    then reject "PASS_PROBE_RUNNING" (current + seconds settings.pass_operation_lease_seconds) 503
    else if is_half_open system.circuit_state && is_interactive args.kind && not args.force_probe
    then reject "PASS_PROBE_RESTRICTED" (current + minutes 5) 503
    else none

-- The query of `_overdue_auto_exists` is made only when `enforce_fairness` is set.
abbrev pub check_fairness : GatewaySettings → ReserveArgs → Raised Bool → ℕ → Option Refusal
check_fairness settings args overdue current =
    if args.enforce_fairness
    then elim overdue [
      | raised ↦ some schedule_error
      | returned true ↦
          reject "PASS_AUTOMATIC_PRIORITY"
            (current + seconds (max 60 settings.pass_quiet_period_seconds)) 409
      | returned false ↦ none
    ]
    else none

abbrev pub check_quota : GatewaySettings → ReserveArgs → ℕ → List Operation → Option Refusal
check_quota settings args current operations =
    let quota = quota_snapshot settings args.target_ref current operations in
    if not (quota.retry_after_seconds == 0) && not args.quota_bypass
    then reject "PASS_ACCOUNT_QUOTA" quota.available_at 429
    else none

-- The first guard that refuses.
abbrev pub or_next : Option Refusal → Option Refusal → Option Refusal
or_next none next = next
or_next (some r) next = some r

abbrev pub first_checks : ℕ → SystemState → Option Refusal
first_checks current system = or_next (check_busy current system) (check_quiet current system)

abbrev pub last_checks : GatewaySettings → ReserveArgs → Raised Bool → ℕ → State → Option Refusal
last_checks settings args overdue current state =
    or_next (check_circuit settings args current state.system) (
      or_next (check_fairness settings args overdue current)
        (check_quota settings args current state.operations))
