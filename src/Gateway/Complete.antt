-- ===== src/Gateway/Complete.antt =====
-- `complete_pass_operation` of pass_gateway.py with `_failure_metadata` and `_open_circuit`, and
-- `attach_operation_account`.
use imtegrale.Prelude.{
  ℕ, zero, suc, ◌+◌, ◌-◌, ◌*◌, ◌/◌, ◌^◌, min, Bool, true, false, not, ◌&&◌, Option, none, some,
  List, [], ◌∷◌, leb, ◌==◌, if◌then◌else◌, is_none, is_some_of, length,
}
use imtegrale.Query.{select, find, any}
use imtegrale.Models.{seconds, minutes, hours}
use imtegrale.Gateway.{
  State, SystemState, Operation, OperationStatus, ErrorClass, CircuitState, GatewaySettings,
  is_open, set_operation,
}
use imtegrale.Gateway.Guards.{Lease}
use imtegrale.Store.{or_text}
use Prim.Native.String.{String}
use text.Mathlib.Text.{◌==◌ as str_eq}

-- The exception, by the first test of `_failure_metadata` that it passes.
pub data Failure : Type 0 where
  authentication_error credential_key_unavailable credential_invalid_error : Failure
  credential_missing_error runtime_unavailable state_changed credential_error : Failure
  upstream_error : ℕ → Option ℕ → Failure
  network_error other_error : Failure

pub record Metadata : Type 0 where
  pub error_class : Option ErrorClass
  pub upstream_status : Option ℕ
  pub retry_after : Option ℕ

abbrev of_class : ErrorClass → Metadata
of_class c = record { error_class = some c; upstream_status = none; retry_after = none }

abbrev pub failure_metadata : Failure → Metadata
failure_metadata authentication_error = of_class ErrorClass.authentication
failure_metadata credential_key_unavailable = of_class ErrorClass.credential_key
failure_metadata credential_invalid_error = of_class ErrorClass.credential_invalid
failure_metadata credential_missing_error = of_class ErrorClass.credential_missing
failure_metadata runtime_unavailable = of_class ErrorClass.autonomous_runtime
failure_metadata state_changed = of_class ErrorClass.autonomous_state_changed
failure_metadata credential_error = of_class ErrorClass.credential
failure_metadata (upstream_error status retry_after) = record {
  error_class = some ErrorClass.upstream;
  upstream_status = some status;
  retry_after = retry_after;
}
failure_metadata network_error = of_class ErrorClass.network
failure_metadata other_error = of_class ErrorClass.internal

abbrev pub metadata_of : Option Failure → Metadata
metadata_of none = record { error_class = none; upstream_status = none; retry_after = none }
metadata_of (some failure) = failure_metadata failure

pub record Completion : Type 0 where
  pub success : Bool
  pub request_count : ℕ
  pub session_reused : Bool
  pub full_sso_performed : Bool
  pub profile_fetched : Bool
  pub autonomous_credential_used : Bool
  pub error : Option Failure

abbrev pub is_authentication : Option ErrorClass → Bool
is_authentication (some ErrorClass.authentication) = true
is_authentication _ = false

-- `error_class in {"network", "upstream"}`.
abbrev pub is_unavailable : Option ErrorClass → Bool
is_unavailable (some ErrorClass.network) = true
is_unavailable (some ErrorClass.upstream) = true
is_unavailable _ = false

abbrev pub is_failed : OperationStatus → Bool
is_failed OperationStatus.failed = true
is_failed _ = false

-- The row after the operation; the duration is in whole milliseconds and not negative.
unfoldable pub completed_row : Lease → Completion → ℕ → Operation → Operation
completed_row lease completion current op =
    let meta = metadata_of completion.error in
    record op {
      status = if completion.success then OperationStatus.succeeded else OperationStatus.failed;
      completed_at = some current;
      duration_ms = some ((current - lease.started_at) / 1_000);
      request_count = completion.request_count;
      session_reused = completion.session_reused;
      full_sso_performed = completion.full_sso_performed;
      profile_fetched = completion.profile_fetched;
      autonomous_credential_used = completion.autonomous_credential_used;
      error_class = meta.error_class;
      upstream_status = meta.upstream_status;
      retry_after_seconds = meta.retry_after;
    }

-- The lease, the probe and the last automatic account of the system row.
unfoldable pub release_lease :
    GatewaySettings → Lease → Option ErrorClass → ℕ → SystemState → SystemState
release_lease settings lease error_class current system =
    let freed =
      if is_some_of lease.id system.active_operation_id
      then record system {
        active_operation_id = none;
        active_until = none;
        quiet_until =
            if is_authentication error_class
            then none
            else some (current + seconds settings.pass_quiet_period_seconds);
      }
      else system in
    let probed =
      if is_some_of lease.id freed.probe_operation_id
      then record freed { probe_operation_id = none }
      else freed in
    if str_eq lease.actor "automatic" && not (is_none lease.account_id)
    then record probed { last_auto_account_id = lease.account_id }
    else probed

-- `_open_circuit`.
unfoldable pub open_circuit : String → ℕ → SystemState → SystemState
open_circuit reason until system = record system {
  circuit_state = CircuitState.opened;
  circuit_reason = some reason;
  circuit_open_until = some until;
  probe_operation_id = none;
  circuit_failure_count = system.circuit_failure_count + 1;
}

-- `count(distinct(target_ref))`.
abbrev distinct_targets : List Operation → ℕ
distinct_targets [] = 0
distinct_targets (op ∷ rest) =
    let n = distinct_targets rest in
    if any (λ other. other.target_ref == op.target_ref) rest then n else n + 1

abbrev pub forbidden_targets : ℕ → List Operation → ℕ
forbidden_targets current operations = distinct_targets (
    select (λ op. is_some_of 403 op.upstream_status && leb current (op.started_at + minutes 15))
      operations)

abbrev pub recent_failures : ℕ → List Operation → ℕ
recent_failures current operations = length (
    select
      (λ op.
        leb current (op.started_at + minutes 10)
        && is_failed op.status
        && is_unavailable op.error_class)
      operations)

-- `retry_after if retry_after is not None and retry_after > 0 else 30 * 60`.
abbrev pub pause_of : Option ℕ → ℕ
pause_of none = 1_800
pause_of (some zero) = 1_800
pause_of (some (suc n)) = suc n

-- What the outcome does to the circuit; `operations` has the completed row.
unfoldable pub settle_circuit : Completion → ℕ → List Operation → SystemState → SystemState
settle_circuit completion current operations system =
    let meta = metadata_of completion.error in
    if completion.success
    then record system {
      circuit_state = CircuitState.closed;
      circuit_open_until = none;
      circuit_reason = none;
      circuit_failure_count = 0;
    }
    else if is_some_of 429 meta.upstream_status
    then open_circuit "upstream_429" (current + seconds (min (pause_of meta.retry_after) 86_400))
        system
    else if is_some_of 403 meta.upstream_status
    then (if leb 3 (forbidden_targets current operations)
        then open_circuit "repeated_403" (current + hours 1) system
        else system)
    else if is_unavailable meta.error_class
    then (if leb 3 (recent_failures current operations)
        then open_circuit "upstream_instability"
            (current + minutes (15 * 2 ^ min 3 system.circuit_failure_count)) system
        else system)
    else system

-- A probe that fails opens the circuit again.
unfoldable pub settle_probe : Lease → Completion → ℕ → SystemState → SystemState
settle_probe lease completion current system =
    if lease.is_probe && not completion.success && not (is_open system.circuit_state)
    then open_circuit (or_text system.circuit_reason "probe_failed") (current + minutes 30) system
    else system

unfoldable pub complete_pass_operation : GatewaySettings → Lease → Completion → ℕ → State → State
complete_pass_operation settings lease completion current state =
    elim (find (λ op. op.id == lease.id) state.operations) [
      | none ↦ state
      | some _ ↦
          let stored =
            set_operation (λ op. op.id == lease.id) (completed_row lease completion current)
              state in
          let freed =
            release_lease settings lease (metadata_of completion.error).error_class current
              state.system in
          record stored {
            system =
                settle_probe lease completion current
                  (settle_circuit completion current stored.operations freed);
          }
    ]

unfoldable pub attach_operation_account : ℕ → ℕ → State → State
attach_operation_account operation_id account_id state =
    set_operation (λ op. op.id == operation_id) (λ op. record op { account_id = some account_id })
      state
