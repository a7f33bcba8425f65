-- ===== src/Gateway/Reserve.antt =====
-- `reserve_pass_operation` of pass_gateway.py: the refusals that are recorded, and the lease. The
-- whole function runs under a lock, in one transaction.
use imtegrale.Prelude.{
  ℕ, ◌+◌, Bool, false, ◌&&◌, ◌||◌, none, some, [], ◌∷◌, ◌++◌, if◌then◌else◌, is_none,
}
use imtegrale.Models.{seconds}
use imtegrale.Schedule.{Raised}
use imtegrale.Gateway.{
  State, SystemState, Operation, OperationStatus, CircuitState, GatewaySettings, is_half_open,
}
use imtegrale.Gateway.Guards.{
  ReserveArgs, Lease, Refusal, Answer, release_expired, half_open_due, first_checks, last_checks,
  rejected, value_error, granted, refused,
}

-- `_reject` records the refusal and commits `state`; another exception leaves the database as it
-- was `before`.
unfoldable pub refuse : ReserveArgs → Refusal → State → State → Answer × State
refuse args (rejected r) before state = (
  refused (rejected r),
  record state {
    denials =
        state.denials
        ++ record {
          account_id = args.account_id;
          target_ref = args.target_ref;
          kind = args.kind;
          reason = r.code;
        }
          ∷ [];
  },
)
refuse args refusal before state = (refused refusal, before)

-- The row that a reservation inserts; `id` is new.
abbrev pub new_operation : ReserveArgs → ℕ → ℕ → SystemState → Operation
new_operation args id current system = record {
  id = id;
  account_id = args.account_id;
  target_ref = args.target_ref;
  kind = args.kind;
  actor = args.actor;
  status = OperationStatus.running;
  quota_bypassed = args.quota_bypass;
  bypass_reason = args.bypass_reason;
  is_probe = args.force_probe || is_half_open system.circuit_state;
  started_at = current;
  completed_at = none;
  duration_ms = none;
  request_count = 0;
  session_reused = false;
  full_sso_performed = false;
  profile_fetched = false;
  autonomous_credential_used = false;
  error_class = none;
  upstream_status = none;
  retry_after_seconds = none;
}

abbrev pub lease_of : Operation → Lease
lease_of op = record {
  id = op.id;
  account_id = op.account_id;
  target_ref = op.target_ref;
  kind = op.kind;
  actor = op.actor;
  started_at = op.started_at;
  is_probe = op.is_probe;
}

unfoldable pub grant : GatewaySettings → ReserveArgs → ℕ → ℕ → State → Answer × State
grant settings args id current state =
    let op = new_operation args id current state.system in
    let active = record state.system {
      active_operation_id = some id;
      active_until = some (current + seconds settings.pass_operation_lease_seconds);
    } in
    (
      granted (lease_of op),
      record state {
        operations = state.operations ++ op ∷ [];
        system =
            if op.is_probe
            then record active {
              circuit_state = CircuitState.half_open;
              probe_operation_id = some id;
            }
            else active;
      },
    )

-- From the circuit on, once PASS is neither busy nor resting.
unfoldable pub reserve_rested :
    GatewaySettings → ReserveArgs → Raised Bool → ℕ → ℕ → State → State → Answer × State
reserve_rested settings args overdue id current before state =
    elim (last_checks settings args overdue current state) [
      | some r ↦ refuse args r before state
      | none ↦ grant settings args id current state
    ]

unfoldable pub reserve_pass_operation :
    GatewaySettings → ReserveArgs → Raised Bool → ℕ → ℕ → State → Answer × State
reserve_pass_operation settings args overdue id current state =
    if args.quota_bypass && is_none args.bypass_reason
    then (refused value_error, state)
    else (let released = release_expired current state in
        elim (first_checks current released.system) [
          | some r ↦ refuse args r state released
          | none ↦
              reserve_rested settings args overdue id current state
                (record released { system = half_open_due current released.system })
        ])
