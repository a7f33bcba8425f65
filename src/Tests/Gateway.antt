-- ===== src/Tests/Gateway.antt =====
-- A PASS operation that fails on 429, the circuit that it opens, and the probe that follows.
use imtegrale.Prelude.{
  ◌↔◌, ◌<◌, ◌≡◌, ◌≤◌, refl, inl, true, false, none, some, [], arith, Memᴰ, length, ℕ, ◌∷◌,
}
use imtegrale.Models.{hours, seconds}
use imtegrale.Schedule.{returned}
use imtegrale.Gateway.{
  State, SystemState, Operation, GatewaySettings, CircuitState, automatic_sync, is_open,
}
use imtegrale.Gateway.Quota.{hourly_rows, recent_rows, quota_snapshot}
use imtegrale.Gateway.Guards.{ReserveArgs, Lease, granted, release_expired, half_open_due}
use imtegrale.Gateway.Reserve.{
  new_operation, lease_of, reserve_pass_operation, reserve_rested, grant, refuse,
}
use imtegrale.Gateway.Complete.{
  Completion, upstream_error, complete_pass_operation, completed_row, release_lease, settle_circuit,
  settle_probe, open_circuit,
}
use imtegrale.Gateway.Single.{IsSoundSystem}
use imtegrale.Gateway.Transitions.{IsSound, here, next, reserved, reachable_single_operation}
use imtegrale.Gateway.Grants.{granted_within_quota}
use imtegrale.Gateway.Deadlines.{reserve_after_deadlines}
use imtegrale.Gateway.Exact.{in_window, quota_snapshot_exact}
use imtegrale.Gateway.Outcome.{Settled, complete-circuit}

abbrev settings : GatewaySettings
settings = record {
  pass_hourly_quota = 3;
  pass_daily_quota = 8;
  pass_quiet_period_seconds = 60;
  pass_operation_lease_seconds = 180;
}

abbrev args : ReserveArgs
args = record {
  account_id = some 1;
  target_ref = 9;
  kind = automatic_sync;
  actor = "automatic";
  quota_bypass = false;
  bypass_reason = none;
  force_probe = false;
  enforce_fairness = false;
}

abbrev calm : SystemState
calm = record {
  active_operation_id = none;
  active_until = none;
  quiet_until = none;
  circuit_state = CircuitState.closed;
  circuit_reason = none;
  circuit_open_until = none;
  circuit_failure_count = 0;
  probe_operation_id = none;
  last_auto_account_id = none;
}

abbrev empty : State
empty = record { system = calm; operations = []; denials = [] }

abbrev first_operation : Operation
first_operation = new_operation args 1 (seconds 10) calm

abbrev started : State
started = (reserve_pass_operation settings args (returned false) 1 (seconds 10) empty).1

abbrev too_many_requests : Completion
too_many_requests = record {
  success = false;
  request_count = 4;
  session_reused = true;
  full_sso_performed = false;
  profile_fetched = false;
  autonomous_credential_used = false;
  error = some (upstream_error 429 (some 120));
}

-- The circuit is open until 140 seconds, and PASS rests until 80 seconds.
abbrev tripped : State
tripped =
    complete_pass_operation settings (lease_of first_operation) too_many_requests (seconds 20)
      started

tripped_until : tripped.system.circuit_open_until ≡ some (seconds 140)
unfolding reserve_pass_operation reserve_rested release_expired half_open_due grant refuse
    complete_pass_operation completed_row release_lease settle_circuit settle_probe open_circuit
    quota_snapshot
tripped_until = refl

empty-IsSound : IsSound empty
empty-IsSound = record {
  system = record { leased = refl; probing = ground arith; ends = ground arith };
  single = tt;
}

-- A second reservation meets the running one: the operation that runs is still the first.
reachable_single_operation_example : first_operation.id ≡ first_operation.id
unfolding reserve_pass_operation reserve_rested release_expired half_open_due grant refuse
    quota_snapshot
reachable_single_operation_example =
    reachable_single_operation {settings = settings} {a = first_operation} {b = first_operation}
      empty-IsSound
      (next (next here (reserved args (returned false) 1 (seconds 10)))
        (reserved args (returned false) 2 (seconds 15)))
      (Memᴰ.head refl) (Memᴰ.head refl) refl refl

granted_within_quota_example :
    (length (hourly_rows 9 (seconds 10) started.operations) ≤ 3)
    × (length (recent_rows 9 (seconds 10) started.operations) ≤ 8)
unfolding reserve_pass_operation reserve_rested release_expired half_open_due grant refuse
    quota_snapshot
granted_within_quota_example =
    granted_within_quota settings args (returned false) 1 (seconds 10) empty started
      (lease_of first_operation) (omega arith) (omega arith) refl refl

tripped-IsSoundSystem : IsSoundSystem tripped.system
unfolding reserve_pass_operation reserve_rested release_expired half_open_due grant refuse
    complete_pass_operation completed_row release_lease settle_circuit settle_probe open_circuit
    quota_snapshot
tripped-IsSoundSystem = record { leased = refl; probing = inl refl; ends = λ _. refl }

-- At 200 seconds the probe is granted.
reserve_after_deadlines_example :
    (lease : Lease) × ((reserve_pass_operation settings args
        (returned false)
        2
        (seconds 200)
        tripped).0
      ≡ granted lease)
    × (lease.id ≡ 2)
    × (is_open tripped.system.circuit_state ≡ true → lease.is_probe ≡ true)
unfolding reserve_pass_operation reserve_rested release_expired half_open_due grant refuse
    complete_pass_operation completed_row release_lease settle_circuit settle_probe open_circuit
    quota_snapshot
reserve_after_deadlines_example =
    reserve_after_deadlines settings args (returned false) 2 (seconds 200) tripped
      tripped-IsSoundSystem refl refl refl refl refl refl (omega arith) (omega arith) (omega arith)
      (omega arith)

complete-circuit_example :
    Settled (seconds 20) started.system tripped.system
    × (false ≡ true → is_open tripped.system.circuit_state ≡ true)
unfolding reserve_pass_operation reserve_rested release_expired half_open_due grant refuse
    quota_snapshot
complete-circuit_example =
    complete-circuit settings (lease_of first_operation) too_many_requests (seconds 20) started
      first_operation refl refl

abbrev started_at : ℕ → ℕ → Operation
started_at id instant = new_operation args id instant calm

-- Three operations within the hour: the next may start an hour after the first.
quota_snapshot_exact_example :
    let ops =
      started_at 1 (seconds 10) ∷ started_at 2 (seconds 50) ∷ started_at 3 (seconds 90) ∷ [] in
    ((quota_snapshot settings 9 (seconds 100) ops).available_at ≤ seconds 3_610) ↔ (
      (in_window (hours 1) 9 (seconds 3_610) ops < 3)
      × (in_window (hours 24) 9 (seconds 3_610) ops < 8))
quota_snapshot_exact_example =
    quota_snapshot_exact settings 9 (seconds 100) (seconds 3_610)
      (started_at 1 (seconds 10) ∷ started_at 2 (seconds 50) ∷ started_at 3 (seconds 90) ∷ [])
      (omega arith) (omega arith) (omega arith)
