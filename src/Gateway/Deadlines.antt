-- ===== src/Gateway/Deadlines.antt =====
-- No deadline of the coordinator outlasts its instant: once they have passed, PASS is available.
use imtegrale.Prelude.{
  ℕ, ◌≡◌, ◌<◌, refl, sym, inl, inr, Bool, true, false, Option, none, arith, Bool-cases,
  Option-cases, holds, ltb, leb, length,
}
use imtegrale.Query.{select}
use imtegrale.Query.Counts.{count-update}
use imtegrale.Models.{hours}
use imtegrale.Schedule.{Raised}
use imtegrale.Gateway.{
  State, SystemState, Operation, GatewaySettings, ErrorClass, OperationStatus, is_open,
  is_half_open,
}
use imtegrale.Gateway.Quota.{quota_snapshot, recent_rows, hourly_rows, is_recent}
use imtegrale.Gateway.Windows.{in_hour, count_hourly, count_daily, quota_room}
use imtegrale.Gateway.Grants.{rested_state}
use imtegrale.Gateway.Single.{IsSoundSystem}
use imtegrale.Gateway.Transitions.{release-IsSoundSystem}
use imtegrale.Gateway.Guards.{
  Lease, ReserveArgs, Refusal, granted, release_expired, first_checks, last_checks, check_circuit,
  check_quota, check_fairness, or_next, half_open_due, is_interactive,
}
use imtegrale.Gateway.Reserve.{
  lease_of, grant, reserve_rested, reserve_pass_operation, new_operation,
}

-- A circuit whose end has passed lets a synchronisation through.
circuit_after_deadline :
    (settings : GatewaySettings) (args : ReserveArgs) (current : ℕ) (system : SystemState)
    → IsSoundSystem system
    → system.active_operation_id ≡ none
    → is_interactive args.kind ≡ false
    → holds (ltb current) system.circuit_open_until ≡ false
    → check_circuit settings args current (half_open_due current system) ≡ none
unfolding half_open_due
circuit_after_deadline settings args current system sound idle kind over =
    let ends = sound.ends in let probing = sound.probing in ground arith

released_columns :
    (current : ℕ) (s : State)
    → ((release_expired current s).system.quiet_until ≡ s.system.quiet_until)
      × ((release_expired current s).system.circuit_open_until ≡ s.system.circuit_open_until)
unfolding release_expired
released_columns current s = ground arith

module _ (current : ℕ) (s : State) (sound : IsSoundSystem s.system)
    (over : holds (ltb current) s.system.active_until ≡ false) where
  released_idle : (release_expired current s).system.active_operation_id ≡ none
  unfolding release_expired
  released_idle = let l = sound.leased in ground arith

  released-first_checks :
      holds (ltb current) s.system.quiet_until ≡ false
      → first_checks current (release_expired current s).system ≡ none
  released-first_checks rested =
      let (quiet, _) = released_columns current s in
      let idle = released_idle in ground (arith, quiet, idle, rested)

-- What the guards read of the operations is not what an abandoned lease changes.
release_count :
    (current : ℕ) (p : Operation → Bool)
    → ((a : Operation) (status : OperationStatus) (at : Option ℕ) (e : Option ErrorClass)
        → p (record a { status = status; completed_at = at; error_class = e }) ≡ p a)
    → (s : State)
    → length (select p (release_expired current s).operations) ≡ length (select p s.operations)
unfolding release_expired
release_count current p same s = elim (Option-cases s.system.active_operation_id) [
  | inl e ↦ rw (e, release_expired) refl
  | inr (active, e) ↦ elim (Bool-cases (holds (λ t. leb t current) s.system.active_until)) [
    | inl over ↦
        rw (e, release_expired) (rw over (count-update p _ _ (λ a. same a _ _ _) s.operations))
    | inr runs ↦ rw (e, release_expired) (rw runs refl)
  ]
]

released_room :
    (settings : GatewaySettings) (target current : ℕ) (s : State)
    → 0 < settings.pass_hourly_quota
    → 0 < settings.pass_daily_quota
    → length (hourly_rows target current s.operations) < settings.pass_hourly_quota
    → length (recent_rows target current s.operations) < settings.pass_daily_quota
    → (quota_snapshot settings target current
        (release_expired current s).operations).retry_after_seconds
      ≡ 0
released_room settings target current s hour day h d =
    (quota_room settings target current (release_expired current s).operations hour day).1 (
      rw
          (
            count_hourly,
            release_count current (in_hour target current) (λ a _ _ _. refl) s,
            sym (count_hourly target current s.operations),
          )
          h,
      rw
          (
            count_daily,
            release_count current (is_recent (hours 24) target current) (λ a _ _ _. refl) s,
            sym (count_daily target current s.operations),
          )
          d,
    )

all_pass :
    (a b c : Option Refusal) → a ≡ none → b ≡ none → c ≡ none → or_next a (or_next b c) ≡ none
all_pass a b c p q r = rw (p, q) r

granted_by :
    (settings : GatewaySettings) (args : ReserveArgs) (overdue : Raised Bool) (id current : ℕ)
    (s : State)
    → args.quota_bypass ≡ false
    → first_checks current (release_expired current s).system ≡ none
    → last_checks settings args overdue current (rested_state current s) ≡ none
    → (reserve_pass_operation settings args overdue id current s).0
      ≡ granted (lease_of (new_operation args id current (rested_state current s).system))
unfolding reserve_pass_operation reserve_rested grant
granted_by settings args overdue id current s bounded first last =
    rw (bounded, first, reserve_pass_operation) (rw (last, reserve_rested) refl)

-- A circuit that was open is half open once its end has passed.
reopened :
    (current : ℕ) (s : State)
    → IsSoundSystem s.system
    → holds (ltb current) s.system.circuit_open_until ≡ false
    → is_open s.system.circuit_state ≡ true
    → is_half_open (rested_state current s).system.circuit_state ≡ true
unfolding release_expired half_open_due
reopened current s sound closes e = let ends = sound.ends in ground arith

-- Once the lease, the rest and the circuit of a sound state have passed, a synchronisation that
-- neither waits for overdue accounts nor exceeds a quota is granted, as a probe when the circuit was open.
pub reserve_after_deadlines :
    (settings : GatewaySettings) (args : ReserveArgs) (overdue : Raised Bool) (id current : ℕ)
    (s : State)
    → IsSoundSystem s.system
    → holds (ltb current) s.system.active_until ≡ false
    → holds (ltb current) s.system.quiet_until ≡ false
    → holds (ltb current) s.system.circuit_open_until ≡ false
    → is_interactive args.kind ≡ false
    → args.enforce_fairness ≡ false
    → args.quota_bypass ≡ false
    → 0 < settings.pass_hourly_quota
    → 0 < settings.pass_daily_quota
    → length (hourly_rows args.target_ref current s.operations) < settings.pass_hourly_quota
    → length (recent_rows args.target_ref current s.operations) < settings.pass_daily_quota
    → (lease : Lease) × ((reserve_pass_operation settings args overdue id current s).0
        ≡ granted lease)
      × (lease.id ≡ id)
      × (is_open s.system.circuit_state ≡ true → lease.is_probe ≡ true)
reserve_after_deadlines settings args overdue id current s sound over rested closes kind unfair
      unbypassed hour day h d =
    let first = released-first_checks current s sound over rested in
    let circuit =
      circuit_after_deadline settings args current (release_expired current s).system
        (release-IsSoundSystem current s sound) (released_idle current s sound over) kind
        (rw ((released_columns current s).1) closes) in
    let quota = released_room settings args.target_ref current s hour day h d in
    let checks : last_checks settings args overdue current (rested_state current s) ≡ none =
      all_pass (check_circuit settings args current (rested_state current s).system)
        (check_fairness settings args overdue current)
        (check_quota settings args current (rested_state current s).operations) circuit
        (ground (arith, unfair)) (ground (arith, quota, unbypassed)) in
    (
      lease_of (new_operation args id current (rested_state current s).system),
      granted_by settings args overdue id current s unbypassed first checks,
      refl,
      (λ e. let half = reopened current s sound closes e in ground (arith, half)),
    )
