-- ===== src/Gateway/Grants.antt =====
-- What a granted reservation says of the state before it, and when a reservation is granted.
use imtegrale.Prelude.{
  ℕ, ◌≡◌, ◌≢◌, ap, ◌≤◌, ◌<◌, refl, sym, ◌∙◌, inl, inr, Bool, false, Option, none, some, [], ◌∷◌,
  ◌++◌, arith, Bool-cases, Option-cases, ◌&&◌, is_none, length,
}
use imtegrale.Schedule.{Raised}
use imtegrale.Gateway.{State, GatewaySettings}
use imtegrale.Gateway.Quota.{quota_snapshot, recent_rows, hourly_rows}
use imtegrale.Gateway.Windows.{in_hour, quota_room, hourly-append, daily-append}
use imtegrale.Gateway.Guards.{
  Lease, ReserveArgs, Refusal, granted, refused, rejected, value_error, type_error, schedule_error,
  release_expired, first_checks, last_checks, check_circuit, check_quota, check_fairness, or_next,
  half_open_due,
}
use imtegrale.Gateway.Reserve.{refuse, grant, reserve_rested, reserve_pass_operation, new_operation}

or_next-none : (a b : Option Refusal) → or_next a b ≡ none → (a ≡ none) × (b ≡ none)
or_next-none none b h = (refl, h)
or_next-none (some r) b h = absurd (ground arith)

-- The state at which a reservation is granted.
abbrev pub rested_state : ℕ → State → State
rested_state current s = record (release_expired current s) {
  system = half_open_due current (release_expired current s).system;
}

refuse_refuses :
    (args : ReserveArgs) (r : Refusal) (before s : State) → (refuse args r before s).0 ≡ refused r
unfolding refuse
refuse_refuses args (rejected r) before s = refl
refuse_refuses args value_error before s = refl
refuse_refuses args type_error before s = refl
refuse_refuses args schedule_error before s = refl

not_granted :
    (args : ReserveArgs) (r : Refusal) (before s t : State) (lease : Lease)
    → refuse args r before s ≢ (granted lease, t)
not_granted args r before s t lease h =
    let e : granted lease ≡ refused r = sym (ap (λ w. w.0) h) ∙ refuse_refuses args r before s in cc

module _ (settings : GatewaySettings) (args : ReserveArgs) (overdue : Raised Bool)
    (id current : ℕ) where
  rested_inversion :
      (before s t : State) (lease : Lease)
      → reserve_rested settings args overdue id current before s ≡ (granted lease, t)
      → (last_checks settings args overdue current s ≡ none)
        × (grant settings args id current s ≡ (granted lease, t))
  unfolding reserve_rested
  rested_inversion before s t lease h =
      elim (Option-cases (last_checks settings args overdue current s)) [
        | inl e ↦ (e, rw (e, reserve_rested) at h)
        | inr (r, e) ↦ absurd (not_granted args r before s t lease (rw (e, reserve_rested) at h))
      ]

  granted_inversion :
      (s t : State) (lease : Lease)
      → reserve_pass_operation settings args overdue id current s ≡ (granted lease, t)
      → (first_checks current (release_expired current s).system ≡ none)
        × (last_checks settings args overdue current (rested_state current s) ≡ none)
        × (grant settings args id current (rested_state current s) ≡ (granted lease, t))
  unfolding reserve_pass_operation
  granted_inversion s t lease h =
      elim (Bool-cases (args.quota_bypass && is_none args.bypass_reason)) [
        | inl e ↦ absurd (
            let w : (refused value_error, s) ≡ (granted lease, t) =
              rw (e, reserve_pass_operation) at h in
            let f : refused value_error ≡ granted lease = ap (λ w. w.0) w in cc)
        | inr e ↦ elim (Option-cases (first_checks current (release_expired current s).system)) [
          | inl f ↦
              let rest = rw (e, f, reserve_pass_operation) at h in
              let (checks, done) = rested_inversion s (rested_state current s) t lease rest in
              (f, checks, done)
          | inr (r, f) ↦ absurd (
              not_granted args r s (release_expired current s) t lease
                (rw (e, f, reserve_pass_operation) at h))
        ]
      ]

  passes_quota :
      (u : State)
      → last_checks settings args overdue current u ≡ none
      → check_quota settings args current u.operations ≡ none
  passes_quota u h =
      let (circuit, rest) = or_next-none (check_circuit settings args current u.system) _ h in
      let (fairness, quota) = or_next-none (check_fairness settings args overdue current) _ rest in
      quota

  -- Of one target, unless the quota is bypassed, at most the quota of operations of the last hour
  -- and of the last day are on record when an operation is granted, that operation included.
  pub granted_within_quota :
      (s t : State) (lease : Lease)
      → 0 < settings.pass_hourly_quota
      → 0 < settings.pass_daily_quota
      → args.quota_bypass ≡ false
      → reserve_pass_operation settings args overdue id current s ≡ (granted lease, t)
      → (length (hourly_rows args.target_ref current t.operations) ≤ settings.pass_hourly_quota)
        × (length (recent_rows args.target_ref current t.operations) ≤ settings.pass_daily_quota)
  unfolding grant
  granted_within_quota s t lease hour day bounded h =
      let (f, checks, done) = granted_inversion s t lease h in
      let u = rested_state current s in
      let quota : check_quota settings args current u.operations ≡ none = passes_quota u checks in
      let rows : u.operations ++ new_operation args id current u.system ∷ [] ≡ t.operations =
        ap (λ w. w.1.operations) done in
      let room = quota_room settings args.target_ref current u.operations hour day in
      let zero : (quota_snapshot settings args.target_ref current u.operations).retry_after_seconds
          ≡ 0 =
        ground (arith, quota, bounded) in
      let (in_hour, in_day) = room.0 zero in
      rw (sym rows) (
        ground (
          arith,
          hourly-append args.target_ref current u.operations
              (new_operation args id current u.system),
        ),
        ground (
          arith,
          daily-append args.target_ref current u.operations
              (new_operation args id current u.system),
        ),
      )
