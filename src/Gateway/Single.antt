-- ===== src/Gateway/Single.antt =====
-- Reservations and completions keep the running operation the one that the system row names.
use imtegrale.Prelude.{
  ℕ, ◌≡◌, ◌⊎◌, refl, ◌∙◌, inl, inr, Bool, true, false, Option, none, some, List, [], ◌∷◌, ◌++◌,
  arith, All, All-append, Bool-cases, Option-cases, ◌==◌, ◌&&◌, if◌then◌else◌, holds, leb,
  is_some_of, is_none,
}
use imtegrale.Query.{update, find}
use imtegrale.Query.Rows.{All-update, All-update_to, All-imp}
use imtegrale.Schedule.{Raised}
use imtegrale.Gateway.{
  State, SystemState, Operation, GatewaySettings, is_running, is_open, ErrorClass,
}
use imtegrale.Gateway.Guards.{
  Lease, ReserveArgs, Refusal, rejected, value_error, type_error, schedule_error, abandon,
  release_expired, first_checks, last_checks, half_open_due,
}
use imtegrale.Gateway.Reserve.{new_operation, refuse, grant, reserve_rested, reserve_pass_operation}
use imtegrale.Gateway.Complete.{
  Completion, completed_row, release_lease, settle_circuit, settle_probe, open_circuit,
  complete_pass_operation, attach_operation_account,
}

abbrev pub RunsOnly : Option ℕ → Operation → Type 0
RunsOnly active op = is_running op.status ≡ true → active ≡ some op.id

-- Every running operation is the active one.
abbrev pub IsSingle : State → Type 0
IsSingle s = All (RunsOnly s.system.active_operation_id) s.operations

-- What the system row must satisfy: an active operation has a lease, a probe is the active
-- operation, and an open circuit has an end.
pub record IsSoundSystem (s : SystemState) : Type 0 where
  pub leased : holds (λ _. true) s.active_operation_id ≡ holds (λ _. true) s.active_until
  pub probing : (s.probe_operation_id ≡ none) ⊎ (s.probe_operation_id ≡ s.active_operation_id)
  pub ends : is_open s.circuit_state ≡ true → holds (λ _. true) s.circuit_open_until ≡ true

module _ (current id : ℕ) (s : State) (active : s.system.active_operation_id ≡ some id) where
  missed :
      (op : Operation)
      → (op.id == id && is_running op.status) ≡ false
      → RunsOnly (some id) op
      → RunsOnly none op
  missed op test h r =
      let same : op.id ≡ id = let e = h r in ground arith in
      let here : (op.id == id) ≡ true = ground arith in absurd (ground (arith, test, r, here))

  abandon-IsSingle : IsSingle s → IsSingle (abandon id current s)
  abandon-IsSingle h =
      All-update_to (RunsOnly (some id)) (RunsOnly none) (λ op. op.id == id && is_running op.status)
        _ (λ op test k r. absurd (ground arith)) missed s.operations (rw active at h)

pub release-IsSingle : (current : ℕ) (s : State) → IsSingle s → IsSingle (release_expired current s)
unfolding release_expired
release-IsSingle current s h = elim (Option-cases s.system.active_operation_id) [
  | inl e ↦ rw (e, release_expired) h
  | inr (id, e) ↦ elim (Bool-cases (holds (λ t. leb t current) s.system.active_until)) [
    | inl over ↦ rw (e, release_expired) (rw over (abandon-IsSingle current id s e h))
    | inr runs ↦ rw (e, release_expired) (rw runs h)
  ]
]

-- Once the first guards pass, no operation is active.
pub first_checks_idle :
    (current : ℕ) (s : State)
    → IsSoundSystem s.system
    → first_checks current (release_expired current s).system ≡ none
    → (release_expired current s).system.active_operation_id ≡ none
unfolding release_expired
first_checks_idle current s sound h = elim (Option-cases s.system.active_operation_id) [
  | inl e ↦ rw (e, release_expired) e
  | inr (id, e) ↦ elim (Option-cases s.system.active_until) [
    | inl f ↦ absurd (let l = sound.leased in ground arith)
    | inr (t, f) ↦ elim (Bool-cases (leb t current)) [
      | inl over ↦ ground arith
      | inr runs ↦ absurd (ground arith)
    ]
  ]
]

pub half_open-active :
    (current : ℕ) (s : SystemState)
    → (half_open_due current s).active_operation_id ≡ s.active_operation_id
unfolding half_open_due
half_open-active current s = ground arith

granted_rows :
    (args : ReserveArgs) (id current : ℕ) (s : State)
    → s.system.active_operation_id ≡ none
    → IsSingle s
    → All (RunsOnly (some id)) (s.operations ++ new_operation args id current s.system ∷ [])
granted_rows args id current s idle h =
    All-append (RunsOnly (some id)) s.operations (new_operation args id current s.system ∷ [])
      (All-imp (RunsOnly s.system.active_operation_id) (RunsOnly (some id))
        (λ op k r. absurd (let e = k r in ground arith)) s.operations h)
      ((λ _. refl), tt)

grant-IsSingle :
    (settings : GatewaySettings) (args : ReserveArgs) (id current : ℕ) (s : State)
    → s.system.active_operation_id ≡ none
    → IsSingle s
    → IsSingle (grant settings args id current s).1
unfolding grant
grant-IsSingle settings args id current s idle h =
    elim (Bool-cases (new_operation args id current s.system).is_probe) [
      | inl e ↦ rw e (rw e at (granted_rows args id current s idle h))
      | inr e ↦ rw e (rw e at (granted_rows args id current s idle h))
    ]

settle-active :
    (lease : Lease) (c : Completion) (current : ℕ) (ops : List Operation) (s : SystemState)
    → (settle_probe lease c current (settle_circuit c current ops s)).active_operation_id
      ≡ s.active_operation_id
unfolding settle_probe settle_circuit open_circuit
settle-active lease c current ops s = ground arith

release_lease-active :
    (settings : GatewaySettings) (lease : Lease) (e : Option ErrorClass) (current : ℕ)
    (s : SystemState)
    → (release_lease settings lease e current s).active_operation_id
      ≡ (if is_some_of lease.id s.active_operation_id then none else s.active_operation_id)
unfolding release_lease
release_lease-active settings lease e current s = ground arith

completed_rows :
    (lease : Lease) (c : Completion) (current : ℕ) (active : Option ℕ) (ops : List Operation)
    → All (RunsOnly active) ops
    → All
        (RunsOnly (if is_some_of lease.id active then none else active))
        (update (λ op. op.id == lease.id) (completed_row lease c current) ops)
unfolding completed_row
completed_rows lease c current active ops h =
    All-update_to (RunsOnly active) (RunsOnly (if is_some_of lease.id active then none else active))
      (λ op. op.id == lease.id) (completed_row lease c current)
      (λ op test k r. absurd (ground arith)) (λ op test k r. (let e = k r in ground arith)) ops h

pub complete-IsSingle :
    (settings : GatewaySettings) (lease : Lease) (c : Completion) (current : ℕ) (s : State)
    → IsSingle s
    → IsSingle (complete_pass_operation settings lease c current s)
unfolding complete_pass_operation
complete-IsSingle settings lease c current s h =
    elim (Option-cases (find (λ op. op.id == lease.id) s.operations)) [
      | inl e ↦ rw (e, complete_pass_operation) h
      | inr (op, e) ↦
          rw (e, complete_pass_operation)
            (rw (settle-active, release_lease-active)
              (completed_rows lease c current s.system.active_operation_id s.operations h))
    ]

pub attach-IsSingle :
    (id account : ℕ) (s : State) → IsSingle s → IsSingle (attach_operation_account id account s)
unfolding attach_operation_account
attach-IsSingle id account s h =
    All-update (RunsOnly s.system.active_operation_id) (λ op. op.id == id) _ (λ op _ k. k)
      s.operations h

pub refuse-IsSingle :
    (args : ReserveArgs) (r : Refusal) (before s : State)
    → IsSingle before
    → IsSingle s
    → IsSingle (refuse args r before s).1
unfolding refuse
refuse-IsSingle args (rejected r) before s h k = k
refuse-IsSingle args value_error before s h k = h
refuse-IsSingle args type_error before s h k = h
refuse-IsSingle args schedule_error before s h k = h

rested-IsSingle :
    (settings : GatewaySettings) (args : ReserveArgs) (overdue : Raised Bool) (id current : ℕ)
    (before s : State)
    → s.system.active_operation_id ≡ none
    → IsSingle before
    → IsSingle s
    → IsSingle (reserve_rested settings args overdue id current before s).1
unfolding reserve_rested
rested-IsSingle settings args overdue id current before s idle h k =
    elim (Option-cases (last_checks settings args overdue current s)) [
      | inl e ↦ rw (e, reserve_rested) (grant-IsSingle settings args id current s idle k)
      | inr (r, e) ↦ rw (e, reserve_rested) (refuse-IsSingle args r before s h k)
    ]

pub reserve-IsSingle :
    (settings : GatewaySettings) (args : ReserveArgs) (overdue : Raised Bool) (id current : ℕ)
    (s : State)
    → IsSoundSystem s.system
    → IsSingle s
    → IsSingle (reserve_pass_operation settings args overdue id current s).1
unfolding reserve_pass_operation
reserve-IsSingle settings args overdue id current s sound h =
    elim (Bool-cases (args.quota_bypass && is_none args.bypass_reason)) [
      | inl e ↦ rw (e, reserve_pass_operation) h
      | inr e ↦
          let free = release-IsSingle current s h in
          elim (Option-cases (first_checks current (release_expired current s).system)) [
            | inl f ↦
                rw (e, f, reserve_pass_operation)
                  (rested-IsSingle settings args overdue id current s _
                    (half_open-active current _ ∙ first_checks_idle current s sound f) h
                    (rw half_open-active free))
            | inr (r, f) ↦ rw (e, f, reserve_pass_operation) (refuse-IsSingle args r s _ h free)
          ]
    ]
