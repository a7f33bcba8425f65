-- ===== src/Gateway/Transitions.antt =====
-- The transactions of the coordinator as steps, and what they keep of the system row.
use imtegrale.Prelude.{
  ℕ, ◌≡◌, sym, ◌∙◌, inl, inr, Bool, true, Option, none, List, arith, All-member, Memᴰ, Bool-cases,
  Option-cases, ◌==◌, ◌&&◌, is_none,
}
use imtegrale.Query.{find}
use imtegrale.Schedule.{Raised}
use imtegrale.Gateway.{State, SystemState, Operation, GatewaySettings, ErrorClass, is_running}
use imtegrale.Gateway.Guards.{
  Lease, ReserveArgs, Refusal, rejected, value_error, type_error, schedule_error, release_expired,
  first_checks, last_checks, half_open_due,
}
use imtegrale.Gateway.Reserve.{refuse, grant, reserve_rested, reserve_pass_operation}
use imtegrale.Gateway.Complete.{
  Completion, release_lease, settle_circuit, settle_probe, open_circuit, complete_pass_operation,
  attach_operation_account,
}
use imtegrale.Gateway.Single.{
  RunsOnly, IsSingle, IsSoundSystem, reserve-IsSingle, complete-IsSingle, attach-IsSingle,
  first_checks_idle, half_open-active,
}

-- The transactions, with whatever arguments.
pub data Step (settings : GatewaySettings) : State → State → Type 0 where
  reserved :
      {s : State} (args : ReserveArgs) (overdue : Raised Bool) (id current : ℕ)
      → Step settings s (reserve_pass_operation settings args overdue id current s).1
  completed :
      {s : State} (lease : Lease) (c : Completion) (current : ℕ)
      → Step settings s (complete_pass_operation settings lease c current s)
  attached :
      {s : State} (operation_id account_id : ℕ)
      → Step settings s (attach_operation_account operation_id account_id s)

pub data Reach (settings : GatewaySettings) : State → State → Type 0 where
  here : {s : State} → Reach settings s s
  next : {s t u : State} → Reach settings s t → Step settings t u → Reach settings s u

pub record IsSound (s : State) : Type 0 where
  pub system : IsSoundSystem s.system
  pub single : IsSingle s

pub release-IsSoundSystem :
    (current : ℕ) (s : State)
    → IsSoundSystem s.system
    → IsSoundSystem (release_expired current s).system
unfolding release_expired
release-IsSoundSystem current s h = record {
  leased = let l = h.leased in ground arith;
  probing = let l = h.probing in ground arith;
  ends = let l = h.ends in ground arith;
}

half_open-IsSoundSystem :
    (current : ℕ) (s : SystemState) → IsSoundSystem s → IsSoundSystem (half_open_due current s)
unfolding half_open_due
half_open-IsSoundSystem current s h = record {
  leased = let l = h.leased in ground arith;
  probing = let l = h.probing in ground arith;
  ends = let l = h.ends in ground arith;
}

grant-IsSoundSystem :
    (settings : GatewaySettings) (args : ReserveArgs) (id current : ℕ) (s : State)
    → s.system.active_operation_id ≡ none
    → IsSoundSystem s.system
    → IsSoundSystem (grant settings args id current s).1.system
unfolding grant
grant-IsSoundSystem settings args id current s idle h = record {
  leased = ground arith;
  probing = let l = h.probing in ground arith;
  ends = let l = h.ends in ground arith;
}

release_lease-IsSoundSystem :
    (settings : GatewaySettings) (lease : Lease) (e : Option ErrorClass) (current : ℕ)
    (s : SystemState)
    → IsSoundSystem s
    → IsSoundSystem (release_lease settings lease e current s)
unfolding release_lease
release_lease-IsSoundSystem settings lease e current s h = record {
  leased = let l = h.leased in ground arith;
  probing = let l = h.probing in ground arith;
  ends = let l = h.ends in ground arith;
}

settle-IsSoundSystem :
    (lease : Lease) (c : Completion) (current : ℕ) (ops : List Operation) (s : SystemState)
    → IsSoundSystem s
    → IsSoundSystem (settle_probe lease c current (settle_circuit c current ops s))
unfolding settle_probe settle_circuit open_circuit
settle-IsSoundSystem lease c current ops s h = record {
  leased = let l = h.leased in ground arith;
  probing = let l = h.probing in ground arith;
  ends = let l = h.ends in ground arith;
}

refuse-IsSoundSystem :
    (args : ReserveArgs) (r : Refusal) (before s : State)
    → IsSoundSystem before.system
    → IsSoundSystem s.system
    → IsSoundSystem (refuse args r before s).1.system
unfolding refuse
refuse-IsSoundSystem args (rejected r) before s h k = k
refuse-IsSoundSystem args value_error before s h k = h
refuse-IsSoundSystem args type_error before s h k = h
refuse-IsSoundSystem args schedule_error before s h k = h

rested-IsSoundSystem :
    (settings : GatewaySettings) (args : ReserveArgs) (overdue : Raised Bool) (id current : ℕ)
    (before s : State)
    → s.system.active_operation_id ≡ none
    → IsSoundSystem before.system
    → IsSoundSystem s.system
    → IsSoundSystem (reserve_rested settings args overdue id current before s).1.system
unfolding reserve_rested
rested-IsSoundSystem settings args overdue id current before s idle h k =
    elim (Option-cases (last_checks settings args overdue current s)) [
      | inl e ↦ rw (e, reserve_rested) (grant-IsSoundSystem settings args id current s idle k)
      | inr (r, e) ↦ rw (e, reserve_rested) (refuse-IsSoundSystem args r before s h k)
    ]

reserve-IsSoundSystem :
    (settings : GatewaySettings) (args : ReserveArgs) (overdue : Raised Bool) (id current : ℕ)
    (s : State)
    → IsSoundSystem s.system
    → IsSoundSystem (reserve_pass_operation settings args overdue id current s).1.system
unfolding reserve_pass_operation
reserve-IsSoundSystem settings args overdue id current s h =
    elim (Bool-cases (args.quota_bypass && is_none args.bypass_reason)) [
      | inl e ↦ rw (e, reserve_pass_operation) h
      | inr e ↦
          let free = release-IsSoundSystem current s h in
          elim (Option-cases (first_checks current (release_expired current s).system)) [
            | inl f ↦
                rw (e, f, reserve_pass_operation)
                  (rested-IsSoundSystem settings args overdue id current s _
                    (half_open-active current _ ∙ first_checks_idle current s h f) h
                    (half_open-IsSoundSystem current _ free))
            | inr (r, f) ↦
                rw (e, f, reserve_pass_operation) (refuse-IsSoundSystem args r s _ h free)
          ]
    ]

complete-IsSoundSystem :
    (settings : GatewaySettings) (lease : Lease) (c : Completion) (current : ℕ) (s : State)
    → IsSoundSystem s.system
    → IsSoundSystem (complete_pass_operation settings lease c current s).system
unfolding complete_pass_operation
complete-IsSoundSystem settings lease c current s h =
    elim (Option-cases (find (λ op. op.id == lease.id) s.operations)) [
      | inl e ↦ rw (e, complete_pass_operation) h
      | inr (op, e) ↦
          rw (e, complete_pass_operation)
            (settle-IsSoundSystem lease c current _ _
              (release_lease-IsSoundSystem settings lease _ current s.system h))
    ]

-- Every transaction of the coordinator keeps the system row sound and the running operation single.
pub Step-IsSound :
    {settings : GatewaySettings} {s t : State} → Step settings s t → IsSound s → IsSound t
unfolding attach_operation_account
Step-IsSound {settings} {s} (reserved args overdue id current) h = record {
  system = reserve-IsSoundSystem settings args overdue id current s h.system;
  single = reserve-IsSingle settings args overdue id current s h.system h.single;
}
Step-IsSound {settings} {s} (completed lease c current) h = record {
  system = complete-IsSoundSystem settings lease c current s h.system;
  single = complete-IsSingle settings lease c current s h.single;
}
Step-IsSound {settings} {s} (attached id account) h = record {
  system = h.system;
  single = attach-IsSingle id account s h.single;
}

pub Reach-IsSound :
    {settings : GatewaySettings} {s t : State} → Reach settings s t → IsSound s → IsSound t
Reach-IsSound here h = h
Reach-IsSound (next r step) h = Step-IsSound step (Reach-IsSound r h)

-- From a sound state, whatever reservations, completions and attachments follow in whatever order,
-- two operations that run are the same operation.
pub reachable_single_operation :
    {settings : GatewaySettings} {s t : State} {a b : Operation}
    → IsSound s
    → Reach settings s t
    → Memᴰ a t.operations
    → Memᴰ b t.operations
    → is_running a.status ≡ true
    → is_running b.status ≡ true
    → a.id ≡ b.id
reachable_single_operation h path m n x y =
    let single = (Reach-IsSound path h).single in
    let p = All-member (RunsOnly _) single m x in
    let q = All-member (RunsOnly _) single n y in ground (arith, sym p ∙ q)
