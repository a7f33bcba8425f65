-- ===== src/Gateway/Outcome.antt =====
-- What the end of an operation does to the circuit.
use imtegrale.Prelude.{
  ℕ, zero, suc, ◌+◌, ◌*◌, ◌^◌, ◌≡◌, ◌≤◌, ◌<◌, ◌⊎◌, refl, ap, ◌∙◌, inl, inr, true, false, Option,
  some, List, arith, min, ◌==◌, leb, is_some_of, if-both,
}
use imtegrale.Query.{find}
use imtegrale.Models.{hours, seconds, minutes}
use imtegrale.Gateway.{State, SystemState, Operation, GatewaySettings, ErrorClass, is_open}
use imtegrale.Gateway.Guards.{Lease}
use Prim.Native.String.{String}
use imtegrale.Gateway.Complete.{
  Completion, release_lease, settle_circuit, settle_probe, open_circuit, complete_pass_operation,
  pause_of, metadata_of, forbidden_targets, recent_failures, is_unavailable,
}

-- The circuit of a row is as in another, or it has just been opened for at most a day.
pub record Opened (current : ℕ) (before after : SystemState) : Type 0 where
  pub state : is_open after.circuit_state ≡ true
  pub until : ℕ
  pub ends : after.circuit_open_until ≡ some until
  pub later : current < until
  pub bounded : until ≤ current + hours 24
  pub counted : after.circuit_failure_count ≡ before.circuit_failure_count + 1

pub record SameCircuit (before after : SystemState) : Type 0 where
  pub state : after.circuit_state ≡ before.circuit_state
  pub ends : after.circuit_open_until ≡ before.circuit_open_until
  pub counted : after.circuit_failure_count ≡ before.circuit_failure_count

abbrev pub Settled : ℕ → SystemState → SystemState → Type 0
Settled current before after = SameCircuit before after ⊎ Opened current before after

open_circuit-Opened :
    (reason : String) (current until : ℕ) (before s : SystemState)
    → s.circuit_failure_count ≡ before.circuit_failure_count
    → current < until
    → until ≤ current + hours 24
    → Opened current before (open_circuit reason until s)
unfolding open_circuit
open_circuit-Opened reason current until before s counted later bounded = record {
  state = refl;
  until = until;
  ends = refl;
  later = later;
  bounded = bounded;
  counted = rw counted refl;
}

pause_positive : (retry : Option ℕ) → 0 < pause_of retry
pause_positive retry = ground arith

power_bounded : (m : ℕ) → m ≤ 3 → (0 < 15 * 2 ^ m) × (15 * 2 ^ m ≤ 120)
power_bounded zero h = ground arith
power_bounded (suc zero) h = ground arith
power_bounded (suc (suc zero)) h = ground arith
power_bounded (suc (suc (suc zero))) h = ground arith
power_bounded (suc (suc (suc (suc m)))) h = absurd (omega (arith, h))

SameCircuit-refl : (s : SystemState) → SameCircuit s s
SameCircuit-refl s = record { state = refl; ends = refl; counted = refl }

settle-Settled :
    (c : Completion) (current : ℕ) (ops : List Operation) (s : SystemState)
    → c.success ≡ false
    → Settled current s (settle_circuit c current ops s)
unfolding settle_circuit
settle-Settled c current ops s failed =
    let meta = metadata_of c.error in
    let pause = pause_positive meta.retry_after in
    let (some_time, two_hours) = power_bounded (min 3 s.circuit_failure_count) (omega arith) in
    let opens_at =
      λ (until : ℕ) (reason : String). open_circuit-Opened reason current until s s refl in
    let settled = Settled current s in
    rw failed (
      if-both settled (is_some_of 429 meta.upstream_status)
        (inr (
          opens_at (current + seconds (min (pause_of meta.retry_after) 86_400)) "upstream_429"
            (omega (arith, pause)) (omega arith)))
        (if-both settled (is_some_of 403 meta.upstream_status)
          (if-both settled (leb 3 (forbidden_targets current ops))
            (inr (opens_at (current + hours 1) "repeated_403" (omega arith) (omega arith)))
            (inl (SameCircuit-refl s)))
          (if-both settled (is_unavailable meta.error_class)
            (if-both settled (leb 3 (recent_failures current ops))
              (inr (
                opens_at (current + minutes (15 * 2 ^ min 3 s.circuit_failure_count))
                  "upstream_instability" (omega (arith, some_time)) (omega (arith, two_hours))))
              (inl (SameCircuit-refl s)))
            (inl (SameCircuit-refl s)))))

probe-Settled :
    (lease : Lease) (c : Completion) (current : ℕ) (before s : SystemState)
    → Settled current before s
    → Settled current before (settle_probe lease c current s)
unfolding settle_probe
probe-Settled lease c current before s (inl same) =
    if-both (Settled current before) _
      (inr (
        open_circuit-Opened _ current (current + minutes 30) before s same.counted (omega arith)
          (omega arith)))
      (inl same)
probe-Settled lease c current before s (inr opened) = let e = opened.state in rw e (ground arith)

-- A probe that fails leaves the circuit open.
probe_reopens :
    (lease : Lease) (c : Completion) (current : ℕ) (s : SystemState)
    → lease.is_probe ≡ true
    → c.success ≡ false
    → is_open (settle_probe lease c current s).circuit_state ≡ true
unfolding settle_probe open_circuit
probe_reopens lease c current s probe failed = ground arith

release_lease-SameCircuit :
    (settings : GatewaySettings) (lease : Lease) (e : Option ErrorClass) (current : ℕ)
    (s : SystemState)
    → SameCircuit s (release_lease settings lease e current s)
unfolding release_lease
release_lease-SameCircuit settings lease e current s = record {
  state = ground arith;
  ends = ground arith;
  counted = ground arith;
}

Settled-of_same :
    (current : ℕ) (a b c : SystemState)
    → SameCircuit a b
    → Settled current b c
    → Settled current a c
Settled-of_same current a b c same (inl s) = inl (record {
  state = s.state ∙ same.state;
  ends = s.ends ∙ same.ends;
  counted = s.counted ∙ same.counted;
})
Settled-of_same current a b c same (inr o) = inr (record {
  state = o.state;
  until = o.until;
  ends = o.ends;
  later = o.later;
  bounded = o.bounded;
  counted = o.counted ∙ ap (λ n. n + 1) same.counted;
})

-- A failed operation on record leaves the circuit as it was or opens it for at most a day, counting
-- one more failure; when it was the probe, the circuit is open afterwards.
pub complete-circuit :
    (settings : GatewaySettings) (lease : Lease) (c : Completion) (current : ℕ) (s : State)
    (op : Operation)
    → find (λ o. o.id == lease.id) s.operations ≡ some op
    → c.success ≡ false
    → let after = complete_pass_operation settings lease c current s in
      Settled current s.system after.system
      × (lease.is_probe ≡ true → is_open after.system.circuit_state ≡ true)
unfolding complete_pass_operation
complete-circuit settings lease c current s op found failed =
    rw (found, complete_pass_operation)
      (
        Settled-of_same current s.system _ _
            (release_lease-SameCircuit settings lease _ current s.system)
            (probe-Settled lease c current _ _ (settle-Settled c current _ _ failed)),
        (λ probe. probe_reopens lease c current _ probe failed),
      )
