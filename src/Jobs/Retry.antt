-- ===== src/Jobs/Retry.antt =====
-- The back-off of `_retry_delay`, and the end of a job that keeps failing.
use native.Mathlib.Nat.{one-le-pow, pow-suc}
use imtegrale.Prelude.{
  ℕ, zero, suc, ◌+◌, ◌-◌, ◌*◌, ◌^◌, ◌≤◌, ◌<◌, min, ◌≡◌, true, false, Option, arith, ap, ◌∙◌, List,
  [], ◌∷◌, length, ltb, if◌then◌else◌,
}
use imtegrale.Models.{DurableJob, JobKind, JobStatus, seconds}
use imtegrale.Jobs.{retry_delay}
use imtegrale.Jobs.Lease.{claimed_job, finished_job}
use Prim.Native.String.{String}

-- Every delay lies between 5 and 300 seconds.
pub retry_delay_bounds : (n : ℕ) → (seconds 5 ≤ retry_delay n) × (retry_delay n ≤ seconds 300)
unfolding retry_delay
retry_delay_bounds n = let p = one-le-pow (n - 1) 2 (omega arith) in (omega arith, omega arith)

-- After the first attempt the delay doubles until it reaches its ceiling.
pub retry_delay_doubles :
    (n : ℕ) → 0 < n → retry_delay (n + 1) ≡ min (seconds 300) (2 * retry_delay n)
unfolding retry_delay
retry_delay_doubles zero h = elim h [ ]
retry_delay_doubles (suc n) h =
    let next : 2 ^ (suc n + 1 - 1) ≡ 2 ^ n * 2 =
      ap (λ k. 2 ^ k) (let e : suc n + 1 - 1 ≡ suc n = omega arith in e) ∙ pow-suc 2 n in
    let this : 2 ^ (suc n - 1) ≡ 2 ^ n =
      ap (λ k. 2 ^ k) (let e : suc n - 1 ≡ n = omega arith in e) in
    omega (arith, next, this)

-- One attempt of a schedule: when it is claimed, by which worker, and the error that it reports.
pub record Attempt : Type 0 where
  pub now : ℕ
  pub worker : ℕ
  pub error_code : Option String

-- The row after every attempt of a schedule was claimed and then reported as a retryable failure.
pub failing : JobKind → List Attempt → DurableJob → DurableJob
failing kind [] j = j
failing kind (a ∷ rest) j =
    failing kind rest
      (finished_job false a.error_code true a.now (claimed_job kind a.now a.worker j))

failed_row : JobKind → Attempt → DurableJob → DurableJob
failed_row kind a j = finished_job false a.error_code true a.now (claimed_job kind a.now a.worker j)

failed_row_lem :
    (kind : JobKind) (a : Attempt) (j : DurableJob)
    → let k = failed_row kind a j in
      (k.attempts ≡ j.attempts + 1)
      × (k.max_attempts ≡ j.max_attempts)
      × (k.status ≡ (
          if ltb (j.attempts + 1) j.max_attempts then JobStatus.queued else JobStatus.dead_letter))
unfolding failed_row finished_job claimed_job
failed_row_lem kind a j = ground arith

-- A job that fails at every attempt is queued again until its last attempt and then dead-lettered:
-- exactly `max_attempts - attempts` claims use it up.
pub failing_dead_letters :
    (kind : JobKind) (schedule : List Attempt) (j : DurableJob)
    → j.status ≡ JobStatus.queued
    → j.attempts < j.max_attempts
    → j.attempts + length schedule ≤ j.max_attempts
    → (failing kind schedule j).status ≡ (
        if ltb (j.attempts + length schedule) j.max_attempts
        then JobStatus.queued
        else JobStatus.dead_letter)
unfolding failing failed_row
failing_dead_letters kind [] j q room fits = ground arith
failing_dead_letters kind (a ∷ []) j q room fits = ground (arith, failed_row_lem kind a j)
failing_dead_letters kind (a ∷ b ∷ rest) j q room fits =
    ground
      (arith, failed_row_lem kind a j, failing_dead_letters kind (b ∷ rest) (failed_row kind a j))
