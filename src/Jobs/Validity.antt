-- ===== src/Jobs/Validity.antt =====
-- The well-formedness of a queue row, kept by each transition of jobs.py.
use imtegrale.Prelude.{ℕ, ◌≤◌, ◌<◌, ◌≡◌, ◌⊎◌, Bool, false, Option, none, arith, is_none}
use imtegrale.Models.{DurableJob, JobKind, JobStatus, Key, Payload}
use imtegrale.Store.{Context}
use imtegrale.Jobs.{new_job}
use imtegrale.Jobs.Lease.{recovered_job, claimed_job, finished_job}
use Prim.Native.String.{String}

abbrev pub IsEnded : JobStatus → Type 0
IsEnded s = (s ≡ JobStatus.succeeded) ⊎ (s ≡ JobStatus.dead_letter)

pub record IsValidJob (j : DurableJob) : Type 0 where
  pub attempts_capped : j.attempts ≤ j.max_attempts
  pub queued_free :
      j.status ≡ JobStatus.queued
      → (j.worker_id ≡ none) × (j.lease_expires_at ≡ none) × (j.attempts < j.max_attempts)
  pub running_owned :
      j.status ≡ JobStatus.running
      → (is_none j.worker_id ≡ false) × (is_none j.lease_expires_at ≡ false) × (0 < j.attempts)
  pub ended_closed :
      IsEnded j.status
      → (j.worker_id ≡ none) × (j.lease_expires_at ≡ none) × (is_none j.completed_at ≡ false)

pub new_job-IsValidJob :
    (ctx : Context) (kind : JobKind) (key : Key) (account : Option ℕ) (p : Payload) (priority : ℕ)
    (available : Option ℕ) (max_attempts : ℕ) (correlation : Option ℕ)
    → 0 < max_attempts
    → IsValidJob (new_job ctx kind key account p priority available max_attempts correlation)
new_job-IsValidJob ctx kind key account p priority available max_attempts correlation h =
    ground arith

pub claimed_job-IsValidJob :
    (kind : JobKind) (now worker : ℕ) (j : DurableJob)
    → IsValidJob j
    → j.status ≡ JobStatus.queued
    → IsValidJob (claimed_job kind now worker j)
unfolding claimed_job
claimed_job-IsValidJob kind now worker j v q = ground arith

pub recovered_job-IsValidJob :
    (now : ℕ) (j : DurableJob) → IsValidJob j → IsValidJob (recovered_job now j)
unfolding recovered_job
recovered_job-IsValidJob now j v = ground arith

pub finished_job-IsValidJob :
    (success : Bool) (e : Option String) (retryable : Bool) (now : ℕ) (j : DurableJob)
    → IsValidJob j
    → IsValidJob (finished_job success e retryable now j)
unfolding finished_job
finished_job-IsValidJob success e retryable now j v = ground arith
