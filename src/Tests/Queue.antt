-- ===== src/Tests/Queue.antt =====
-- The queue on the sample database.
use imtegrale.Prelude.{
  ℕ, ◌+◌, ◌≡◌, refl, true, false, none, some, List, [], ◌∷◌, arith, All, Memᴰ, ◌==◌,
}
use imtegrale.Query.{find}
use imtegrale.Models.{Db, DurableJob, sync, JobStatus, seconds}
use imtegrale.Jobs.Lease.{claim_job, claim_of, claimed_job, JobClaim, finish_job}
use imtegrale.Jobs.Due.{IsDue}
use imtegrale.Jobs.Recovery.{IsUniqueJobs}
use imtegrale.Jobs.Claims.{HasTaken, claim_takes_first, claim_none_only_if_idle, claim_keeps_others}
use imtegrale.Jobs.Ownership.{HasOutcome, stale_finish_refused, holder_finishes}
use imtegrale.Jobs.Retry.{Attempt, failing, failing_dead_letters}
use imtegrale.Tests.Samples.{db, sync_job, calendar_job, unlocked}

abbrev now : ℕ
now = seconds 10

unique : IsUniqueJobs db.jobs
unique = omega arith

abbrev claim : JobClaim
claim = claim_of sync 900 55 (claimed_job sync now 900 sync_job)

-- The job with the smaller priority is claimed, though it stands second.
claimed_first : (claim_job sync now 900 55 unlocked db).0 ≡ some claim
unfolding claim_job
claimed_first = refl

claim_takes_first_example : (j : DurableJob) × HasTaken sync now unlocked 900 55 db claim j
claim_takes_first_example = claim_takes_first sync now unlocked 900 55 db unique claimed_first

claim_keeps_others_example :
    find (λ x. x.id == 12) (claim_job sync now 900 55 unlocked db).1.jobs ≡ some calendar_job
claim_keeps_others_example =
    claim_keeps_others sync now unlocked 900 55 db unique calendar_job
      (Memᴰ.tail (Memᴰ.tail (Memᴰ.head refl))) refl refl

abbrev idle : Db
idle = record db { jobs = calendar_job ∷ [] }

idle_claims_nothing : (claim_job sync now 900 55 unlocked idle).0 ≡ none
unfolding claim_job
idle_claims_nothing = refl

claim_none_only_if_idle_example : All (λ z. IsDue sync now unlocked z → ⊥) idle.jobs
claim_none_only_if_idle_example =
    claim_none_only_if_idle sync now unlocked 900 55 idle (omega arith) idle_claims_nothing

-- A claim on the same job by a worker that has lost it.
abbrev stale : JobClaim
stale = claim_of sync 800 55 (claimed_job sync 0 800 sync_job)

stale_finish_refused_example :
    finish_job stale true none false now (claim_job sync now 900 55 unlocked db).1
    ≡ (false, (claim_job sync now 900 55 unlocked db).1)
unfolding claimed_job
stale_finish_refused_example =
    stale_finish_refused sync now 900 55 unlocked db unique claimed_first stale true none false now
      refl (omega arith)

holder_finishes_example :
    let finish = finish_job claim true none false now (claim_job sync now 900 55 unlocked db).1 in
    (j : DurableJob) × HasTaken sync now unlocked 900 55 db claim j
    × (finish.0 ≡ true)
    × (held row : DurableJob) × (held.id ≡ j.id)
    × (held.attempts ≡ j.attempts + 1)
    × (held.max_attempts ≡ j.max_attempts)
    × (find (λ x. x.id == claim.id) finish.1.jobs ≡ some row)
    × HasOutcome true none false now held row
holder_finishes_example =
    holder_finishes sync now 900 55 unlocked db unique claimed_first true none false now

abbrev attempts : List Attempt
attempts =
    record { now = 1; worker = 1; error_code = none }
    ∷ record { now = 2; worker = 2; error_code = none }
    ∷ record { now = 3; worker = 3; error_code = some "JOB_HANDLER_FAILED" }
    ∷ []

failing_dead_letters_example : (failing sync attempts sync_job).status ≡ JobStatus.dead_letter
failing_dead_letters_example =
    failing_dead_letters sync attempts sync_job refl (omega arith) (omega arith)
