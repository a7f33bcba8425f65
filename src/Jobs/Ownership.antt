-- ===== src/Jobs/Ownership.antt =====
-- A worker that lost its lease cannot finish the job; the worker that holds it can.
use imtegrale.Prelude.{
  ℕ, ◌+◌, ◌<◌, ◌≤◌, ◌⊎◌, none, ◌≡◌, ◌≢◌, refl, sym, ap, ◌∙◌, Bool, true, false, Option, some, arith,
  ◌==◌, if◌then◌else◌, ==_iff,
}
use imtegrale.Query.{find}
use imtegrale.Query.Keys.{find-update_self}
use imtegrale.Models.{Db, DurableJob, JobKind, JobStatus}
use imtegrale.Jobs.{retry_delay}
use imtegrale.Store.{set_job, or_text}
use imtegrale.Query.Rows.{find_sound}
use imtegrale.Jobs.Lease.{
  claimed_job, claim_job, JobClaim, finish_job, finish_owned, finished_job, is_owned,
}
use imtegrale.Jobs.Recovery.{IsUniqueJobs, jobs-dead_letter}
use imtegrale.Jobs.Claims.{HasTaken, claim_takes_first}
use Prim.Native.String.{String}

finish-stored :
    (claim : JobClaim) (success : Bool) (e : Option String) (retryable : Bool) (t : ℕ) (db : Db)
    (j : DurableJob)
    → find (λ x. x.id == claim.id) db.jobs ≡ some j
    → finish_job claim success e retryable t db
      ≡ (if is_owned claim j then (true, finish_owned success e retryable t j db) else (false, db))
unfolding finish_job
finish-stored claim success e retryable t db j h = rw (h, finish_job)

owner_heard :
    (claim : JobClaim) (success : Bool) (e : Option String) (retryable : Bool) (t : ℕ)
    (j : DurableJob) (db : Db)
    → is_owned claim j ≡ true
    → ◌≡◌ {A = Bool × Db}
        (if is_owned claim j then (true, finish_owned success e retryable t j db) else (false, db))
        (true, finish_owned success e retryable t j db)
owner_heard claim success e retryable t j db h = rw h

pub table-finish_owned :
    (success : Bool) (e : Option String) (retryable : Bool) (t : ℕ) (j : DurableJob) (db : Db)
    → (finish_owned success e retryable t j db).jobs
      ≡ set_job j.id (finished_job success e retryable t j) db.jobs
unfolding finish_owned
table-finish_owned success e retryable t j db = ground (
  arith,
  jobs-dead_letter j t
      (record db { jobs = set_job j.id (finished_job success e retryable t j) db.jobs }),
)

pub finished_id :
    (success : Bool) (e : Option String) (retryable : Bool) (t : ℕ) (j : DurableJob)
    → (finished_job success e retryable t j).id ≡ j.id
unfolding finished_job
finished_id success e retryable t j = ground arith

jobs-finish_owned :
    (k : ℕ) (success : Bool) (e : Option String) (retryable : Bool) (t : ℕ) (j : DurableJob)
    (db : Db)
    → find (λ x. x.id == k) db.jobs ≡ some j
    → find (λ x. x.id == k) (finish_owned success e retryable t j db).jobs
      ≡ some (finished_job success e retryable t j)
jobs-finish_owned k success e retryable t j db h =
    let same : k ≡ j.id = sym ((==_iff j.id k).0 (find_sound _ db.jobs h).0) in
    rw table-finish_owned (
      rw same (
        find-update_self (λ x. x.id) j.id (finished_job success e retryable t j)
          (finished_id success e retryable t j) db.jobs (rw same at h)))

-- What a report makes of a row: its holder and lease are gone; a success ends it as succeeded; a
-- failure that may be retried, with an attempt left, puts it back into the queue after the delay;
-- any other failure ends it as dead.
pub record HasOutcome (success : Bool) (e : Option String) (retryable : Bool) (t : ℕ)
    (before after : DurableJob) : Type 0 where
  pub same : (after.id ≡ before.id) × (after.kind ≡ before.kind) × (after.payload ≡ before.payload)
  pub counted : (after.attempts ≡ before.attempts) × (after.max_attempts ≡ before.max_attempts)
  pub released : (after.worker_id ≡ none) × (after.lease_expires_at ≡ none)
  pub succeeds :
      success ≡ true
      → (after.status ≡ JobStatus.succeeded)
        × (after.completed_at ≡ some t)
        × (after.error_code ≡ none)
  pub retries :
      success ≡ false
      → retryable ≡ true
      → before.attempts < before.max_attempts
      → (after.status ≡ JobStatus.queued)
        × (after.completed_at ≡ before.completed_at)
        × (after.available_at ≡ t + retry_delay before.attempts)
        × (after.error_code ≡ some (or_text e "JOB_RETRY"))
  pub dies :
      success ≡ false
      → (retryable ≡ false) ⊎ (before.max_attempts ≤ before.attempts)
      → (after.status ≡ JobStatus.dead_letter)
        × (after.completed_at ≡ some t)
        × (after.error_code ≡ some (or_text e "JOB_FAILED"))

finished_job-HasOutcome :
    (success : Bool) (e : Option String) (retryable : Bool) (t : ℕ) (j : DurableJob)
    → HasOutcome success e retryable t j (finished_job success e retryable t j)
unfolding finished_job
finished_job-HasOutcome success e retryable t j = record {
  same = ground arith;
  counted = ground arith;
  released = ground arith;
  succeeds = λ h. ground arith;
  retries = λ h k l. ground arith;
  dies = λ h k. ground arith;
}

module _ (kind : JobKind) (now worker fresh : ℕ) (locked : ℕ → Bool) (db : Db)
    (u : IsUniqueJobs db.jobs) {c : JobClaim}
    (got : (claim_job kind now worker fresh locked db).0 ≡ some c) where
  -- After a claim, the holder of an older claim on the same job, under another worker name, is
  -- refused and changes nothing, whatever it reports.
  pub stale_finish_refused :
      (old : JobClaim) (success : Bool) (e : Option String) (retryable : Bool) (t : ℕ)
      → old.id ≡ c.id
      → old.worker_id ≢ worker
      → finish_job old success e retryable t (claim_job kind now worker fresh locked db).1
        ≡ (false, (claim_job kind now worker fresh locked db).1)
  unfolding claimed_job
  stale_finish_refused old success e retryable t same other =
      let (j, took) = claim_takes_first kind now locked worker fresh db u got in
      let at : old.id ≡ j.id = same ∙ ap (λ (x : JobClaim). x.id) took.claim in
      rw
        (finish-stored old success e retryable t (claim_job kind now worker fresh locked db).1
          (claimed_job kind now worker j) (rw at took.stored))
        (ground arith)

  -- The worker that holds the claim is heard: the row that it took, with this attempt counted, is
  -- found released and with the outcome that it reports; other fields of the row as `HasOutcome`
  -- says.
  pub holder_finishes :
      (success : Bool) (e : Option String) (retryable : Bool) (t : ℕ)
      → let finish =
          finish_job c success e retryable t (claim_job kind now worker fresh locked db).1 in
        (j : DurableJob) × HasTaken kind now locked worker fresh db c j
        × (finish.0 ≡ true)
        × (held row : DurableJob) × (held.id ≡ j.id)
        × (held.attempts ≡ j.attempts + 1)
        × (held.max_attempts ≡ j.max_attempts)
        × (find (λ x. x.id == c.id) finish.1.jobs ≡ some row)
        × HasOutcome success e retryable t held row
  holder_finishes success e retryable t =
      let (j, took) = claim_takes_first kind now locked worker fresh db u got in
      let after = (claim_job kind now worker fresh locked db).1 in
      let row = claimed_job kind now worker j in
      let at : c.id ≡ j.id =
        ap (λ (x : JobClaim). x.id) took.claim ∙ (unfold claimed_job in refl) in
      let stored : find (λ x. x.id == c.id) after.jobs ≡ some row = rw at took.stored in
      let whole =
        finish-stored c success e retryable t after row stored
        ∙ owner_heard c success e retryable t row after
            (rw took.claim (unfold claimed_job in ground arith)) in
      (
        j,
        took,
        ap (λ r. r.0) whole,
        row,
        finished_job success e retryable t row,
        (unfold claimed_job in refl),
        (unfold claimed_job in refl),
        (unfold claimed_job in refl),
        rw whole (jobs-finish_owned c.id success e retryable t row after stored),
        finished_job-HasOutcome success e retryable t row,
      )
