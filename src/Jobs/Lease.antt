-- ===== src/Jobs/Lease.antt =====
-- Leases of the job queue: `_recover_expired_jobs`, `claim_job` and `finish_job` of jobs.py.
use imtegrale.Prelude.{
  ℕ, ◌+◌, Bool, true, false, not, ◌&&◌, ◌||◌, Option, none, some, List, [], ◌∷◌, ltb, leb, ◌==◌,
  if◌then◌else◌, holds, is_some_of, take,
}
use imtegrale.Query.{select, first, find, order_by}
use imtegrale.Models.{Db, DurableJob, JobKind, sync, JobStatus, Payload, kind_eq, job_status_eq}
use imtegrale.Store.{or_text, or_id, set_job}
use imtegrale.Jobs.{retry_delay, job_lease, dead_letter_sync_request}
use Prim.Native.String.{String}

-- `.order_by(DurableJob.lease_expires_at)`; a NULL stands last.
abbrev lease_before : DurableJob → DurableJob → Bool
lease_before a b = elim a.lease_expires_at [
  | none ↦ holds (λ _. false) b.lease_expires_at
  | some s ↦ elim b.lease_expires_at [ none ↦ true | some t ↦ leb s t ]
]

abbrev pub is_expired : JobKind → ℕ → (ℕ → Bool) → DurableJob → Bool
is_expired kind now locked j =
    kind_eq j.kind kind
    && job_status_eq j.status JobStatus.running
    && holds (λ t. leb t now) j.lease_expires_at
    && not (locked j.id)

-- One round of the loop of `_recover_expired_jobs`, on the row and on the rest of the database.
unfoldable pub recovered_job : ℕ → DurableJob → DurableJob
recovered_job now job =
    let freed = record job { worker_id = none; lease_expires_at = none; updated_at = now } in
    if leb job.max_attempts job.attempts
    then record freed {
      status = JobStatus.dead_letter;
      completed_at = some now;
      error_code = some "JOB_LEASE_EXHAUSTED";
    }
    else record freed {
      status = JobStatus.queued;
      available_at = now + retry_delay job.attempts;
      error_code = some "JOB_LEASE_EXPIRED";
    }

unfoldable pub recover_job : ℕ → DurableJob → Db → Db
unfolding recovered_job
recover_job now job db =
    let stored = record db { jobs = set_job job.id (recovered_job now job) db.jobs } in
    if leb job.max_attempts job.attempts && kind_eq job.kind sync
    then dead_letter_sync_request job now stored
    else stored

unfoldable pub recover_each : ℕ → List DurableJob → Db → Db
recover_each now [] db = db
recover_each now (job ∷ rest) db = recover_each now rest (recover_job now job db)

abbrev pub expired_jobs : JobKind → ℕ → (ℕ → Bool) → List DurableJob → List DurableJob
expired_jobs kind now locked jobs =
    take 100 (order_by lease_before (select (is_expired kind now locked) jobs))

unfoldable pub recover_expired_jobs : JobKind → ℕ → (ℕ → Bool) → Db → Db
unfolding recover_each
recover_expired_jobs kind now locked db = recover_each now (expired_jobs kind now locked db.jobs) db

pub record JobClaim : Type 0 where
  pub id : ℕ
  pub kind : JobKind
  pub account_id : Option ℕ
  pub payload : Payload
  pub worker_id : ℕ
  pub attempts : ℕ
  pub correlation_id : Option ℕ

abbrev pub is_claimable : JobKind → ℕ → (ℕ → Bool) → DurableJob → Bool
is_claimable kind now locked j =
    kind_eq j.kind kind
    && job_status_eq j.status JobStatus.queued
    && leb j.available_at now
    && not (locked j.id)

-- `.order_by(priority, available_at, created_at)`.
abbrev pub claims_before : DurableJob → DurableJob → Bool
claims_before a b =
    ltb a.priority b.priority
    || (a.priority == b.priority
        && (ltb a.available_at b.available_at
            || (a.available_at == b.available_at && leb a.created_at b.created_at)))

unfoldable pub claimed_job : JobKind → ℕ → ℕ → DurableJob → DurableJob
claimed_job kind now worker job = record job {
  status = JobStatus.running;
  worker_id = some worker;
  attempts = job.attempts + 1;
  started_at = or_id job.started_at (some now);
  lease_expires_at = some (now + job_lease kind);
  error_code = none;
  updated_at = now;
}

-- The claim that the worker receives; `fresh` is `new_correlation_id()`.
abbrev pub claim_of : JobKind → ℕ → ℕ → DurableJob → JobClaim
claim_of kind worker fresh job = record {
  id = job.id;
  kind = kind;
  account_id = job.account_id;
  payload = job.payload;
  worker_id = worker;
  attempts = job.attempts;
  correlation_id = or_id job.correlation_id (some fresh);
}

abbrev pub next_claimable : JobKind → ℕ → (ℕ → Bool) → List DurableJob → Option DurableJob
next_claimable kind now locked jobs =
    first (order_by claims_before (select (is_claimable kind now locked) jobs))

-- `claim_job`: `locked` holds of the rows that other transactions hold, which SKIP LOCKED passes
-- over; `worker` is the fresh name of `_worker_id`.
unfoldable pub claim_job : JobKind → ℕ → ℕ → ℕ → (ℕ → Bool) → Db → Option JobClaim × Db
unfolding recover_expired_jobs claimed_job
claim_job kind now worker fresh locked db =
    let recovered = recover_expired_jobs kind now locked db in
    elim (next_claimable kind now locked recovered.jobs) [
      | none ↦ (none, recovered)
      | some job ↦
          let row = claimed_job kind now worker job in
          (
            some (claim_of kind worker fresh row),
            record recovered { jobs = set_job job.id row recovered.jobs },
          )
    ]

-- The row that `finish_job` writes.
unfoldable pub finished_job : Bool → Option String → Bool → ℕ → DurableJob → DurableJob
finished_job success error_code retryable now job =
    let freed = record job { worker_id = none; lease_expires_at = none; updated_at = now } in
    if success
    then record freed { status = JobStatus.succeeded; completed_at = some now; error_code = none }
    else if retryable && ltb job.attempts job.max_attempts
    then record freed {
      status = JobStatus.queued;
      available_at = now + retry_delay job.attempts;
      error_code = some (or_text error_code "JOB_RETRY");
    }
    else record freed {
      status = JobStatus.dead_letter;
      completed_at = some now;
      error_code = some (or_text error_code "JOB_FAILED");
    }

-- `job.status != "running" or job.worker_id != claim.worker_id`, negated.
abbrev pub is_owned : JobClaim → DurableJob → Bool
is_owned claim job =
    job_status_eq job.status JobStatus.running && is_some_of claim.worker_id job.worker_id

unfoldable pub finish_owned : Bool → Option String → Bool → ℕ → DurableJob → Db → Db
unfolding finished_job
finish_owned success error_code retryable now job db =
    let row = finished_job success error_code retryable now job in
    let stored = record db { jobs = set_job job.id row db.jobs } in
    if job_status_eq row.status JobStatus.dead_letter && kind_eq job.kind sync
    then dead_letter_sync_request job now stored
    else stored

unfoldable pub finish_job : JobClaim → Bool → Option String → Bool → ℕ → Db → Bool × Db
unfolding finish_owned
finish_job claim success error_code retryable now db = elim (find (λ j. j.id == claim.id) db.jobs) [
  | none ↦ (false, db)
  | some job ↦
      if is_owned claim job
      then (true, finish_owned success error_code retryable now job db)
      else (false, db)
]
