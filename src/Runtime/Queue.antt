-- ===== src/Runtime/Queue.antt =====
-- Every transaction keeps the rows of the job queue well formed and its identifiers unique.
use imtegrale.Prelude.{
  ℕ, ◌<◌, ◌≡◌, ◌≢◌, refl, inl, inr, Bool, true, Option, none, some, List, [], ◌∷◌, arith, All,
  All-member, All-append, Bool-cases, Option-cases, ◌==◌,
}
use imtegrale.Query.{find, any}
use imtegrale.Query.Rows.{find_sound, All-update}
use imtegrale.Query.Keys.{append-IsUnique}
use imtegrale.Models.{Db, SyncRequest, DurableJob, JobKind, JobStatus, Key, Payload, sync, sync_key}
use imtegrale.Store.{Context, set_job}
use imtegrale.Jobs.{
  same_key, insert_job, new_job, enqueue_job, enqueue_sync_job, no_payload, sync_priority,
}
use imtegrale.Jobs.Lease.{
  claimed_job, claim_job, finish_job, finished_job, JobClaim, is_owned, next_claimable,
  recover_expired_jobs, is_claimable,
}
use imtegrale.Jobs.Validity.{
  IsValidJob, new_job-IsValidJob, claimed_job-IsValidJob, finished_job-IsValidJob,
}
use imtegrale.Jobs.Recovery.{IsUniqueJobs, recover-IsUnique, recover-valid, set_job-IsUnique}
use imtegrale.Jobs.Claims.{next_sound}
use imtegrale.Jobs.Ownership.{table-finish_owned, finished_id}
use Prim.Native.String.{String}

-- The queue: every row is well formed, and no identifier occurs twice.
pub record IsSoundQueue (jobs : List DurableJob) : Type 0 where
  pub valid : All IsValidJob jobs
  pub unique : IsUniqueJobs jobs

set_job-IsSoundQueue :
    (id : ℕ) (row : DurableJob) (jobs : List DurableJob)
    → row.id ≡ id
    → IsValidJob row
    → IsSoundQueue jobs
    → IsSoundQueue (set_job id row jobs)
set_job-IsSoundQueue id row jobs keyed v s = record {
  valid = All-update IsValidJob (λ j. j.id == id) (λ _. row) (λ _ _ _. v) jobs s.valid;
  unique = set_job-IsUnique id row jobs keyed s.unique;
}

claimed_id :
    (kind : JobKind) (now worker : ℕ) (j : DurableJob) → (claimed_job kind now worker j).id ≡ j.id
unfolding claimed_job
claimed_id kind now worker j = refl

claimable_queued :
    (kind : JobKind) (now : ℕ) (locked : ℕ → Bool) (j : DurableJob)
    → is_claimable kind now locked j ≡ true
    → j.status ≡ JobStatus.queued
claimable_queued kind now locked j h = ground arith

pub claim-IsSoundQueue :
    (kind : JobKind) (now worker fresh : ℕ) (locked : ℕ → Bool) (db : Db)
    → IsSoundQueue db.jobs
    → IsSoundQueue (claim_job kind now worker fresh locked db).1.jobs
unfolding claim_job
claim-IsSoundQueue kind now worker fresh locked db s =
    let recovered = recover_expired_jobs kind now locked db in
    let after : IsSoundQueue recovered.jobs = record {
      valid = recover-valid kind now locked db s.valid;
      unique = recover-IsUnique kind now locked db s.unique;
    } in
    elim (Option-cases (next_claimable kind now locked recovered.jobs)) [
      | inl e ↦ rw (e, claim_job) after
      | inr (j, e) ↦
          let (at, fit) = next_sound kind now locked recovered.jobs e in
          rw (e, claim_job)
            (set_job-IsSoundQueue j.id (claimed_job kind now worker j) recovered.jobs
              (claimed_id kind now worker j)
              (claimed_job-IsValidJob kind now worker j (All-member IsValidJob after.valid at)
                (claimable_queued kind now locked j fit))
              after)
    ]

pub finish-IsSoundQueue :
    (claim : JobClaim) (success : Bool) (e : Option String) (retryable : Bool) (now : ℕ) (db : Db)
    → IsSoundQueue db.jobs
    → IsSoundQueue (finish_job claim success e retryable now db).1.jobs
unfolding finish_job
finish-IsSoundQueue claim success e retryable now db s =
    elim (Option-cases (find (λ j. j.id == claim.id) db.jobs)) [
      | inl gone ↦ rw (gone, finish_job) s
      | inr (j, found) ↦ elim (Bool-cases (is_owned claim j)) [
        | inl mine ↦
            rw (found, finish_job)
              (rw mine (
                rw table-finish_owned (
                  set_job-IsSoundQueue j.id (finished_job success e retryable now j) db.jobs
                    (finished_id success e retryable now j)
                    (finished_job-IsValidJob success e retryable now j
                      (All-member IsValidJob s.valid (find_sound _ db.jobs found).1))
                    s)))
        | inr not_mine ↦ rw (found, finish_job) (rw not_mine s)
      ]
    ]

insert-IsSoundQueue :
    (row : DurableJob) (jobs : List DurableJob)
    → IsValidJob row
    → All (λ j. j.id ≢ row.id) jobs
    → IsSoundQueue jobs
    → IsSoundQueue (insert_job row jobs)
insert-IsSoundQueue row jobs v fresh s =
    elim (Bool-cases (any (same_key row.kind row.idempotency_key) jobs)) [
      | inl dup ↦ rw dup s
      | inr new ↦ rw new (record {
        valid = All-append IsValidJob jobs (row ∷ []) s.valid (v, tt);
        unique = append-IsUnique (λ j. j.id) jobs row s.unique fresh;
      })
    ]

-- Enqueuing with at least one attempt keeps the queue sound.
pub enqueue-IsSoundQueue :
    (ctx : Context) (kind : JobKind) (key : Key) (account : Option ℕ) (p : Payload) (priority : ℕ)
    (available : Option ℕ) (max_attempts : ℕ) (correlation : Option ℕ) (db : Db)
    → 0 < max_attempts
    → All (λ j. j.id ≢ ctx.new_id) db.jobs
    → IsSoundQueue db.jobs
    → IsSoundQueue
        (enqueue_job ctx kind key account p priority available max_attempts correlation db).1.jobs
unfolding enqueue_job
enqueue-IsSoundQueue ctx kind key account p priority available max_attempts correlation db pos fresh
      s =
    elim (Option-cases (find (same_key kind key) db.jobs)) [
      | inr (j, e) ↦ rw (e, enqueue_job) s
      | inl e ↦
          rw (e, enqueue_job)
            (insert-IsSoundQueue
              (new_job ctx kind key account p priority available max_attempts correlation) db.jobs
              (new_job-IsValidJob ctx kind key account p priority available max_attempts correlation
                pos)
              fresh s)
    ]

pub enqueue_sync-IsSoundQueue :
    (ctx : Context) (r : SyncRequest) (db : Db)
    → All (λ j. j.id ≢ ctx.new_id) db.jobs
    → IsSoundQueue db.jobs
    → IsSoundQueue (enqueue_sync_job ctx r db).1.jobs
unfolding enqueue_sync_job
enqueue_sync-IsSoundQueue ctx r db =
    enqueue-IsSoundQueue ctx sync (sync_key r.id) (some r.account_id)
      (record no_payload { request_id = some r.id }) (sync_priority r.actor) none 3 r.correlation_id
      db (omega arith)
