-- ===== src/Jobs/Cleanup.antt =====
-- `cleanup_durable_state` of jobs.py: the deletion of jobs and messages that ended long ago.
use imtegrale.Prelude.{ℕ, ◌+◌, Bool, ◌&&◌, length, ltb, holds}
use imtegrale.Query.{select, delete}
use imtegrale.Models.{
  Db, DurableJob, JobStatus, NotificationOutbox, OutboxStatus, days, job_status_eq,
  outbox_status_eq,
}

-- `SUCCEEDED_JOB_RETENTION`, `DEAD_JOB_RETENTION`, `DELIVERED_OUTBOX_RETENTION` and
-- `DEAD_OUTBOX_RETENTION`.
abbrev pub succeeded_job_retention : ℕ
succeeded_job_retention = days 7

abbrev pub dead_job_retention : ℕ
dead_job_retention = days 90

abbrev pub delivered_outbox_retention : ℕ
delivered_outbox_retention = days 30

abbrev pub dead_outbox_retention : ℕ
dead_outbox_retention = days 90

-- The WHERE clauses of the four DELETE statements; an instant t is before now - d exactly if t + d
-- is before now.
abbrev pub is_old_success : ℕ → DurableJob → Bool
is_old_success now j =
    job_status_eq j.status JobStatus.succeeded
    && holds (λ t. ltb (t + succeeded_job_retention) now) j.completed_at

abbrev pub is_old_death : ℕ → DurableJob → Bool
is_old_death now j =
    job_status_eq j.status JobStatus.dead_letter
    && holds (λ t. ltb (t + dead_job_retention) now) j.completed_at

abbrev pub is_old_delivery : ℕ → NotificationOutbox → Bool
is_old_delivery now m =
    outbox_status_eq m.status OutboxStatus.delivered
    && holds (λ t. ltb (t + delivered_outbox_retention) now) m.delivered_at

abbrev pub is_old_dead_message : ℕ → NotificationOutbox → Bool
is_old_dead_message now m =
    outbox_status_eq m.status OutboxStatus.dead_letter
    && ltb (m.updated_at + dead_outbox_retention) now

-- The counts of the rows deleted.
pub record Cleanup : Type 0 where
  pub succeeded_jobs : ℕ
  pub dead_jobs : ℕ
  pub delivered_messages : ℕ
  pub dead_messages : ℕ

-- `cleanup_durable_state`.
unfoldable pub cleanup_durable_state : ℕ → Db → Cleanup × Db
cleanup_durable_state now db =
    let jobs = delete (is_old_success now) db.jobs in
    let outbox = delete (is_old_delivery now) db.outbox in
    (
      record {
        succeeded_jobs = length (select (is_old_success now) db.jobs);
        dead_jobs = length (select (is_old_death now) jobs);
        delivered_messages = length (select (is_old_delivery now) db.outbox);
        dead_messages = length (select (is_old_dead_message now) outbox);
      },
      record db {
        jobs = delete (is_old_death now) jobs;
        outbox = delete (is_old_dead_message now) outbox;
      },
    )
