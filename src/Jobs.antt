-- ===== src/Jobs.antt =====
-- The durable job queue of backend/app/services/jobs.py. One function is one transaction on the
-- database; what it takes from outside (the clock, fresh identifiers, the rows that other
-- transactions hold locked under SKIP LOCKED) are arguments.
pub mod Lease
pub mod Outbox
pub mod Weight
pub mod Drain
pub mod Renewal
pub mod Due
pub mod Validity
pub mod Recovery
pub mod Claims
pub mod Ownership
pub mod Retry
pub mod Calendar
pub mod Cleanup
use imtegrale.Prelude.{
  ℕ, ◌+◌, ◌-◌, ◌*◌, ◌^◌, min, Bool, not, ◌&&◌, Option, none, some, List, [], ◌∷◌, ◌++◌, leb, ◌==◌,
  if◌then◌else◌, is_none, is_some_of, take,
}
use imtegrale.Query.{select, update, find, any, order_by}
use imtegrale.Models.{
  Db, Account, SyncRequest, DurableJob, JobKind, sync, calendar, JobStatus, RequestStatus, Key,
  sync_key, Payload, code, seconds, minutes, kind_eq, key_eq, is_active,
}
use imtegrale.Events.{record_event}
use imtegrale.Store.{
  Context, or_id, set_request, set_account, get_request, get_account, interrupted, release_slot,
}
use Prim.Native.String.{String}
use text.Mathlib.Text.{◌==◌ as str_eq}

-- `_retry_delay`: 5 * 2 ** max(0, attempts - 1) seconds, at most 300.
unfoldable pub retry_delay : ℕ → ℕ
retry_delay attempts = seconds (min 300 (5 * 2 ^ (attempts - 1)))

-- `JOB_LEASES`.
abbrev pub job_lease : JobKind → ℕ
job_lease sync = minutes 15
job_lease calendar = minutes 5

abbrev pub same_key : JobKind → Key → DurableJob → Bool
same_key kind key j = kind_eq j.kind kind && key_eq j.idempotency_key key

-- INSERT ... ON CONFLICT DO NOTHING on (kind, idempotency_key).
abbrev pub insert_job : DurableJob → List DurableJob → List DurableJob
insert_job row jobs =
    if any (same_key row.kind row.idempotency_key) jobs then jobs else jobs ++ row ∷ []

-- The row that `enqueue_job` inserts.
abbrev pub new_job :
    Context → JobKind → Key → Option ℕ → Payload → ℕ → Option ℕ → ℕ → Option ℕ → DurableJob
new_job ctx kind key account_id payload priority available_at max_attempts correlation_id = record {
  id = ctx.new_id;
  correlation_id = or_id correlation_id ctx.correlation_id;
  kind = kind;
  account_id = account_id;
  idempotency_key = key;
  payload = payload;
  status = JobStatus.queued;
  priority = priority;
  available_at = elim available_at [ none ↦ ctx.now | some t ↦ t ];
  lease_expires_at = none;
  attempts = 0;
  max_attempts = max_attempts;
  worker_id = none;
  error_code = none;
  created_at = ctx.now;
  started_at = none;
  completed_at = none;
  updated_at = ctx.now;
}

-- `enqueue_job`; a result of `none` is the RuntimeError of a row that cannot be read back.
unfoldable pub enqueue_job :
    Context
    → JobKind
    → Key
    → Option ℕ
    → Payload
    → ℕ
    → Option ℕ
    → ℕ
    → Option ℕ
    → Db
    → Option DurableJob × Db
enqueue_job ctx kind key account_id payload priority available_at max_attempts correlation_id db =
    elim (find (same_key kind key) db.jobs) [
      | some existing ↦ (some existing, db)
      | none ↦
          let row =
            new_job ctx kind key account_id payload priority available_at max_attempts
              correlation_id in
          let jobs = insert_job row db.jobs in
          (find (same_key kind key) jobs, record db { jobs = jobs })
    ]

abbrev pub no_payload : Payload
no_payload = record { request_id = none; due_at = none; note_ids = none }

abbrev pub sync_priority : String → ℕ
sync_priority actor =
    if str_eq actor "admin" then 20 else if not (str_eq actor "automatic") then 50 else 100

unfoldable pub enqueue_sync_job : Context → SyncRequest → Db → Option DurableJob × Db
unfolding enqueue_job
enqueue_sync_job ctx request =
    enqueue_job ctx sync (sync_key request.id) (some request.account_id)
      (record no_payload { request_id = some request.id }) (sync_priority request.actor) none 3
      request.correlation_id

abbrev accepted_before : SyncRequest → SyncRequest → Bool
accepted_before a b = leb a.accepted_at b.accepted_at

-- The loop of `ensure_queued_sync_jobs`; the n-th new row takes the identifier `fresh n`.
unfoldable pub ensure_each : ℕ → Option ℕ → (ℕ → ℕ) → ℕ → List SyncRequest → Db → ℕ × Db
ensure_each now correlation fresh created [] db = (created, db)
ensure_each now correlation fresh created (request ∷ rest) db =
    let absent = is_none (find (same_key sync (sync_key request.id)) db.jobs) in
    let ctx : Context = record {
      now = now;
      new_id = fresh created;
      correlation_id = correlation;
    } in
    let next = (enqueue_sync_job ctx request db).1 in
    ensure_each now correlation fresh (if absent then created + 1 else created) rest next

unfoldable pub ensure_queued_sync_jobs : ℕ → Option ℕ → (ℕ → ℕ) → ℕ → Db → ℕ × Db
unfolding ensure_each
ensure_queued_sync_jobs now correlation fresh limit db =
    ensure_each now correlation fresh 0
      (take limit (order_by accepted_before (select (λ r. is_active r.status) db.requests))) db

abbrev pub dead_letter_account : SyncRequest → ℕ → Account → Db → Db
dead_letter_account request now account db =
    record_event account.id "sync:error" (code "SYNC_JOB_DEAD_LETTER" ∷ []) "system" (record db {
      accounts =
          set_account account.id
            (record (release_slot request.id account) {
              last_sync_at = some now;
              last_sync_status = "error";
              last_sync_error = some interrupted;
            })
            db.accounts;
    })

abbrev pub dead_letter_request : ℕ → SyncRequest → Db → Db
dead_letter_request now request db =
    let failed = record db {
      requests =
          set_request request.id
            (record request {
              status = RequestStatus.failed;
              completed_at = some now;
              error_code = some "SYNC_JOB_DEAD_LETTER";
            })
            db.requests;
    } in
    elim (get_account request.account_id db) [
      | none ↦ failed
      | some account ↦ dead_letter_account request now account failed
    ]

-- `_dead_letter_sync_request`.
unfoldable pub dead_letter_sync_request : DurableJob → ℕ → Db → Db
dead_letter_sync_request job now db = elim job.payload.request_id [
  | none ↦ db
  | some request_id ↦ elim (get_request request_id db) [
    | none ↦ db
    | some request ↦
        if not (is_active request.status) then db else dead_letter_request now request db
  ]
]
