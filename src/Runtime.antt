-- ===== src/Runtime.antt =====
-- One database under the transactions that write its jobs and its synchronisation requests, in any
-- order: those of jobs.py and sync_control.py, the start of `execute_sync_request` of sync.py, and
-- a step for all other code, which inserts and deletes accounts, deletes rows of the other two
-- tables, and writes neither their columns nor the slot of an account.
pub mod Closing
pub mod Renewing
pub mod Starting
pub mod Queue
pub mod Upkeep
pub mod Elsewhere
pub mod Admissions
pub mod Invariant
use imtegrale.Prelude.{ℕ, ◌⊎◌, ◌≢◌, ◌≡◌, Bool, Option, some, List, All, Memᴰ}
use imtegrale.Query.{delete}
use imtegrale.Models.{Db, Account, SyncRequest, RequestStatus, JobKind, DurableJob}
use imtegrale.Store.{Context, get_request}
use imtegrale.Jobs.{enqueue_sync_job, ensure_queued_sync_jobs}
use imtegrale.Jobs.Calendar.{Subscription, enqueue_due_calendar_jobs}
use imtegrale.Jobs.Cleanup.{cleanup_durable_state}
use imtegrale.Jobs.Lease.{JobClaim, claim_job, finish_job}
use imtegrale.Jobs.Outbox.{OutboxClaim, claim_outbox, finish_outbox}
use imtegrale.Jobs.Renewal.{renew_sync_request}
use imtegrale.SyncControl.{existing_reservation}
use imtegrale.SyncControl.Reserve.{ReserveArgs, Outcome, take_slot, reserve_lost}
use imtegrale.SyncControl.Start.{start_sync_request, skip_automatic_request}
use imtegrale.SyncControl.Finish.{finalize_sync_request}
use imtegrale.Schedule.{Zones}
use imtegrale.Availability.{Settings}
use Prim.Native.String.{String}

-- New identifiers: distinct, and not in the table.
pub record IsFresh (fresh : ℕ → ℕ) (jobs : List DurableJob) : Type 0 where
  pub distinct : (m n : ℕ) → fresh m ≡ fresh n → m ≡ n
  pub unused : (n : ℕ) → All (λ j. j.id ≢ fresh n) jobs

-- An account after a transaction of other code: new, without a request, or with the slot that it had.
abbrev pub KeepsSlot : Db → Account → Type 0
KeepsSlot db x =
    All (λ r. r.account_id ≢ x.id) db.requests
    ⊎ ((a : Account) × Memᴰ a db.accounts
        × (x.id ≡ a.id)
        × (x.sync_active_request_id ≡ a.sync_active_request_id)
        × (x.sync_active_until ≡ a.sync_active_until))

-- One committed transaction. Identifiers that a transaction creates are new to their table.
pub data Step (db : Db) : Db → Type 0 where
  claimed :
      (kind : JobKind) (now worker fresh : ℕ) (locked : ℕ → Bool)
      → Step db (claim_job kind now worker fresh locked db).1
  finished :
      (claim : JobClaim) (success : Bool) (e : Option String) (retryable : Bool) (now : ℕ)
      → Step db (finish_job claim success e retryable now db).1
  enqueued :
      (ctx : Context) (request : SyncRequest)
      → All (λ j. j.id ≢ ctx.new_id) db.jobs
      → Step db (enqueue_sync_job ctx request db).1
  replayed :
      (a : Account) (digest now : ℕ)
      → Memᴰ a db.accounts
      → Step db (existing_reservation a digest now db).1
  reserved_slot :
      (ctx : Context) (job_id : ℕ) (args : ReserveArgs) (done : Outcome × Db)
      → All (λ r. r.id ≢ ctx.new_id) db.requests
      → All (λ j. j.id ≢ job_id) db.jobs
      → take_slot ctx job_id args db ≡ some done
      → Step db done.1
  lost_slot : (ctx : Context) (args : ReserveArgs) → Step db (reserve_lost ctx args db).1
  renewed : (now : ℕ) (claim : JobClaim) → Step db (renew_sync_request now claim db).1
  -- A run is started for the account of its request, as both callers do.
  run_started :
      (zones : Zones) (settings : Settings) (now : ℕ) (q : SyncRequest)
      → get_request q.id db ≡ some q
      → Step db (start_sync_request zones settings now q.account_id q.id db).1
  -- The test after the start restores what it read before the start.
  run_skipped :
      (a : Account) (q : SyncRequest) (status : String) (e : Option String) (now : ℕ) (db' : Db)
      → Memᴰ a db.accounts
      → skip_automatic_request a q status e now db ≡ some db'
      → Step db db'
  finalized :
      (a : Account) (q : SyncRequest) (status : RequestStatus) (e : Option String)
      (result : Option ℕ) (now : ℕ) (db' : Db)
      → Memᴰ a db.accounts
      → finalize_sync_request a q status e result now db ≡ some db'
      → Step db db'
  ensured :
      (now : ℕ) (correlation : Option ℕ) (fresh : ℕ → ℕ) (limit : ℕ)
      → IsFresh fresh db.jobs
      → Step db (ensure_queued_sync_jobs now correlation fresh limit db).1
  calendar_enqueued :
      (digest : ℕ → ℕ → ℕ) (now : ℕ) (correlation : Option ℕ) (fresh : ℕ → ℕ) (limit : ℕ)
      (subscriptions : List Subscription)
      → IsFresh fresh db.jobs
      → Step db (enqueue_due_calendar_jobs digest now correlation fresh limit subscriptions db).1
  cleaned_up : (now : ℕ) → Step db (cleanup_durable_state now db).1
  outbox_claimed :
      (now worker fresh : ℕ) (locked : ℕ → Bool)
      → Step db (claim_outbox now worker fresh locked db).1
  outbox_finished :
      (claim : OutboxClaim) (success : Bool) (e : Option String) (now : ℕ)
      → Step db (finish_outbox claim success e now db).1
  elsewhere :
      (gone : DurableJob → Bool) (e : Db)
      → e.jobs ≡ delete gone db.jobs
      → All (λ r. Memᴰ r db.requests) e.requests
      → All (KeepsSlot db) e.accounts
      → Step db e

-- Any number of transactions.
pub data Reach (db : Db) : Db → Type 0 where
  here : Reach db db
  next : {d e : Db} → Reach db d → Step d e → Reach db e
