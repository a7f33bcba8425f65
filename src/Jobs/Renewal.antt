-- ===== src/Jobs/Renewal.antt =====
-- `_renew_sync_request` of jobs.py: a worker that starts a job renews the lease of its request.
use imtegrale.Prelude.{ℕ, ◌+◌, Bool, Option, none, some, if◌then◌else◌}
use imtegrale.Models.{Db, Account, SyncRequest, RequestStatus, sync, is_active}
use imtegrale.Store.{get_request, get_account, set_request, set_account}
use imtegrale.Jobs.{job_lease}
use imtegrale.Jobs.Lease.{JobClaim}
use Prim.Native.String.{String}

pub record SyncExecution : Type 0 where
  pub account_id : ℕ
  pub request_id : ℕ
  pub notify : Bool
  pub quota_bypass : Bool
  pub bypass_reason : Option String
  pub force_probe : Bool

abbrev execution_of : SyncRequest → SyncExecution
execution_of r = record {
  account_id = r.account_id;
  request_id = r.id;
  notify = r.notify;
  quota_bypass = r.quota_bypass;
  bypass_reason = r.bypass_reason;
  force_probe = r.force_probe;
}

abbrev pub disabled_request : ℕ → SyncRequest → SyncRequest
disabled_request now r = record r {
  status = RequestStatus.failed;
  completed_at = some now;
  error_code = some "SYNC_ACCOUNT_DISABLED";
}

abbrev pub renewed_request : ℕ → SyncRequest → SyncRequest
renewed_request now r = record r { lease_expires_at = now + job_lease sync }

abbrev pub renewed_account : ℕ → SyncRequest → Account → Account
renewed_account now r a = record a {
  sync_active_request_id = some r.id;
  sync_active_until = some (now + job_lease sync);
}

-- The answer: a ValueError for a job without a request, None for a request that is gone, or the run.
pub data Renewal : Type 0 where
  value_error : Renewal
  gone : Renewal
  execution : SyncExecution → Renewal

-- The writes for an active request whose account was looked up.
unfoldable pub renew_active : ℕ → SyncRequest → Option Account → Db → Db
renew_active now r account db =
    let refused = record db { requests = set_request r.id (disabled_request now r) db.requests } in
    elim account [
      | none ↦ refused
      | some a ↦ if a.is_disabled then refused else record db {
        requests = set_request r.id (renewed_request now r) db.requests;
        accounts = set_account a.id (renewed_account now r a) db.accounts;
      }
    ]

unfoldable pub renew_request : ℕ → ℕ → Db → Renewal × Db
unfolding renew_active
renew_request now request_id db = elim (get_request request_id db) [
  | none ↦ (gone, db)
  | some r ↦ (
    execution (execution_of r),
    (if is_active r.status then renew_active now r (get_account r.account_id db) db else db),
  )
]

unfoldable pub renew_sync_request : ℕ → JobClaim → Db → Renewal × Db
unfolding renew_request
renew_sync_request now claim db = elim claim.payload.request_id [
  | none ↦ (value_error, db)
  | some request_id ↦ renew_request now request_id db
]
