-- ===== src/SyncControl/Start.antt =====
-- The first transaction of `execute_sync_request` of sync.py, which starts a run, with
-- `_skip_automatic_request`.
use imtegrale.Prelude.{
  ℕ, ◌+◌, Bool, true, false, not, ◌||◌, Option, none, some, [], ◌∷◌, leb, if◌then◌else◌, is_some_of,
}
use imtegrale.Models.{Db, Account, SyncRequest, RequestStatus, code, seconds, is_active}
use imtegrale.Events.{record_event}
use imtegrale.Store.{get_request, get_account, set_request, set_account, or_id}
use imtegrale.SyncControl.{sync_lease_seconds}
use imtegrale.SyncControl.Finish.{finalize_sync_request}
use imtegrale.Schedule.{Zones, Raised, returned, raised, auto_sync_is_due}
use imtegrale.Availability.{Settings}
use Prim.Native.String.{String}
use text.Mathlib.Text.{◌==◌ as str_eq}

-- How the transaction ends: the run goes on, the function returns at once with the result or the
-- status of the request, or it raises.
pub data Start : Type 0 where
  started : Start
  ended : Option ℕ → RequestStatus → Start
  lookup_error lease_expired disabled not_allowed schedule_error : Start

abbrev pub started_request : ℕ → SyncRequest → SyncRequest
started_request now r = record r {
  status = RequestStatus.running;
  started_at = or_id r.started_at (some now);
  lease_expires_at = now + seconds sync_lease_seconds;
}

abbrev pub started_account : ℕ → Account → Account
started_account now a = record a {
  sync_active_until = some (now + seconds sync_lease_seconds);
  last_sync_status = "running";
  last_sync_error = none;
}

-- `_skip_automatic_request`; `none` would be the ValueError of `finalize_sync_request`.
unfoldable pub skip_automatic_request :
    Account → SyncRequest → String → Option String → ℕ → Db → Option Db
unfolding finalize_sync_request
skip_automatic_request account request previous_status previous_error now db =
    let restored = record account {
      last_sync_status = previous_status;
      last_sync_error = previous_error;
    } in
    elim (finalize_sync_request restored request RequestStatus.skipped (some "SYNC_AUTO_NOT_DUE")
      none now db) [
        | none ↦ none
        | some done ↦ some (
            record_event account.id "sync:automatic_skipped" (code "SYNC_AUTO_NOT_DUE" ∷ [])
              "automatic" done)
      ]

-- The writes that start the run.
abbrev pub start_run : ℕ → Account → SyncRequest → Db → Db
start_run now account request db =
    record_event account.id "sync:started" [] request.actor (record db {
      requests = set_request request.id (started_request now request) db.requests;
      accounts = set_account account.id (started_account now account) db.accounts;
    })

abbrev pub or_unchanged : Option Db → Db → Db
or_unchanged none db = db
or_unchanged (some done) db = done

-- `request.actor == "automatic" and not auto_sync_is_due(account, now)`, negated.
abbrev pub may_start : Zones → Settings → ℕ → Account → SyncRequest → Raised Bool
may_start zones settings now account request =
    if str_eq request.actor "automatic"
    then auto_sync_is_due zones settings account now
    else returned true

abbrev pub start_if : Raised Bool → ℕ → Account → SyncRequest → Db → Start × Db
start_if raised now account request db = (schedule_error, db)
start_if (returned true) now account request db = (started, start_run now account request db)
start_if (returned false) now account request db = (
  not_allowed,
  or_unchanged
      (skip_automatic_request account request account.last_sync_status account.last_sync_error now
        db)
      db,
)

-- From the status of the request on; the lease must be the slot's, and not over.
unfoldable pub start_request : Zones → Settings → ℕ → Account → SyncRequest → Db → Start × Db
unfolding skip_automatic_request
start_request zones settings now account request db =
    if not (is_active request.status)
    then (ended request.result request.status, db)
    else if not (is_some_of request.id account.sync_active_request_id)
        || leb request.lease_expires_at now
    then (lease_expired, db)
    else if account.is_disabled
    then (disabled, db)
    else start_if (may_start zones settings now account request) now account request db

-- The transaction.
unfoldable pub start_sync_request : Zones → Settings → ℕ → ℕ → ℕ → Db → Start × Db
unfolding start_request
start_sync_request zones settings now account_id request_id db = elim (get_account account_id db) [
  | none ↦ (lookup_error, db)
  | some account ↦ elim (get_request request_id db) [
    | none ↦ (lookup_error, db)
    | some request ↦ start_request zones settings now account request db
  ]
]
