-- ===== src/SyncControl/Reserve.antt =====
-- `reserve_sync_request` of sync_control.py, with the pruning of old requests.
use imtegrale.Prelude.{
  ℕ, ◌+◌, ◌-◌, Bool, false, not, ◌&&◌, ◌||◌, Option, none, some, List, [], ◌∷◌, ◌++◌, ltb, leb,
  ◌==◌, if◌then◌else◌, drop, holds, is_none,
}
use imtegrale.Query.{select, delete, any, order_by}
use imtegrale.Models.{Db, Account, SyncRequest, RequestStatus, count, seconds, is_active}
use imtegrale.Events.{record_event}
use imtegrale.Store.{Context, get_account, set_account}
use imtegrale.Jobs.{enqueue_sync_job}
use imtegrale.SyncControl.{
  manual_sync_cooldown_seconds, sync_lease_seconds, seconds_until, SyncReservation, reservation,
  recover_expired_requests, existing_reservation, same_digest,
}
use Prim.Native.String.{String}

-- `MAX_SYNC_REQUESTS_PER_ACCOUNT` of limits.py.
abbrev pub max_sync_requests_per_account : ℕ
max_sync_requests_per_account = 100

-- `.order_by(completed_at.desc(), accepted_at.desc())`; a NULL stands first.
abbrev pub newest_completed : SyncRequest → SyncRequest → Bool
newest_completed a b = elim a.completed_at [
  | none ↦ not (is_none b.completed_at) || leb b.accepted_at a.accepted_at
  | some s ↦ elim b.completed_at [
    | none ↦ false
    | some t ↦ ltb t s || (s == t && leb b.accepted_at a.accepted_at)
  ]
]

abbrev pub is_terminal_of : ℕ → SyncRequest → Bool
is_terminal_of account_id r = r.account_id == account_id && not (is_active r.status)

abbrev pub stale_requests : ℕ → List SyncRequest → List SyncRequest
stale_requests account_id requests =
    drop (max_sync_requests_per_account - 1)
      (order_by newest_completed (select (is_terminal_of account_id) requests))

-- `_prune_sync_requests`.
unfoldable pub prune_sync_requests : ℕ → List SyncRequest → List SyncRequest
prune_sync_requests account_id requests =
    let stale = stale_requests account_id requests in
    delete (λ r. any (λ s. s.id == r.id) stale) requests

-- The arguments of `reserve_sync_request`; the key comes normalised and hashed as `digest`.
pub record ReserveArgs : Type 0 where
  pub account_id : ℕ
  pub actor : String
  pub digest : ℕ
  pub enforce_cooldown : Bool
  pub notify : Bool
  pub quota_bypass : Bool
  pub bypass_reason : Option String
  pub force_probe : Bool
  pub enqueue : Bool

-- How the call ends: with a reservation, or by raising.
pub data Outcome : Type 0 where
  reserved : SyncReservation → Outcome
  not_found disabled reservation_failed integrity_error : Outcome
  in_progress cooldown_active : ℕ → ℕ → Outcome

-- The slot holds an unexpired lease.
abbrev pub slot_taken : ℕ → Account → Bool
slot_taken now account =
    not (is_none account.sync_active_request_id) && holds (λ t. ltb now t) account.sync_active_until

abbrev pub cooling_down : ℕ → Account → Bool
cooling_down now account = holds (λ t. ltb now t) account.sync_cooldown_until

-- The WHERE clause of the UPDATE that takes the slot.
unfoldable pub is_admitted : ReserveArgs → ℕ → Account → Bool
is_admitted args now account =
    not account.is_disabled
    && (is_none account.sync_active_request_id
        || is_none account.sync_active_until
        || holds (λ t. leb t now) account.sync_active_until)
    && (not args.enforce_cooldown
        || is_none account.sync_cooldown_until
        || holds (λ t. leb t now) account.sync_cooldown_until)

-- The account after the UPDATE.
abbrev pub admitted_account : Context → Account → Account
admitted_account ctx account = record account {
  sync_active_request_id = some ctx.new_id;
  sync_active_until = some (ctx.now + seconds sync_lease_seconds);
  sync_cooldown_until = some (ctx.now + seconds manual_sync_cooldown_seconds);
  updated_at = ctx.now;
}

abbrev pub new_request : Context → ReserveArgs → SyncRequest
new_request ctx args = record {
  id = ctx.new_id;
  correlation_id = ctx.correlation_id;
  account_id = args.account_id;
  idempotency_digest = args.digest;
  actor = args.actor;
  status = RequestStatus.queued;
  notify = args.notify;
  quota_bypass = args.quota_bypass;
  bypass_reason = args.bypass_reason;
  force_probe = args.force_probe;
  accepted_at = ctx.now;
  started_at = none;
  completed_at = none;
  lease_expires_at = ctx.now + seconds sync_lease_seconds;
  error_code = none;
  result = none;
}

-- From the insertion of the request on: `job_id` is the identifier of the job that is enqueued. A
-- second row for one (account, digest) breaks the unique constraint at `db.flush()`.
unfoldable pub insert_request : Context → ℕ → ReserveArgs → Db → Option Db
unfolding prune_sync_requests
insert_request ctx job_id args db =
    let request = new_request ctx args in
    if any (same_digest args.account_id args.digest) db.requests
    then none
    else (let added = record db { requests = db.requests ++ request ∷ [] } in
        let queued =
          if args.enqueue
          then (enqueue_sync_job (record ctx { new_id = job_id }) request added).1
          else added in
        let told = record_event args.account_id "sync:accepted" [] args.actor queued in
        some (record told { requests = prune_sync_requests args.account_id told.requests }))

-- The branch that won the slot. A failed transaction is rolled back.
unfoldable pub reserve_won : Context → ℕ → ReserveArgs → Account → Db → Outcome × Db
reserve_won ctx job_id args account db =
    let admitted = admitted_account ctx account in
    let taken = record db { accounts = set_account account.id admitted db.accounts } in
    let recovered = (recover_expired_requests admitted ctx.now taken).1 in
    elim (insert_request ctx job_id args recovered) [
      | none ↦ (integrity_error, db)
      | some done ↦ (
        reserved (
            reservation (new_request ctx args) (ctx.now + seconds manual_sync_cooldown_seconds)
              false),
        done,
      )
    ]

abbrev pub available_or_now : Option ℕ → ℕ → ℕ
available_or_now none now = now
available_or_now (some t) now = t

-- The UPDATE and what follows it, at the database that it meets; `none` when it changed no row.
unfoldable pub take_slot : Context → ℕ → ReserveArgs → Db → Option (Outcome × Db)
unfolding reserve_won is_admitted
take_slot ctx job_id args db = elim (get_account args.account_id db) [
  | none ↦ none
  | some account ↦
      if is_admitted args ctx.now account
      then some (reserve_won ctx job_id args account db)
      else none
]

-- How a call without the slot and without an earlier request is refused.
unfoldable pub refused : Context → ReserveArgs → Account → Db → Outcome × Db
refused ctx args account db =
    if account.is_disabled
    then (disabled, db)
    else if slot_taken ctx.now account
    then (let until = available_or_now account.sync_active_until ctx.now in
        let retry_after = seconds_until until ctx.now in
        (
          in_progress retry_after until,
          record_event account.id "sync:rejected_in_progress"
              (count "retry_after_seconds" retry_after ∷ []) args.actor db,
        ))
    else if args.enforce_cooldown && cooling_down ctx.now account
    then (let until = available_or_now account.sync_cooldown_until ctx.now in
        let retry_after = seconds_until until ctx.now in
        (
          cooldown_active retry_after until,
          record_event account.id "sync:rejected_cooldown"
              (count "retry_after_seconds" retry_after ∷ []) args.actor db,
        ))
    else (reservation_failed, db)

-- The branch whose UPDATE changed no row, from `db.expire_all()` on: it reads the account again.
unfoldable pub reserve_lost : Context → ReserveArgs → Db → Outcome × Db
unfolding refused
reserve_lost ctx args db = elim (get_account args.account_id db) [
  | none ↦ (not_found, db)
  | some account ↦
      let (existing, db') = existing_reservation account args.digest ctx.now db in
      elim existing [ some r ↦ (reserved r, db') | none ↦ refused ctx args account db' ]
]

-- From the UPDATE on: `later` is what other transactions commit between an UPDATE that changed no
-- row and the second read.
unfoldable pub reserve_update : (Db → Db) → Context → ℕ → ReserveArgs → Db → Outcome × Db
unfolding take_slot reserve_lost
reserve_update later ctx job_id args db = elim (take_slot ctx job_id args db) [
  | some done ↦ done
  | none ↦ reserve_lost ctx args (later db)
]

-- `reserve_sync_request`: `others` is what other transactions commit between the first read and
-- the UPDATE.
unfoldable pub reserve_sync_request :
    (Db → Db) → (Db → Db) → Context → ℕ → ReserveArgs → Db → Outcome × Db
unfolding reserve_update
reserve_sync_request others later ctx job_id args db = elim (get_account args.account_id db) [
  | none ↦ (not_found, db)
  | some account ↦
      let (existing, db') = existing_reservation account args.digest ctx.now db in
      elim existing [
        | some r ↦ (reserved r, db')
        | none ↦ reserve_update later ctx job_id args (others db')
      ]
]
