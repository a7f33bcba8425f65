-- ===== src/SyncControl.antt =====
-- Admission of synchronisations: backend/app/services/sync_control.py. Here are its constants, its
-- small functions and the handling of lost and replayed requests; `Reserve` has the reservation.
pub mod Reserve
pub mod Finish
pub mod Start
pub mod Slot
pub mod Takeover
pub mod Admission
pub mod Exclusive
pub mod Guards
use imtegrale.Prelude.{
  ℕ, ◌+◌, ◌-◌, ◌*◌, ◌/◌, ◌%◌, Bool, true, false, not, ◌&&◌, ◌||◌, Option, none, some, List, [], ◌∷◌,
  ltb, leb, ◌==◌, if◌then◌else◌, length,
}
use imtegrale.Query.{select, find}
use imtegrale.Models.{Db, Account, SyncRequest, RequestStatus, Detail, code, seconds, is_active}
use imtegrale.Events.{record_event}
use imtegrale.Store.{set_request, set_account, interrupted, release_slot, or_id}
use Prim.Native.String.{String}
use text.Mathlib.Text.{◌==◌ as str_eq}

abbrev pub manual_sync_cooldown_seconds : ℕ
manual_sync_cooldown_seconds = 600

abbrev pub sync_lease_seconds : ℕ
sync_lease_seconds = 900

-- `max(0, math.ceil((target - current).total_seconds()))`.
unfoldable pub seconds_until : ℕ → ℕ → ℕ
seconds_until target current = (target - current + 999_999) / 1_000_000

-- The texts of `format_retry_after`, by the numbers that they show.
pub data RetryText : Type 0 where
  minutes_and_seconds : ℕ → ℕ → RetryText
  only_minutes : ℕ → RetryText
  only_seconds : ℕ → RetryText

unfoldable pub format_retry_after : ℕ → RetryText
format_retry_after remaining =
    let minutes = remaining / 60 in
    let seconds_part = remaining % 60 in
    if not (minutes == 0) && not (seconds_part == 0)
    then minutes_and_seconds minutes seconds_part
    else if not (minutes == 0)
    then only_minutes minutes
    else only_seconds seconds_part

-- One character of `_IDEMPOTENCY_KEY`: [A-Za-z0-9._~:/+=-].
unfoldable pub is_key_char : ℕ → Bool
is_key_char c =
    (leb b'A' c && leb c b'Z')
    || (leb b'a' c && leb c b'z')
    || (leb b'0' c && leb c b'9')
    || c == b'.'
    || c == b'_'
    || c == b'~'
    || c == b':'
    || c == b'/'
    || c == b'+'
    || c == b'='
    || c == b'-'

unfoldable pub all_key_chars : List ℕ → Bool
all_key_chars [] = true
all_key_chars (c ∷ cs) = is_key_char c && all_key_chars cs

-- `normalize_idempotency_key` on code points; `token` is `secrets.token_urlsafe(24)`, and `none`
-- is InvalidIdempotencyKey. A full match has no white space, so `strip` changes none.
unfoldable pub normalize_idempotency_key : List ℕ → Option (List ℕ) → Option (List ℕ)
unfolding all_key_chars is_key_char
normalize_idempotency_key token none = some token
normalize_idempotency_key token (some value) =
    if all_key_chars value && leb 8 (length value) && leb (length value) 128
    then some value
    else none

pub record SyncReservation : Type 0 where
  pub request_id : ℕ
  pub account_id : ℕ
  pub actor : String
  pub status : RequestStatus
  pub accepted_at : ℕ
  pub lease_expires_at : ℕ
  pub cooldown_until : ℕ
  pub should_start : Bool
  pub idempotent_replay : Bool
  pub error_code : Option String

abbrev pub is_queued : RequestStatus → Bool
is_queued RequestStatus.queued = true
is_queued _ = false

-- `_reservation`.
abbrev pub reservation : SyncRequest → ℕ → Bool → SyncReservation
reservation request cooldown_until replay = record {
  request_id = request.id;
  account_id = request.account_id;
  actor = request.actor;
  status = request.status;
  accepted_at = request.accepted_at;
  lease_expires_at = request.lease_expires_at;
  cooldown_until = cooldown_until;
  should_start = not replay && is_queued request.status;
  idempotent_replay = replay;
  error_code = request.error_code;
}

-- The two rows that `_mark_request_worker_lost` writes.
abbrev pub lost_request : ℕ → SyncRequest → SyncRequest
lost_request now request = record request {
  status = RequestStatus.failed;
  completed_at = some now;
  error_code = some "SYNC_WORKER_LOST";
  result = none;
}

abbrev pub lost_account : ℕ → ℕ → Account → Account
lost_account now request_id account =
    let freed = release_slot request_id account in
    if str_eq freed.last_sync_status "running"
    then record freed {
      last_sync_at = some now;
      last_sync_status = "error";
      last_sync_error = some interrupted;
    }
    else freed

-- `_mark_request_worker_lost`; the account object that the session holds is returned too.
unfoldable pub mark_request_worker_lost : Account → SyncRequest → ℕ → Db → Account × Db
mark_request_worker_lost account request now db =
    let account' = lost_account now request.id account in
    (
      account',
      record_event account.id "sync:error" (code "SYNC_WORKER_LOST" ∷ []) "system" (record db {
        requests = set_request request.id (lost_request now request) db.requests;
        accounts = set_account account.id account' db.accounts;
      }),
    )

abbrev pub is_lapsed : ℕ → SyncRequest → Bool
is_lapsed now request = is_active request.status && leb request.lease_expires_at now

unfoldable pub recover_each : ℕ → List SyncRequest → Account → Db → Account × Db
recover_each now [] account db = (account, db)
recover_each now (request ∷ rest) account db =
    let (account', db') = mark_request_worker_lost account request now db in
    recover_each now rest account' db'

abbrev pub lapsed_requests : Account → ℕ → List SyncRequest → List SyncRequest
lapsed_requests account now = select (λ r. r.account_id == account.id && is_lapsed now r)

-- `_recover_expired_requests`.
unfoldable pub recover_expired_requests : Account → ℕ → Db → Account × Db
unfolding recover_each
recover_expired_requests account now db =
    recover_each now (lapsed_requests account now db.requests) account db

abbrev pub same_digest : ℕ → ℕ → SyncRequest → Bool
same_digest account_id digest r = r.account_id == account_id && r.idempotency_digest == digest

-- `account.sync_cooldown_until or request.accepted_at + ...`.
abbrev pub replay_cooldown : Account → SyncRequest → ℕ
replay_cooldown account request = elim account.sync_cooldown_until [
  | none ↦ request.accepted_at + seconds manual_sync_cooldown_seconds
  | some t ↦ t
]

-- `_existing_reservation`.
unfoldable pub existing_reservation : Account → ℕ → ℕ → Db → Option SyncReservation × Db
existing_reservation account digest now db =
    elim (find (same_digest account.id digest) db.requests) [
      | none ↦ (none, db)
      | some request ↦
          if is_lapsed now request
          then (let (account', db') = mark_request_worker_lost account request now db in
              (
                some (
                    reservation (lost_request now request) (replay_cooldown account' request) true),
                db',
              ))
          else (some (reservation request (replay_cooldown account request) true), db)
    ]
