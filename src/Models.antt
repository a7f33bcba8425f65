-- ===== src/Models.antt =====
-- The rows that the synchronisation code reads and writes: backend/app/models.py and
-- backend/app/models_operations.py. Identifiers (UUIDs, digests, worker names) are only compared,
-- so they are numbers; instants are UTC microseconds since a fixed epoch, so `ensure_utc` is the
-- identity; a NULL column is `none`.
use imtegrale.Prelude.{ℕ, ◌*◌, Bool, true, false, Option, List, ◌==◌}
use Prim.Native.String.{String}

-- `timedelta(seconds=n)` and its larger units.
abbrev pub seconds : ℕ → ℕ
seconds n = n * 1_000_000

abbrev pub minutes : ℕ → ℕ
minutes n = seconds (n * 60)

abbrev pub hours : ℕ → ℕ
hours n = seconds (n * 3_600)

abbrev pub days : ℕ → ℕ
days n = seconds (n * 86_400)

pub data SyncMode : Type 0 where
  manual session_only autonomous : SyncMode

-- The text of the column `auto_sync_mode`: the value of a mode, or another text.
pub data StoredMode : Type 0 where
  known : SyncMode → StoredMode
  other : String → StoredMode

-- `SYNC_PAUSE_REASONS` of sync_modes.py.
pub data PauseReason : Type 0 where
  reauth_required credential_invalid credential_key_unavailable : PauseReason
  autonomous_runtime_unavailable : PauseReason

-- The columns `auto_sync_*` and `timezone` of `Account`.
pub record AutoSync : Type 0 where
  pub enabled : Bool
  pub mode : Option StoredMode
  pub interval_hours : ℕ
  pub adaptive : Bool
  pub current_interval_hours : ℕ
  pub no_change_streak : ℕ
  pub next_at : Option ℕ
  pub consented_at : Option ℕ
  pub paused_reason : Option PauseReason
  pub paused_at : Option ℕ
  pub timezone : String

-- The columns of `Account` that synchronisation uses.
pub record Account : Type 0 where
  pub id : ℕ
  pub is_disabled : Bool
  pub telegram_enabled : Bool
  pub encrypted_telegram_token : Option ℕ
  pub encrypted_telegram_chat_id : Option ℕ
  pub last_sync_at : Option ℕ
  pub last_sync_status : String
  pub last_sync_error : Option String
  pub sync_cooldown_until : Option ℕ
  pub sync_active_request_id : Option ℕ
  pub sync_active_until : Option ℕ
  pub auto_sync : AutoSync
  pub updated_at : ℕ

pub data RequestStatus : Type 0 where
  queued running succeeded failed skipped : RequestStatus

pub record SyncRequest : Type 0 where
  pub id : ℕ
  pub correlation_id : Option ℕ
  pub account_id : ℕ
  pub idempotency_digest : ℕ
  pub actor : String
  pub status : RequestStatus
  pub notify : Bool
  pub quota_bypass : Bool
  pub bypass_reason : Option String
  pub force_probe : Bool
  pub accepted_at : ℕ
  pub started_at : Option ℕ
  pub completed_at : Option ℕ
  pub lease_expires_at : ℕ
  pub error_code : Option String
  -- The stored result document, by its digest.
  pub result : Option ℕ

pub data JobKind : Type 0 where
  sync calendar : JobKind

pub data JobStatus : Type 0 where
  queued running succeeded dead_letter : JobStatus

-- The idempotency keys: `sync:<request>`, `sync:<request>:new-notes`, and a calendar digest.
pub data Key : Type 0 where
  sync_key new_notes_key digest_key : ℕ → Key

-- A JSON payload: a key that is absent, or whose value has another type, is `none`.
pub record Payload : Type 0 where
  pub request_id : Option ℕ
  pub due_at : Option ℕ
  pub note_ids : Option (List ℕ)

pub record DurableJob : Type 0 where
  pub id : ℕ
  pub correlation_id : Option ℕ
  pub kind : JobKind
  pub account_id : Option ℕ
  pub idempotency_key : Key
  pub payload : Payload
  pub status : JobStatus
  pub priority : ℕ
  pub available_at : ℕ
  pub lease_expires_at : Option ℕ
  pub attempts : ℕ
  pub max_attempts : ℕ
  pub worker_id : Option ℕ
  pub error_code : Option String
  pub created_at : ℕ
  pub started_at : Option ℕ
  pub completed_at : Option ℕ
  pub updated_at : ℕ

pub data OutboxStatus : Type 0 where
  pending sending delivered dead_letter : OutboxStatus

pub record NotificationOutbox : Type 0 where
  pub id : ℕ
  pub correlation_id : Option ℕ
  pub account_id : ℕ
  pub idempotency_key : Key
  pub payload : Payload
  pub status : OutboxStatus
  pub available_at : ℕ
  pub lease_expires_at : Option ℕ
  pub attempts : ℕ
  pub max_attempts : ℕ
  pub worker_id : Option ℕ
  pub error_code : Option String
  pub created_at : ℕ
  pub delivered_at : Option ℕ
  pub updated_at : ℕ

-- A value of an event's payload.
pub data Detail : Type 0 where
  code : String → Detail
  count : String → ℕ → Detail
  words : String → String → Detail
  hundredths : String → ℕ → Detail

pub record Event : Type 0 where
  pub id : ℕ
  pub account_id : ℕ
  pub kind : String
  pub payload : List Detail
  pub actor : String

-- The tables of one database.
pub record Db : Type 0 where
  pub accounts : List Account
  pub requests : List SyncRequest
  pub jobs : List DurableJob
  pub outbox : List NotificationOutbox
  pub events : List Event
  -- The next value of the events' sequence.
  pub next_event_id : ℕ

abbrev pub kind_eq : JobKind → JobKind → Bool
kind_eq JobKind.sync JobKind.sync = true
kind_eq JobKind.calendar JobKind.calendar = true
kind_eq _ _ = false

abbrev pub job_status_eq : JobStatus → JobStatus → Bool
job_status_eq JobStatus.queued JobStatus.queued = true
job_status_eq JobStatus.running JobStatus.running = true
job_status_eq JobStatus.succeeded JobStatus.succeeded = true
job_status_eq JobStatus.dead_letter JobStatus.dead_letter = true
job_status_eq _ _ = false

abbrev pub outbox_status_eq : OutboxStatus → OutboxStatus → Bool
outbox_status_eq OutboxStatus.pending OutboxStatus.pending = true
outbox_status_eq OutboxStatus.sending OutboxStatus.sending = true
outbox_status_eq OutboxStatus.delivered OutboxStatus.delivered = true
outbox_status_eq OutboxStatus.dead_letter OutboxStatus.dead_letter = true
outbox_status_eq _ _ = false

abbrev pub key_eq : Key → Key → Bool
key_eq (sync_key a) (sync_key b) = a == b
key_eq (new_notes_key a) (new_notes_key b) = a == b
key_eq (digest_key a) (digest_key b) = a == b
key_eq _ _ = false

-- `status in ACTIVE_SYNC_STATUSES`, and `status in TERMINAL_SYNC_STATUSES` for what is left.
abbrev pub is_active : RequestStatus → Bool
is_active RequestStatus.queued = true
is_active RequestStatus.running = true
is_active _ = false
