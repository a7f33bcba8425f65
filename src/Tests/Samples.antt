-- ===== src/Tests/Samples.antt =====
-- Two accounts, one synchronisation under way, and the jobs of a small queue.
use imtegrale.Prelude.{ℕ, Bool, true, false, none, some, [], ◌∷◌}
use imtegrale.Models.{
  Db, AutoSync, SyncMode, known, Account, SyncRequest, RequestStatus, DurableJob, JobKind,
  JobStatus, sync_key, digest_key, seconds,
}
use imtegrale.Jobs.{no_payload}

-- Every four hours, for a student who consented.
abbrev pub scheduled : AutoSync
scheduled = record {
  enabled = true;
  mode = some (known SyncMode.session_only);
  interval_hours = 4;
  adaptive = true;
  current_interval_hours = 4;
  no_change_streak = 2;
  next_at = none;
  consented_at = some 0;
  paused_reason = none;
  paused_at = none;
  timezone = "Europe/Paris";
}

abbrev pub account : ℕ → Account
account id = record {
  id = id;
  is_disabled = false;
  telegram_enabled = false;
  encrypted_telegram_token = none;
  encrypted_telegram_chat_id = none;
  last_sync_at = none;
  last_sync_status = "never";
  last_sync_error = none;
  sync_cooldown_until = none;
  sync_active_request_id = none;
  sync_active_until = none;
  auto_sync = scheduled;
  updated_at = 0;
}

-- Account 1 holds its slot for request 7, until 900 seconds.
abbrev pub busy : Account
busy = record (account 1) {
  sync_active_request_id = some 7;
  sync_active_until = some (seconds 900);
  sync_cooldown_until = some (seconds 600);
}

abbrev pub request_seven : SyncRequest
request_seven = record {
  id = 7;
  correlation_id = none;
  account_id = 1;
  idempotency_digest = 70;
  actor = "owner";
  status = RequestStatus.queued;
  notify = true;
  quota_bypass = false;
  bypass_reason = none;
  force_probe = false;
  accepted_at = 0;
  started_at = none;
  completed_at = none;
  lease_expires_at = seconds 900;
  error_code = none;
  result = none;
}

abbrev pub job : ℕ → JobKind → DurableJob
job id kind = record {
  id = id;
  correlation_id = none;
  kind = kind;
  account_id = some 1;
  idempotency_key = digest_key id;
  payload = no_payload;
  status = JobStatus.queued;
  priority = 100;
  available_at = 0;
  lease_expires_at = none;
  attempts = 0;
  max_attempts = 3;
  worker_id = none;
  error_code = none;
  created_at = 0;
  started_at = none;
  completed_at = none;
  updated_at = 0;
}

-- The job of request 7 stands before an older calendar job of low priority.
abbrev pub sync_job : DurableJob
sync_job = record (job 11 JobKind.sync) {
  idempotency_key = sync_key 7;
  payload = record no_payload { request_id = some 7 };
  priority = 50;
}

abbrev pub calendar_job : DurableJob
calendar_job = job 12 JobKind.calendar

abbrev pub late_job : DurableJob
late_job = job 13 JobKind.sync

abbrev pub db : Db
db = record {
  accounts = busy ∷ account 2 ∷ [];
  requests = request_seven ∷ [];
  jobs = late_job ∷ sync_job ∷ calendar_job ∷ [];
  outbox = [];
  events = [];
  next_event_id = 1;
}

abbrev pub unlocked : ℕ → Bool
unlocked _ = false
