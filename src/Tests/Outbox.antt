-- ===== src/Tests/Outbox.antt =====
-- One notification that may be sent twice.
use imtegrale.Prelude.{◌≤◌, false, none, some, [], ◌∷◌, arith}
use imtegrale.Models.{Db, NotificationOutbox, OutboxStatus, digest_key, seconds}
use imtegrale.Jobs.{no_payload, retry_delay}
use imtegrale.Jobs.Outbox.{
  OutboxClaim, claim_outbox, recover_expired_outbox, recover_messages, claimed_message,
  finish_outbox, finished_message,
}
use imtegrale.Jobs.Weight.{IsSoundOutbox, weight}
use imtegrale.Jobs.Drain.{idle, claims, reports, sendings_bounded}

abbrev message : NotificationOutbox
message = record {
  id = 1;
  correlation_id = none;
  account_id = 1;
  idempotency_key = digest_key 1;
  payload = no_payload;
  status = OutboxStatus.pending;
  available_at = 0;
  lease_expires_at = none;
  attempts = 0;
  max_attempts = 2;
  worker_id = none;
  error_code = none;
  created_at = 0;
  delivered_at = none;
  updated_at = 0;
}

abbrev waiting : Db
waiting = record {
  accounts = [];
  requests = [];
  jobs = [];
  outbox = message ∷ [];
  events = [];
  next_event_id = 1;
}

waiting-IsSoundOutbox : IsSoundOutbox waiting.outbox
waiting-IsSoundOutbox = record { unique = (tt, tt); sendable = ((λ _. omega arith), tt) }

abbrev held : OutboxClaim
held = record {
  id = 1;
  account_id = 1;
  payload = no_payload;
  worker_id = 50;
  attempts = 1;
  correlation_id = some 9;
}

-- Claimed at 10 seconds, failed at 11 seconds, and claimed again at 20 seconds.
sendings_bounded_example : 2 ≤ weight waiting.outbox
unfolding claim_outbox recover_expired_outbox recover_messages claimed_message finish_outbox
    finished_message retry_delay
sendings_bounded_example = sendings_bounded {n = 2} {a = waiting} waiting-IsSoundOutbox (
    claims (seconds 20) 51 9 (λ _. false)
      (reports held false none (seconds 11) (claims (seconds 10) 50 9 (λ _. false) idle)))
