-- ===== src/Jobs/Outbox.antt =====
-- The notification outbox of jobs.py: `_recover_expired_outbox`, `claim_outbox`, `finish_outbox`.
use imtegrale.Prelude.{
  ℕ, ◌+◌, Bool, true, false, not, ◌&&◌, ◌||◌, Option, none, some, List, [], ◌∷◌, ltb, leb, ◌==◌,
  if◌then◌else◌, holds, is_some_of, take,
}
use imtegrale.Query.{select, first, find, order_by}
use imtegrale.Models.{
  Db, NotificationOutbox, OutboxStatus, Payload, code, outbox_status_eq, minutes,
}
use imtegrale.Events.{record_event}
use imtegrale.Store.{or_text, or_id, set_message}
use imtegrale.Jobs.{retry_delay}
use Prim.Native.String.{String}

-- `.order_by(NotificationOutbox.lease_expires_at)`; a NULL stands last.
abbrev pub message_lease_before : NotificationOutbox → NotificationOutbox → Bool
message_lease_before a b = elim a.lease_expires_at [
  | none ↦ holds (λ _. false) b.lease_expires_at
  | some s ↦ elim b.lease_expires_at [ none ↦ true | some t ↦ leb s t ]
]

abbrev pub is_lapsed_message : ℕ → (ℕ → Bool) → NotificationOutbox → Bool
is_lapsed_message now locked m =
    outbox_status_eq m.status OutboxStatus.sending
    && holds (λ t. leb t now) m.lease_expires_at
    && not (locked m.id)

unfoldable pub recovered_message : ℕ → NotificationOutbox → NotificationOutbox
recovered_message now m =
    let freed = record m { worker_id = none; lease_expires_at = none; updated_at = now } in
    if leb m.max_attempts m.attempts
    then record freed {
      status = OutboxStatus.dead_letter;
      error_code = some "OUTBOX_LEASE_EXHAUSTED";
    }
    else record freed {
      status = OutboxStatus.pending;
      available_at = now + retry_delay m.attempts;
      error_code = some "OUTBOX_LEASE_EXPIRED";
    }

-- The row is stored, and a dead letter is told to the account.
abbrev pub store_message : NotificationOutbox → String → Db → Db
store_message row error db =
    let stored = record db { outbox = set_message row.id row db.outbox } in
    if outbox_status_eq row.status OutboxStatus.dead_letter
    then record_event row.account_id "telegram:error" (code error ∷ []) "system" stored
    else stored

unfoldable pub recover_messages : ℕ → List NotificationOutbox → Db → Db
recover_messages now [] db = db
recover_messages now (m ∷ rest) db =
    recover_messages now rest (store_message (recovered_message now m) "OUTBOX_LEASE_EXHAUSTED" db)

unfoldable pub recover_expired_outbox : ℕ → (ℕ → Bool) → Db → Db
unfolding recover_messages
recover_expired_outbox now locked db =
    recover_messages now
      (take 100 (order_by message_lease_before (select (is_lapsed_message now locked) db.outbox)))
      db

pub record OutboxClaim : Type 0 where
  pub id : ℕ
  pub account_id : ℕ
  pub payload : Payload
  pub worker_id : ℕ
  pub attempts : ℕ
  pub correlation_id : Option ℕ

abbrev pub is_sendable : ℕ → (ℕ → Bool) → NotificationOutbox → Bool
is_sendable now locked m =
    outbox_status_eq m.status OutboxStatus.pending && leb m.available_at now && not (locked m.id)

-- `.order_by(available_at, created_at)`.
abbrev pub sends_before : NotificationOutbox → NotificationOutbox → Bool
sends_before a b =
    ltb a.available_at b.available_at
    || (a.available_at == b.available_at && leb a.created_at b.created_at)

unfoldable pub claimed_message : ℕ → ℕ → NotificationOutbox → NotificationOutbox
claimed_message now worker m = record m {
  status = OutboxStatus.sending;
  worker_id = some worker;
  attempts = m.attempts + 1;
  lease_expires_at = some (now + minutes 2);
  error_code = none;
  updated_at = now;
}

abbrev pub next_message : ℕ → (ℕ → Bool) → List NotificationOutbox → Option NotificationOutbox
next_message now locked outbox =
    first (order_by sends_before (select (is_sendable now locked) outbox))

-- `fresh` is `new_correlation_id()`; `locked` holds of the rows that SKIP LOCKED passes over.
unfoldable pub claim_outbox : ℕ → ℕ → ℕ → (ℕ → Bool) → Db → Option OutboxClaim × Db
unfolding recover_expired_outbox claimed_message
claim_outbox now worker fresh locked db =
    let recovered = recover_expired_outbox now locked db in
    elim (next_message now locked recovered.outbox) [
      | none ↦ (none, recovered)
      | some m ↦
          let row = claimed_message now worker m in
          (
            some (record {
              id = row.id;
              account_id = row.account_id;
              payload = row.payload;
              worker_id = worker;
              attempts = row.attempts;
              correlation_id = or_id row.correlation_id (some fresh);
            }),
            record recovered { outbox = set_message row.id row recovered.outbox },
          )
    ]

unfoldable pub finished_message : Bool → Option String → ℕ → NotificationOutbox → NotificationOutbox
finished_message success error_code now m =
    let freed = record m { worker_id = none; lease_expires_at = none; updated_at = now } in
    if success
    then record freed {
      status = OutboxStatus.delivered;
      delivered_at = some now;
      error_code = none;
    }
    else if ltb m.attempts m.max_attempts
    then record freed {
      status = OutboxStatus.pending;
      available_at = now + retry_delay m.attempts;
      error_code = some (or_text error_code "OUTBOX_RETRY");
    }
    else record freed {
      status = OutboxStatus.dead_letter;
      error_code = some (or_text error_code "OUTBOX_FAILED");
    }

abbrev pub is_held : OutboxClaim → NotificationOutbox → Bool
is_held claim m =
    outbox_status_eq m.status OutboxStatus.sending && is_some_of claim.worker_id m.worker_id

unfoldable pub finish_outbox : OutboxClaim → Bool → Option String → ℕ → Db → Bool × Db
unfolding finished_message
finish_outbox claim success error_code now db = elim (find (λ m. m.id == claim.id) db.outbox) [
  | none ↦ (false, db)
  | some m ↦
      if is_held claim m
      then (
        true,
        store_message (finished_message success error_code now m)
            (or_text error_code "OUTBOX_FAILED") db,
      )
      else (false, db)
]
