-- ===== src/Credentials/Operations.antt =====
-- enroll_verified_credential, revoke_sync_credential, invalidate_sync_credential and
-- revoke_all_sync_credentials of imt_sync_credentials.py.
use imtegrale.Prelude.{
  ℕ, ◌+◌, Bool, true, false, not, Option, none, some, List, [], ◌∷◌, ◌++◌, leb, ◌==◌, if◌then◌else◌,
  length,
}
use imtegrale.Query.{select, update, order_by, any}
use Prim.Native.Nat.{◌-◌}
use imtegrale.Models.{Db, Account, SyncMode, known}
use imtegrale.Events.{record_event}
use imtegrale.Credentials.{
  SyncCredential, State, Sealer, Sealed, Enrolment, Answer, done, failed, not_sealed,
  metadata_invalid, inconsistent_account, CredentialState, RevocationReason,
  credential_metadata_is_valid, lock_account, lock_credential, of_account, new_credential, replaced,
  next_generation, is_active, is_revoked,
}
use Prim.Native.String.{String}

-- The insertion or the replacement, with the journal; `id` is new.
abbrev pub stored : Enrolment → ℕ → ℕ → Sealed → State → State
stored args id now metadata s = elim (lock_credential args.account_id s) [
  | none ↦ record s {
    credentials = s.credentials ++ new_credential args id now metadata ∷ [];
    db = record_event args.account_id "sync_credential:enrolled" [] args.actor s.db;
  }
  | some _ ↦ record s {
    credentials = update (of_account args.account_id) (replaced args now metadata) s.credentials;
    db = record_event args.account_id "sync_credential:replaced" [] args.actor s.db;
  }
]

-- The row after the flush, which must be valid.
abbrev pub flushed : Enrolment → ℕ → ℕ → Sealed → State → SyncCredential
flushed args id now metadata s = elim (lock_credential args.account_id s) [
  | none ↦ new_credential args id now metadata
  | some c ↦ replaced args now metadata c
]

-- Once the account is locked.
unfoldable pub enroll_locked : Sealer → Enrolment → ℕ → ℕ → State → Answer SyncCredential × State
enroll_locked sealer args id now s =
    let generation = next_generation (lock_credential args.account_id s) in
    elim (sealer.seal args.verified_password args.account_id (s.imt_username args.account_id)
      generation args.consent_version) [
        | none ↦ (failed not_sealed, s)
        | some metadata ↦
            let row = flushed args id now metadata s in
            if credential_metadata_is_valid sealer row
            then (done row, stored args id now metadata s)
            else (failed metadata_invalid, s)
      ]

unfoldable pub enroll_verified_credential :
    Sealer → Enrolment → ℕ → ℕ → State → Answer SyncCredential × State
unfolding enroll_locked
enroll_verified_credential sealer args id now s =
    elim (lock_account args.account_id (some args.expected_login) s) [
      | failed failure ↦ (failed failure, s)
      | done _ ↦ enroll_locked sealer args id now s
    ]

abbrev pub revoked_row : RevocationReason → ℕ → SyncCredential → SyncCredential
revoked_row reason now c = record c {
  encrypted_envelope = none;
  envelope_version = none;
  key_id = none;
  credential_generation = c.credential_generation + 1;
  state = CredentialState.revoked;
  revoked_at = some now;
  revoked_reason = some reason;
  updated_at = now;
}

-- `_revoke_locked_credential`.
unfoldable pub revoke_locked_credential :
    RevocationReason → String → ℕ → Option SyncCredential → State → Bool × State
revoke_locked_credential reason actor now credential s = elim credential [
  | none ↦ (false, s)
  | some c ↦ if is_revoked c then (false, s) else (
    true,
    record s {
      credentials = update (of_account c.account_id) (revoked_row reason now) s.credentials;
      db = record_event c.account_id "sync_credential:revoked" [] actor s.db;
    },
  )
]

-- The account that the caller has locked, or a lock of its own.
abbrev pub locked_by : Option Account → ℕ → State → Answer Account
locked_by none account_id s = lock_account account_id none s
locked_by (some a) account_id s = if a.id == account_id then done a else failed inconsistent_account

unfoldable pub revoke_sync_credential :
    ℕ → RevocationReason → String → ℕ → Option Account → State → Answer Bool × State
unfolding revoke_locked_credential
revoke_sync_credential account_id reason actor now locked_account s =
    elim (locked_by locked_account account_id s) [
      | failed failure ↦ (failed failure, s)
      | done _ ↦
          let (revoked, t) =
            revoke_locked_credential reason actor now (lock_credential account_id s) s in
          (done revoked, t)
    ]

abbrev pub invalid_row : ℕ → SyncCredential → SyncCredential
invalid_row now c = record c {
  encrypted_envelope = none;
  envelope_version = none;
  key_id = none;
  credential_generation = c.credential_generation + 1;
  state = CredentialState.invalid;
  last_failure_at = some now;
  failure_count = c.failure_count + 1;
  revoked_at = some now;
  revoked_reason = some RevocationReason.credential_invalid;
  updated_at = now;
}

abbrev pub invalidate_locked : ℕ → String → ℕ → State → Bool × State
invalidate_locked account_id actor now s = elim (lock_credential account_id s) [
  | none ↦ (false, s)
  | some c ↦
      if is_active c
      then (
        true,
        record s {
          credentials = update (of_account account_id) (invalid_row now) s.credentials;
          db = record_event account_id "sync_credential:invalidated" [] actor s.db;
        },
      )
      else (false, s)
]

unfoldable pub invalidate_sync_credential : ℕ → String → ℕ → State → Answer Bool × State
invalidate_sync_credential account_id actor now s = elim (lock_account account_id none s) [
  | failed failure ↦ (failed failure, s)
  | done _ ↦
      let (invalidated, t) = invalidate_locked account_id actor now s in (done invalidated, t)
]

abbrev record_each : String → String → List ℕ → Db → Db
record_each kind actor [] db = db
record_each kind actor (id ∷ rest) db =
    record_each kind actor rest (record_event id kind [] actor db)

abbrev pub is_autonomous_mode : Account → Bool
is_autonomous_mode a = elim a.auto_sync.mode [ some (known SyncMode.autonomous) ↦ true | _ ↦ false ]

-- An autonomous account falls back to its session, or to the manual mode.
abbrev pub fallen_back : (ℕ → Bool) → ℕ → Account → Account
fallen_back session_exists now a =
    let mode =
      if session_exists a.id
      then record a.auto_sync { enabled = true; mode = some (known SyncMode.session_only) }
      else record a.auto_sync {
        enabled = false;
        mode = some (known SyncMode.manual);
        consented_at = none;
      } in
    record a {
      auto_sync = record mode { next_at = none; paused_reason = none; paused_at = none };
      updated_at = now;
    }

abbrev credential_accounts : List SyncCredential → List ℕ
credential_accounts [] = []
credential_accounts (c ∷ rest) = c.account_id ∷ credential_accounts rest

abbrev account_ids : List Account → List ℕ
account_ids [] = []
account_ids (a ∷ rest) = a.id ∷ account_ids rest

-- `len` of the set of both.
abbrev distinct : List ℕ → ℕ
distinct [] = 0
distinct (x ∷ rest) = let n = distinct rest in if any (λ y. y == x) rest then n else n + 1

pub record RevokedAll : Type 0 where
  pub active_found : ℕ
  pub revoked : ℕ
  pub already_inactive : ℕ
  pub affected_accounts : ℕ

-- Both loops assign to the selected rows; the journal follows the order of the accounts.
unfoldable pub revoke_all_sync_credentials :
    RevocationReason → String → ℕ → State → RevokedAll × State
revoke_all_sync_credentials reason actor now s =
    let actives =
      order_by (λ a b. leb a.account_id b.account_id) (select is_active s.credentials) in
    let accounts = order_by (λ a b. leb a.id b.id) (select is_autonomous_mode s.db.accounts) in
    let told =
      record_each "sync:autonomous_state_reconciled" actor (account_ids accounts)
        (record_each "sync_credential:revoked" actor (credential_accounts actives) s.db) in
    (
      record {
        active_found = length actives;
        revoked = length actives;
        already_inactive = length s.credentials - length actives;
        affected_accounts = distinct (credential_accounts actives ++ account_ids accounts);
      },
      record s {
        credentials = update is_active (revoked_row reason now) s.credentials;
        db = record told {
          accounts = update is_autonomous_mode (fallen_back s.session_exists now) s.db.accounts;
        };
      },
    )

pub data Operated : Type 0 where
  counted : RevokedAll → Operated
  confirmation_required : Operated

-- The counts of a dry run.
abbrev dry_counts : State → RevokedAll
dry_counts s =
    let actives = select is_active s.credentials in
    record {
      active_found = length actives;
      revoked = 0;
      already_inactive = length s.credentials - length actives;
      affected_accounts =
          distinct
            (credential_accounts actives ++ account_ids (select is_autonomous_mode s.db.accounts));
    }

unfoldable pub revoke_all_sync_credentials_operation :
    RevocationReason → Bool → Bool → ℕ → State → Operated × State
unfolding revoke_all_sync_credentials
revoke_all_sync_credentials_operation reason dry_run confirmed now s =
    if dry_run
    then (counted (dry_counts s), s)
    else if not confirmed
    then (confirmation_required, s)
    else (let (result, t) = revoke_all_sync_credentials reason "operator" now s in
        (counted result, t))

pub record CredentialStatus : Type 0 where
  pub configured : Bool
  pub state : Option CredentialState
  pub consent_version : Option ℕ
  pub consented_at : Option ℕ
  pub verified_at : Option ℕ
  pub last_used_at : Option ℕ
  pub last_success_at : Option ℕ
  pub last_failure_at : Option ℕ

abbrev no_status : CredentialStatus
no_status = record {
  configured = false;
  state = none;
  consent_version = none;
  consented_at = none;
  verified_at = none;
  last_used_at = none;
  last_success_at = none;
  last_failure_at = none;
}

unfoldable pub credential_status : Sealer → ℕ → State → CredentialStatus
credential_status sealer account_id s = elim (lock_credential account_id s) [
  | none ↦ no_status
  | some c ↦
      if credential_metadata_is_valid sealer c
      then record {
        configured = is_active c;
        state = some c.state;
        consent_version = some c.consent_version;
        consented_at = c.consented_at;
        verified_at = c.verified_at;
        last_used_at = c.last_used_at;
        last_success_at = c.last_success_at;
        last_failure_at = c.last_failure_at;
      }
      else no_status
]

-- `needs_reenrollment`.
abbrev pub needs_reenrollment : CredentialStatus → Bool
needs_reenrollment status = elim status.state [ some CredentialState.invalid ↦ true | _ ↦ false ]
