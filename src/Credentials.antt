-- ===== src/Credentials.antt =====
-- The credentials of autonomous synchronisation: backend/app/services/imt_sync_credentials.py. A
-- row holds the sealed password of one account while it is active, and nothing of it afterwards.
pub mod Operations
pub mod Lifecycle
pub mod Generations
use imtegrale.Prelude.{
  ℕ, ◌+◌, Bool, true, false, not, ◌&&◌, ◌||◌, Option, none, some, List, [], ◌∷◌, ◌++◌, leb, ◌==◌,
  if◌then◌else◌, is_none, holds, length,
}
use imtegrale.Query.{select, update, find, order_by}
use imtegrale.Models.{Db, Account, AutoSync, SyncMode, known, StoredMode}
use imtegrale.Events.{record_event}
use imtegrale.Store.{get_account}
use Prim.Native.String.{String}

pub data CredentialState : Type 0 where
  active invalid revoked : CredentialState

pub data RevocationReason : Type 0 where
  user_revoked manual_mode session_only_mode pass_access_purged credential_replaced :
      RevocationReason
  credential_invalid key_unavailable database_restored account_disabled : RevocationReason
  login_changed operator_revoked : RevocationReason

-- A row of `ImtSyncCredential`; the column account_id is unique. Envelopes and key names are only
-- measured and compared.
pub record SyncCredential : Type 0 where
  pub id : ℕ
  pub account_id : ℕ
  pub encrypted_envelope : Option ℕ
  pub envelope_version : Option ℕ
  pub key_id : Option ℕ
  pub credential_generation : ℕ
  pub state : CredentialState
  pub consent_version : ℕ
  pub consented_at : Option ℕ
  pub verified_at : Option ℕ
  pub last_used_at : Option ℕ
  pub last_success_at : Option ℕ
  pub last_failure_at : Option ℕ
  pub failure_count : ℕ
  pub revoked_at : Option ℕ
  pub revoked_reason : Option RevocationReason
  pub created_at : ℕ
  pub updated_at : ℕ

-- What `seal` returns.
pub record Sealed : Type 0 where
  pub envelope : ℕ
  pub version : ℕ
  pub key_id : ℕ

-- `ImtSyncCredentialSealer.seal`, of a password, an account, a login, a generation and a consent
-- version, where `none` is an exception; `len` of an envelope; and the pattern of a key name.
pub record Sealer : Type 0 where
  pub seal : ℕ → ℕ → ℕ → ℕ → ℕ → Option Sealed
  pub size : ℕ → ℕ
  pub is_key_id : ℕ → Bool

-- The database with the credentials, the column `imt_username` by account, and what
-- `active_service_session_exists` finds.
pub record State : Type 0 where
  pub db : Db
  pub credentials : List SyncCredential
  pub imt_username : ℕ → ℕ
  pub session_exists : ℕ → Bool

-- `IMT_SYNC_CREDENTIAL_ENVELOPE_BYTES`: the header, the frame, a X25519 key and a tag.
abbrev pub envelope_bytes : ℕ
envelope_bytes = 52 + (3_072 + (32 + 16))

abbrev pub is_active : SyncCredential → Bool
is_active c = elim c.state [ CredentialState.active ↦ true | _ ↦ false ]

abbrev pub is_revoked : SyncCredential → Bool
is_revoked c = elim c.state [ CredentialState.revoked ↦ true | _ ↦ false ]

-- `credential_metadata_is_valid`; counts are never negative here.
abbrev pub credential_metadata_is_valid : Sealer → SyncCredential → Bool
credential_metadata_is_valid sealer c =
    leb 1 c.credential_generation
    && leb 1 c.consent_version
    && (if is_active c
        then holds (λ e. sealer.size e == envelope_bytes) c.encrypted_envelope
          && holds (leb 1) c.envelope_version
          && holds sealer.is_key_id c.key_id
          && not (is_none c.consented_at)
          && not (is_none c.verified_at)
          && is_none c.revoked_at
          && is_none c.revoked_reason
        else is_none c.encrypted_envelope
          && is_none c.envelope_version
          && is_none c.key_id
          && not (is_none c.revoked_at)
          && not (is_none c.revoked_reason))

-- The exceptions; each leaves the database as it was.
pub data Failure : Type 0 where
  account_not_found account_is_disabled login_has_changed : Failure
  not_sealed metadata_invalid inconsistent_account : Failure

pub data Answer {ℓ} (A : Type ℓ) : Type ℓ where
  done : A → Answer A
  failed : Failure → Answer A

-- `_lock_account`.
abbrev pub lock_account : ℕ → Option ℕ → State → Answer Account
lock_account account_id expected_login s = elim (get_account account_id s.db) [
  | none ↦ failed account_not_found
  | some account ↦
      if account.is_disabled
      then failed account_is_disabled
      else if holds (λ login. not (s.imt_username account_id == login)) expected_login
      then failed login_has_changed
      else done account
]

abbrev pub of_account : ℕ → SyncCredential → Bool
of_account account_id c = c.account_id == account_id

-- `_lock_credential`.
abbrev pub lock_credential : ℕ → State → Option SyncCredential
lock_credential account_id s = find (of_account account_id) s.credentials

pub record Enrolment : Type 0 where
  pub account_id : ℕ
  pub expected_login : ℕ
  pub verified_password : ℕ
  pub consent_version : ℕ
  pub actor : String

abbrev pub next_generation : Option SyncCredential → ℕ
next_generation none = 1
next_generation (some c) = c.credential_generation + 1

abbrev pub new_credential : Enrolment → ℕ → ℕ → Sealed → SyncCredential
new_credential args id now metadata = record {
  id = id;
  account_id = args.account_id;
  encrypted_envelope = some metadata.envelope;
  envelope_version = some metadata.version;
  key_id = some metadata.key_id;
  credential_generation = 1;
  state = CredentialState.active;
  consent_version = args.consent_version;
  consented_at = some now;
  verified_at = some now;
  last_used_at = none;
  last_success_at = none;
  last_failure_at = none;
  failure_count = 0;
  revoked_at = none;
  revoked_reason = none;
  created_at = now;
  updated_at = now;
}

abbrev pub replaced : Enrolment → ℕ → Sealed → SyncCredential → SyncCredential
replaced args now metadata c = record c {
  encrypted_envelope = some metadata.envelope;
  envelope_version = some metadata.version;
  key_id = some metadata.key_id;
  credential_generation = c.credential_generation + 1;
  state = CredentialState.active;
  consent_version = args.consent_version;
  consented_at = some now;
  verified_at = some now;
  last_failure_at = none;
  failure_count = 0;
  revoked_at = none;
  revoked_reason = none;
  updated_at = now;
}
