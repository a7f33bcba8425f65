-- ===== src/Availability.antt =====
-- Who may run the autonomous synchronisation: autonomous_sync_availability.py and
-- autonomous_sync_schedule.py of backend/app/services.
pub mod Reconcile
pub mod Ready
pub mod Live
use imtegrale.Prelude.{
  ℕ, ◌+◌, Bool, true, false, not, ◌&&◌, ◌||◌, Option, none, some, List, ltb, ◌==◌, if◌then◌else◌,
}
use imtegrale.Query.{any}
use imtegrale.Models.{Account, seconds}

pub data Rollout : Type 0 where
  off canary all : Rollout

-- The settings that the feature reads.
pub record Settings : Type 0 where
  pub autonomous_sync_enabled : Bool
  pub autonomous_sync_enrollment_enabled : Bool
  pub autonomous_sync_rollout : Rollout
  pub autonomous_sync_canary_account_ids : List ℕ
  pub worker_heartbeat_ttl_seconds : ℕ

-- The details of a heartbeat, each as the answer to "is it the value required".
pub record HeartbeatDetails : Type 0 where
  pub runtime_profile : Bool
  pub hpke_credentials_ready : Bool
  pub pass_session_storage : Bool
  pub legacy_decrypt_unavailable : Bool
  pub dedicated_identity : Bool
  pub autonomous_runtime_ready : Bool
  pub credential_opener_ready : Bool

-- The row of the worker `sync` in `RuntimeHeartbeat`.
pub record Heartbeat : Type 0 where
  pub is_ok : Bool
  pub seen_at : ℕ
  pub details : HeartbeatDetails

pub data RuntimeState : Type 0 where
  disabled ready worker_missing worker_stale keys_unavailable configuration_invalid : RuntimeState

-- `autonomous_runtime_status`; the cutoff `now - ttl` is compared as `seen_at + ttl < now`.
unfoldable pub autonomous_runtime_status : Option Heartbeat → Settings → ℕ → RuntimeState
autonomous_runtime_status heartbeat settings now = elim settings.autonomous_sync_rollout [
  | off ↦ disabled
  | _ ↦
      if not settings.autonomous_sync_enabled || not settings.autonomous_sync_enrollment_enabled
      then configuration_invalid
      else elim heartbeat [
        | none ↦ worker_missing
        | some row ↦
            let details = row.details in
            if not row.is_ok
              || ltb (row.seen_at + seconds settings.worker_heartbeat_ttl_seconds) now
            then worker_stale
            else if not details.runtime_profile
                || not details.dedicated_identity
                || not details.legacy_decrypt_unavailable
            then configuration_invalid
            else if not details.hpke_credentials_ready
                || not details.pass_session_storage
                || not details.autonomous_runtime_ready
                || not details.credential_opener_ready
            then keys_unavailable
            else ready
      ]
]

-- `autonomous_sync_rollout_allows`.
abbrev pub autonomous_sync_rollout_allows : Account → Settings → Bool
autonomous_sync_rollout_allows account settings =
    not account.is_disabled && elim settings.autonomous_sync_rollout [
      | all ↦ true
      | canary ↦ any (λ id. id == account.id) settings.autonomous_sync_canary_account_ids
      | off ↦ false
    ]

-- `autonomous_sync_execution_allowed_for`.
abbrev pub autonomous_sync_execution_allowed_for : Account → Settings → Bool
autonomous_sync_execution_allowed_for account settings =
    settings.autonomous_sync_enabled && autonomous_sync_rollout_allows account settings

abbrev pub is_ready : RuntimeState → Bool
is_ready ready = true
is_ready _ = false

-- `autonomous_sync_available_for`.
unfoldable pub autonomous_sync_available_for :
    Option Account → Settings → Bool → RuntimeState → Bool → Bool
autonomous_sync_available_for account settings primary_owner runtime_status enrollment_key_ready =
    elim account [
      | none ↦ false
      | some account ↦
          primary_owner
          && not account.is_disabled
          && settings.autonomous_sync_enabled
          && settings.autonomous_sync_enrollment_enabled
          && autonomous_sync_rollout_allows account settings
          && is_ready runtime_status
          && enrollment_key_ready
    ]
