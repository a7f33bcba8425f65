-- ===== src/Availability/Live.antt =====
-- When the autonomous mode is offered, and how a stored mode resolves: sync_modes.py and
-- autonomous_sync_availability.py.
use imtegrale.Prelude.{
  ℕ, ◌+◌, ◌≤◌, ◌≡◌, ◌⊎◌, refl, Bool, true, false, Option, none, some, arith, if◌then◌else◌,
}
use imtegrale.Models.{Account, AutoSync, SyncMode, seconds}
use imtegrale.Modes.{stored_sync_mode, effective_sync_mode, stored_sync_mode_is_supported}
use imtegrale.Availability.{
  Settings, Heartbeat, autonomous_runtime_status, autonomous_sync_available_for,
  autonomous_sync_rollout_allows, is_ready,
}

-- The worker's last heartbeat is good, recent, and shows the isolated runtime with its keys.
pub record IsLive (settings : Settings) (now : ℕ) (row : Heartbeat) : Type 0 where
  pub healthy : row.is_ok ≡ true
  pub fresh : now ≤ row.seen_at + seconds settings.worker_heartbeat_ttl_seconds
  pub profile : row.details.runtime_profile ≡ true
  pub credentials : row.details.hpke_credentials_ready ≡ true
  pub storage : row.details.pass_session_storage ≡ true
  pub no_legacy : row.details.legacy_decrypt_unavailable ≡ true
  pub identity : row.details.dedicated_identity ≡ true
  pub runtime : row.details.autonomous_runtime_ready ≡ true
  pub opener : row.details.credential_opener_ready ≡ true

-- The status says ready only of a live worker.
status_ready :
    (heartbeat : Option Heartbeat) (settings : Settings) (now : ℕ)
    → is_ready (autonomous_runtime_status heartbeat settings now) ≡ true
    → (row : Heartbeat) × (heartbeat ≡ some row) × IsLive settings now row
unfolding autonomous_runtime_status
status_ready none settings now h = absurd (ground arith)
status_ready (some row) settings now h = (
  row,
  refl,
  record {
    healthy = ground arith;
    fresh = ground arith;
    profile = ground arith;
    credentials = ground arith;
    storage = ground arith;
    no_legacy = ground arith;
    identity = ground arith;
    runtime = ground arith;
    opener = ground arith;
  },
)

-- The autonomous mode is offered to an account only while a live worker is there, to the primary
-- owner of an account that is not disabled and that the rollout admits, with the key for enrolment.
pub available_needs_worker :
    (heartbeat : Option Heartbeat) (settings : Settings) (now : ℕ) (account : Account)
    (primary_owner enrollment_key_ready : Bool)
    → autonomous_sync_available_for
        (some account)
        settings
        primary_owner
        (autonomous_runtime_status heartbeat settings now)
        enrollment_key_ready
      ≡ true
    → ((row : Heartbeat) × (heartbeat ≡ some row) × IsLive settings now row)
      × (primary_owner ≡ true)
      × (enrollment_key_ready ≡ true)
      × (account.is_disabled ≡ false)
      × (autonomous_sync_rollout_allows account settings ≡ true)
unfolding autonomous_sync_available_for
available_needs_worker heartbeat settings now account owner key h = (
  status_ready heartbeat settings now (ground arith),
  ground arith,
  ground arith,
  ground arith,
  ground arith,
)

-- An account in autonomous mode is never downgraded: it resolves to that mode or, without its
-- runtime, to none; and a mode that is stored and supported here always resolves, to a mode that
-- the account chose or to session-only.
pub effective_sync_mode-keeps :
    (runtime : Bool) (account : AutoSync)
    → account.enabled ≡ true
    → (stored_sync_mode account ≡ some SyncMode.autonomous
        → (effective_sync_mode runtime account
            ≡ (if runtime then some SyncMode.autonomous else none)))
      × ((mode : SyncMode)
          → stored_sync_mode account ≡ some mode
          → stored_sync_mode_is_supported runtime account ≡ true
          → (effective_sync_mode runtime account ≡ some mode)
            ⊎ (effective_sync_mode runtime account ≡ some SyncMode.session_only))
unfolding effective_sync_mode stored_sync_mode_is_supported
effective_sync_mode-keeps runtime account on = (λ s. ground arith, λ mode s k. ground arith)
