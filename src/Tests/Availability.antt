-- ===== src/Tests/Availability.antt =====
-- The theorems on the autonomous mode, with one account that has lost its credential.
use imtegrale.Prelude.{ℕ, ◌≡◌, refl, true, false, none, some, List, [], ◌∷◌, All}
use imtegrale.Models.{Account, SyncMode, known, seconds}
use imtegrale.Availability.{
  Settings, Rollout, Heartbeat, autonomous_runtime_status, autonomous_sync_available_for,
  autonomous_sync_rollout_allows,
}
use imtegrale.Availability.Reconcile.{
  Credential, is_autonomous, account_runtime_enabled, has_active_credential,
  reconcile_autonomous_schedule_state,
}
use imtegrale.Availability.Ready.{reconcile_twice, reconcile_covers}
use imtegrale.Availability.Live.{IsLive, available_needs_worker}
use imtegrale.Tests.Samples.{account}

abbrev autonomous_account : ℕ → Account
autonomous_account id = record (account id) {
  auto_sync = record (account id).auto_sync { mode = some (known SyncMode.autonomous) };
}

abbrev accounts : List Account
accounts = autonomous_account 1 ∷ autonomous_account 2 ∷ account 3 ∷ []

-- The credential of account 2 is not active.
abbrev credentials : List Credential
credentials =
    record { account_id = 1; is_active = true } ∷ record { account_id = 2; is_active = false } ∷ []

abbrev reconciled : List Account
reconciled = (reconcile_autonomous_schedule_state credentials true none 5 accounts).1

reconcile_twice_example :
    reconcile_autonomous_schedule_state credentials true none 9 reconciled ≡ (false, reconciled)
reconcile_twice_example = reconcile_twice credentials true none 5 9 accounts

reconcile_covers_example :
    All
      (λ a.
        is_autonomous a.auto_sync ≡ true
        → a.auto_sync.paused_reason ≡ none
        → (account_runtime_enabled true none a ≡ true)
          × (has_active_credential credentials a ≡ true))
      reconciled
reconcile_covers_example = reconcile_covers credentials true none 5 accounts

abbrev everyone : Settings
everyone = record {
  autonomous_sync_enabled = true;
  autonomous_sync_enrollment_enabled = true;
  autonomous_sync_rollout = Rollout.all;
  autonomous_sync_canary_account_ids = [];
  worker_heartbeat_ttl_seconds = 60;
}

abbrev heartbeat : Heartbeat
heartbeat = record {
  is_ok = true;
  seen_at = seconds 100;
  details = record {
    runtime_profile = true;
    hpke_credentials_ready = true;
    pass_session_storage = true;
    legacy_decrypt_unavailable = true;
    dedicated_identity = true;
    autonomous_runtime_ready = true;
    credential_opener_ready = true;
  };
}

abbrev now : ℕ
now = seconds 150

offered_now :
    autonomous_sync_available_for
      (some (account 1))
      everyone
      true
      (autonomous_runtime_status (some heartbeat) everyone now)
      true
    ≡ true
unfolding autonomous_sync_available_for autonomous_runtime_status
offered_now = refl

available_needs_worker_example :
    ((row : Heartbeat) × (some heartbeat ≡ some row) × IsLive everyone now row)
    × (true ≡ true)
    × (true ≡ true)
    × ((account 1).is_disabled ≡ false)
    × (autonomous_sync_rollout_allows (account 1) everyone ≡ true)
available_needs_worker_example =
    available_needs_worker (some heartbeat) everyone now (account 1) true true offered_now
