-- ===== src/Availability/Reconcile.antt =====
-- `autonomous_fallback_is_available` and `reconcile_autonomous_schedule_state` of
-- backend/app/services/autonomous_sync_schedule.py.
use imtegrale.Prelude.{
  ℕ, Bool, true, false, not, ◌&&◌, ◌||◌, Option, none, some, List, [], ◌∷◌, ◌==◌, if◌then◌else◌,
  holds, is_none,
}
use imtegrale.Query.{find, any}
use imtegrale.Models.{
  Account, AutoSync, SyncMode, known, other, PauseReason, autonomous_runtime_unavailable,
  credential_invalid, reauth_required, credential_key_unavailable,
}
use imtegrale.Availability.{Settings, autonomous_sync_execution_allowed_for}
use SyncMode.{manual, session_only, autonomous}

-- A row of `ImtSyncCredential`: one per account.
pub record Credential : Type 0 where
  pub account_id : ℕ
  pub is_active : Bool

abbrev pub is_autonomous : AutoSync → Bool
is_autonomous auto = elim auto.mode [
  | none ↦ false
  | some raw ↦ elim raw [
    | other _ ↦ false
    | known mode ↦ elim mode [ autonomous ↦ true | manual ↦ false | session_only ↦ false ]
  ]
]

-- `runtime_enabled and (settings is None or autonomous_sync_execution_allowed_for(...))`.
abbrev pub account_runtime_enabled : Bool → Option Settings → Account → Bool
account_runtime_enabled runtime_enabled settings account =
    runtime_enabled
    && elim settings [ none ↦ true | some s ↦ autonomous_sync_execution_allowed_for account s ]

abbrev pub has_active_credential : List Credential → Account → Bool
has_active_credential credentials account =
    holds (λ c. c.is_active) (find (λ c. c.account_id == account.id) credentials)

-- `autonomous_fallback_is_available`.
unfoldable pub autonomous_fallback_is_available :
    List Credential → Bool → Option Settings → Account → Bool
autonomous_fallback_is_available credentials runtime_enabled settings account =
    account_runtime_enabled runtime_enabled settings account
    && not account.is_disabled
    && account.auto_sync.enabled
    && is_autonomous account.auto_sync
    && not (is_none account.auto_sync.consented_at)
    && any (λ c. c.account_id == account.id && c.is_active) credentials

abbrev pub reason_eq : PauseReason → PauseReason → Bool
reason_eq reauth_required reauth_required = true
reason_eq credential_invalid credential_invalid = true
reason_eq credential_key_unavailable credential_key_unavailable = true
reason_eq autonomous_runtime_unavailable autonomous_runtime_unavailable = true
reason_eq _ _ = false

abbrev pub is_paused_for : PauseReason → AutoSync → Bool
is_paused_for reason auto = holds (reason_eq reason) auto.paused_reason

abbrev pub paused : PauseReason → ℕ → Account → Account
paused reason now account = record account {
  auto_sync = record account.auto_sync {
    paused_reason = some reason;
    paused_at = some now;
    next_at = none;
  };
}

abbrev pub resumed : Account → Account
resumed account = record account {
  auto_sync = record account.auto_sync { paused_reason = none; paused_at = none };
}

abbrev pub pause_for : PauseReason → ℕ → Account → Bool × Account
pause_for reason now account =
    if is_paused_for reason account.auto_sync
    then (false, account)
    else (true, paused reason now account)

-- One round of the loop: whether the account changed, and the account.
unfoldable pub reconcile_account :
    List Credential → Bool → Option Settings → ℕ → Account → Bool × Account
reconcile_account credentials runtime_enabled settings now account =
    if not (is_autonomous account.auto_sync)
    then (false, account)
    else if not (account_runtime_enabled runtime_enabled settings account)
    then pause_for autonomous_runtime_unavailable now account
    else if not (has_active_credential credentials account)
    then pause_for credential_invalid now account
    else if is_paused_for autonomous_runtime_unavailable account.auto_sync
    then (true, resumed account)
    else (false, account)

-- `reconcile_autonomous_schedule_state`.
unfoldable pub reconcile_autonomous_schedule_state :
    List Credential → Bool → Option Settings → ℕ → List Account → Bool × List Account
unfolding reconcile_account
reconcile_autonomous_schedule_state credentials runtime_enabled settings now [] = (false, [])
reconcile_autonomous_schedule_state credentials runtime_enabled settings now (account ∷ rest) =
    let (changed, account') = reconcile_account credentials runtime_enabled settings now account in
    let (others, rest') =
      reconcile_autonomous_schedule_state credentials runtime_enabled settings now rest in
    (changed || others, account' ∷ rest')
