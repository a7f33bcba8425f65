-- ===== src/Availability/Ready.antt =====
-- What the checks of autonomous_sync_availability.py and autonomous_sync_schedule.py guarantee.
use imtegrale.Prelude.{
  ℕ, ◌≡◌, refl, ◌∙◌, inl, inr, Bool, true, false, if◌then◌else◌, Option, none, List, [], ◌∷◌, All,
  arith, Bool-cases,
}
use imtegrale.Models.{
  Account, PauseReason, autonomous_runtime_unavailable, credential_invalid, reauth_required,
  credential_key_unavailable,
}
use imtegrale.Availability.{Settings}
use imtegrale.Availability.Reconcile.{
  Credential, is_autonomous, account_runtime_enabled, has_active_credential, reconcile_account,
  pause_for, paused, resumed, reason_eq, is_paused_for, reconcile_autonomous_schedule_state,
}

module _ (credentials : List Credential) (runtime_enabled : Bool) (settings : Option Settings) where
  abbrev step : ℕ → Account → Bool × Account
  step now account = reconcile_account credentials runtime_enabled settings now account

  module _ (now : ℕ) (a : Account) where
    skipped : is_autonomous a.auto_sync ≡ false → step now a ≡ (false, a)
    unfolding reconcile_account
    skipped h = rw h refl

    down :
        is_autonomous a.auto_sync ≡ true
        → account_runtime_enabled runtime_enabled settings a ≡ false
        → step now a ≡ pause_for autonomous_runtime_unavailable now a
    unfolding reconcile_account
    down h k = rw (h, k) refl

    uncovered :
        is_autonomous a.auto_sync ≡ true
        → account_runtime_enabled runtime_enabled settings a ≡ true
        → has_active_credential credentials a ≡ false
        → step now a ≡ pause_for credential_invalid now a
    unfolding reconcile_account
    uncovered h k l = rw (h, k, l) refl

    covered :
        is_autonomous a.auto_sync ≡ true
        → account_runtime_enabled runtime_enabled settings a ≡ true
        → has_active_credential credentials a ≡ true
        → step now a ≡ (
            if is_paused_for autonomous_runtime_unavailable a.auto_sync
            then (true, resumed a)
            else (false, a))
    unfolding reconcile_account
    covered h k l = rw (h, k, l) refl

  kept_paused :
      (reason : PauseReason) (later : ℕ) (a : Account)
      → is_paused_for reason a.auto_sync ≡ true
      → pause_for reason later a ≡ (false, a)
  kept_paused reason later a h = rw h refl

  pauses_itself : (reason : PauseReason) → reason_eq reason reason ≡ true
  pauses_itself reauth_required = refl
  pauses_itself credential_invalid = refl
  pauses_itself credential_key_unavailable = refl
  pauses_itself autonomous_runtime_unavailable = refl

  -- An account that needs nothing is left alone.
  abbrev IsSettled : Account → Type 0
  IsSettled account = (later : ℕ) → step later account ≡ (false, account)

  -- Whatever pauses an account, pausing it again does nothing.
  pause_for-IsSettled :
      (reason : PauseReason) (now : ℕ) (account : Account)
      → ((later : ℕ) → step later account ≡ pause_for reason later account)
      → ((later : ℕ)
          → step later (paused reason now account)
            ≡ pause_for reason later (paused reason now account))
      → IsSettled (step now account).1
  pause_for-IsSettled reason now account here there later =
      elim (Bool-cases (is_paused_for reason account.auto_sync)) [
        | inl e ↦
            let same = here now ∙ kept_paused reason now account e in
            rw same (here later ∙ kept_paused reason later account e)
        | inr e ↦
            let moved : step now account ≡ (true, paused reason now account) =
              here now ∙ rw e refl in
            rw moved (
              there later
              ∙ kept_paused reason later (paused reason now account) (pauses_itself reason))
      ]

  -- A second round, at any time, finds nothing to do.
  reconcile_account-IsSettled : (now : ℕ) (account : Account) → IsSettled (step now account).1
  reconcile_account-IsSettled now account = elim (Bool-cases (is_autonomous account.auto_sync)) [
    | inr a ↦ λ later. rw (skipped now account a) (skipped later account a)
    | inl a ↦ elim (Bool-cases (account_runtime_enabled runtime_enabled settings account)) [
      | inr b ↦
          pause_for-IsSettled autonomous_runtime_unavailable now account
            (λ later. down later account a b) (λ later. down later _ a b)
      | inl b ↦ elim (Bool-cases (has_active_credential credentials account)) [
        | inr c ↦
            pause_for-IsSettled credential_invalid now account
              (λ later. uncovered later account a b c) (λ later. uncovered later _ a b c)
        | inl c ↦
            elim (Bool-cases (is_paused_for autonomous_runtime_unavailable account.auto_sync)) [
              | inl d ↦ λ later.
                  let moved : step now account ≡ (true, resumed account) =
                    covered now account a b c ∙ rw d refl in
                  rw moved (covered later (resumed account) a b c)
              | inr d ↦ λ later.
                  let same : step now account ≡ (false, account) =
                    covered now account a b c ∙ rw d refl in
                  rw same (covered later account a b c ∙ rw d refl)
            ]
      ]
    ]
  ]

  -- An account in autonomous mode that is not paused may run here and has an active credential.
  reconcile_account-covered :
      (now : ℕ) (account : Account)
      → let after = (step now account).1 in
        is_autonomous after.auto_sync ≡ true
        → after.auto_sync.paused_reason ≡ none
        → (account_runtime_enabled runtime_enabled settings after ≡ true)
          × (has_active_credential credentials after ≡ true)
  unfolding reconcile_account
  reconcile_account-covered now account = ground arith

  -- A second pass, at any later time and with the same credentials, changes nothing and reports so.
  pub reconcile_twice :
      (now later : ℕ) (accounts : List Account)
      → let after =
          (reconcile_autonomous_schedule_state credentials runtime_enabled settings now
            accounts).1 in
        reconcile_autonomous_schedule_state credentials runtime_enabled settings later after
        ≡ (false, after)
  unfolding reconcile_autonomous_schedule_state
  reconcile_twice now later [] = refl
  reconcile_twice now later (account ∷ rest) =
      let head = reconcile_account-IsSettled now account later in
      let tail = reconcile_twice now later rest in rw (head, tail) refl

  -- After a pass, an account in autonomous mode is paused, unless it may run here and has an active
  -- credential.
  pub reconcile_covers :
      (now : ℕ) (accounts : List Account)
      → All
          (λ a.
            is_autonomous a.auto_sync ≡ true
            → a.auto_sync.paused_reason ≡ none
            → (account_runtime_enabled runtime_enabled settings a ≡ true)
              × (has_active_credential credentials a ≡ true))
          (reconcile_autonomous_schedule_state credentials runtime_enabled settings now accounts).1
  unfolding reconcile_autonomous_schedule_state
  reconcile_covers now [] = tt
  reconcile_covers now (account ∷ rest) =
      (reconcile_account-covered now account, reconcile_covers now rest)
