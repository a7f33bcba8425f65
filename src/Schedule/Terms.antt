-- ===== src/Schedule/Terms.antt =====
-- What an automatic run and its deferral must respect, apart from the functions that decide it.
use imtegrale.Prelude.{
  ℕ, ◌+◌, ◌*◌, ◌≤◌, not, is_none, ◌≡◌, refl, true, false, Option, none, some, arith,
}
use imtegrale.Models.{Account, AutoSync, hours, minutes}
use imtegrale.Schedule.{
  Zone, in_business_window, effective_auto_sync_interval, is_scheduled, candidate_of,
}
use imtegrale.Schedule.Cadence.{retry_candidate}
use imtegrale.Availability.{Settings, autonomous_sync_execution_allowed_for}
use imtegrale.Modes.{stored_sync_mode_is_supported}

-- The instant `asked` that a deferral may ask for.
abbrev pub Asks : AutoSync → ℕ → Option ℕ → ℕ → Type 0
Asks account now none asked =
    (now + minutes 15 ≤ asked)
    × (asked ≤ now + minutes 120)
    × (1 ≤ effective_auto_sync_interval account
        → effective_auto_sync_interval account ≤ 8
        → asked ≡ now + minutes (effective_auto_sync_interval account * 15))
Asks account now (some t) asked =
    (now + minutes 1 ≤ asked) × (t ≤ asked) × ((n : ℕ) → now + minutes 1 ≤ n → t ≤ n → asked ≤ n)

pub retry_candidate-Asks :
    (account : AutoSync) (now : ℕ) (available_at : Option ℕ)
    → Asks account now available_at (retry_candidate available_at now account)
retry_candidate-Asks account now none = (ground arith, ground arith, λ l h. ground arith)
retry_candidate-Asks account now (some t) = (ground arith, ground arith, λ n l h. ground arith)

-- What must hold of an account and an instant for an automatic run: the mode is one that the
-- settings support, the schedule is on, consented to and not paused, the account is enabled, the
-- business hours are open, and the run set, or else the interval since the last run, is past.
pub record MayRun (zone : Zone) (settings : Settings) (account : Account) (now : ℕ) : Type 0 where
  pub supported :
      stored_sync_mode_is_supported
        (autonomous_sync_execution_allowed_for account settings)
        account.auto_sync
      ≡ true
  pub enabled : account.auto_sync.enabled ≡ true
  pub consented : (t : ℕ) × (account.auto_sync.consented_at ≡ some t)
  pub not_paused : account.auto_sync.paused_reason ≡ none
  pub not_disabled : account.is_disabled ≡ false
  pub open_hours : in_business_window zone now ≡ true
  pub not_before_set : (t : ℕ) → account.auto_sync.next_at ≡ some t → t ≤ now
  pub interval_past :
      (t : ℕ)
      → account.auto_sync.next_at ≡ none
      → account.last_sync_at ≡ some t
      → t + hours (effective_auto_sync_interval account.auto_sync) ≤ now

some_of : (o : Option ℕ) → not (is_none o) ≡ true → (t : ℕ) × (o ≡ some t)
some_of none h = cc
some_of (some t) h = (t, refl)

none_of : {A : Type 0} (o : Option A) → is_none o ≡ true → o ≡ none
none_of none h = refl
none_of (some t) h = cc

pub scheduled-MayRun :
    (zone : Zone) (settings : Settings) (account : Account) (now : ℕ)
    → is_scheduled settings account ≡ true
    → in_business_window zone now ≡ true
    → candidate_of zone account now ≤ now
    → MayRun zone settings account now
scheduled-MayRun zone settings account now s w late = record {
  supported = ground arith;
  enabled = ground arith;
  consented = some_of account.auto_sync.consented_at (ground arith);
  not_paused = none_of account.auto_sync.paused_reason (ground arith);
  not_disabled = ground arith;
  open_hours = w;
  not_before_set = λ t e. rw e at late;
  interval_past = λ t e l. let past = rw (e, l, w) at late in past;
}
