-- ===== src/Tests/Schedule.antt =====
-- The theorems on the automatic schedule, in a zone one hour ahead of UTC.
use imtegrale.Prelude.{ℕ, ◌+◌, ◌-◌, ◌≡◌, refl, Bool, true, false, none, some, arith, []}
use imtegrale.Models.{Account, hours, minutes}
use imtegrale.Modes.{stored_sync_mode_is_supported}
use imtegrale.Availability.{Settings, Rollout}
use imtegrale.Schedule.{
  Zone, Zones, next_business_time, effective_auto_sync_interval, auto_sync_is_due, returned,
  is_scheduled, opening,
}
use imtegrale.Schedule.Opening.{IsZone, IsNextOpening, next_business_time-IsNextOpening}
use imtegrale.Schedule.Cadence.{IsCadence, update_adaptive_cadence, defer_automatic_sync}
use imtegrale.Schedule.Terms.{Asks, MayRun}
use imtegrale.Schedule.Due.{
  HasNext, update_adaptive_cadence-HasNext, defer_automatic_sync-HasNext, auto_sync_is_due-IsSafe,
}
use imtegrale.Tests.Samples.{account}

abbrev winter : Zone
winter = record { wall = λ t. t + 3_600_000_000; unwall = λ w. w - 3_600_000_000 }

abbrev zones : Zones
zones = record { named = λ _. some winter; paris = winter }

winter-IsZone : IsZone winter
winter-IsZone = record { opens = λ day. omega arith; forward = λ t day h. omega arith }

account-IsCadence : IsCadence (account 1).auto_sync
account-IsCadence = record {
  baseline = refl;
  current = refl;
  widened_only = omega arith;
  streak = omega arith;
}

abbrev settings : Settings
settings = record {
  autonomous_sync_enabled = false;
  autonomous_sync_enrollment_enabled = false;
  autonomous_sync_rollout = Rollout.off;
  autonomous_sync_canary_account_ids = [];
  worker_heartbeat_ttl_seconds = 60;
}

-- Friday 9 January 1970, half past seven in the evening, UTC.
abbrev friday_evening : ℕ
friday_evening = opening 8 + hours 11 + minutes 30

-- The Monday after, eight o'clock in the zone.
abbrev monday : ℕ
monday = opening 11 - hours 1

weekend_is_skipped : next_business_time winter friday_evening ≡ some monday
unfolding next_business_time
weekend_is_skipped = refl

next_business_time-IsNextOpening_example :
    (next : ℕ) × (next_business_time winter friday_evening ≡ some next)
    × IsNextOpening winter friday_evening next
next_business_time-IsNextOpening_example =
    next_business_time-IsNextOpening winter winter-IsZone friday_evening

update_adaptive_cadence-HasNext_example :
    (after : Account) × (update_adaptive_cadence zones false "automatic" friday_evening (account 1)
      ≡ returned after)
    × IsCadence after.auto_sync
    × HasNext zones
        (account 1)
        winter-IsZone
        (friday_evening + hours (effective_auto_sync_interval after.auto_sync))
        after
update_adaptive_cadence-HasNext_example =
    update_adaptive_cadence-HasNext zones (account 1) winter-IsZone false "automatic" friday_evening
      account-IsCadence

defer_automatic_sync-HasNext_example :
    (after : Account) × (defer_automatic_sync zones none monday (account 1) ≡ returned after)
    × HasNext zones (account 1) winter-IsZone (monday + minutes 1) after
    × (asked : ℕ) × Asks (account 1).auto_sync monday none asked
    × (next : ℕ) × (after.auto_sync.next_at ≡ some next)
    × IsNextOpening winter asked next
defer_automatic_sync-HasNext_example =
    defer_automatic_sync-HasNext zones (account 1) winter-IsZone none monday

auto_sync_is_due-IsSafe_example :
    (due : Bool) × (auto_sync_is_due zones settings (account 1) monday ≡ returned due)
    × (due ≡ true → MayRun winter settings (account 1) monday)
auto_sync_is_due-IsSafe_example =
    auto_sync_is_due-IsSafe zones (account 1) winter-IsZone settings monday

is_scheduled_here : is_scheduled settings (account 1) ≡ true
unfolding stored_sync_mode_is_supported
is_scheduled_here = refl

-- The account after the run of Monday morning, whose streak widens the interval to six hours.
abbrev after_monday : Account
after_monday = record (account 1) {
  auto_sync = record (account 1).auto_sync {
    current_interval_hours = 6;
    no_change_streak = 0;
    next_at = some (monday + hours 6);
  };
}
