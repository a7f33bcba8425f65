-- ===== src/Schedule.antt =====
-- The automatic schedule: backend/app/services/sync_schedule.py. The time zone is the library's:
-- `wall` reads the local clock of an instant, `unwall` the instant of a local time, both counted
-- in microseconds, the local clock as if it were UTC.
pub mod Calendar
pub mod Opening
pub mod Cadence
pub mod Terms
pub mod Due
use imtegrale.Prelude.{
  ℕ, zero, suc, ◌+◌, ◌*◌, ◌/◌, ◌%◌, max, min, Bool, true, false, not, ◌&&◌, ◌||◌, Option, none,
  some, List, [], ◌∷◌, ltb, leb, if◌then◌else◌, is_none,
}
use imtegrale.Models.{Account, AutoSync, hours, minutes, days}
use imtegrale.Modes.{stored_sync_mode_is_supported}
use imtegrale.Availability.{Settings, autonomous_sync_execution_allowed_for}
use Prim.Native.String.{String}

-- `ZoneInfo` with `astimezone` and `datetime.combine`.
pub record Zone : Type 0 where
  pub wall : ℕ → ℕ
  pub unwall : ℕ → ℕ

-- The zones known by name, and Europe/Paris.
pub record Zones : Type 0 where
  pub named : String → Option Zone
  pub paris : Zone

abbrev pub or_zone : Option Zone → Zone → Zone
or_zone none zone = zone
or_zone (some zone) _ = zone

-- `account_zone`.
abbrev pub account_zone : Zones → Account → Zone
account_zone zones account = or_zone (zones.named account.auto_sync.timezone) zones.paris

-- `date()`, `weekday()` and `time()` of a local time; 1 January 1970 was a Thursday.
abbrev pub date : ℕ → ℕ
date w = w / 86_400_000_000

abbrev pub weekday : ℕ → ℕ
weekday day = (day + 3) % 7

abbrev pub time : ℕ → ℕ
time w = w % 86_400_000_000

-- `BUSINESS_START`, `BUSINESS_END` and `BUSINESS_WEEKDAYS`.
abbrev pub business_start : ℕ
business_start = 28_800_000_000

abbrev pub business_end : ℕ
business_end = 72_000_000_000

abbrev pub is_business_day : ℕ → Bool
is_business_day day = ltb (weekday day) 5

-- `datetime.combine(date, BUSINESS_START, zone)`, on the local clock.
abbrev pub opening : ℕ → ℕ
opening day = day * 86_400_000_000 + business_start

abbrev pub in_hours : ℕ → Bool
in_hours w = is_business_day (date w) && leb business_start (time w) && ltb (time w) business_end

-- `in_business_window`.
abbrev pub in_business_window : Zone → ℕ → Bool
in_business_window zone now = in_hours (zone.wall now)

-- The loop of `next_business_time`: `local` is a local time and `instant` the time in UTC that it
-- stands for. `none` is the RuntimeError after eight rounds.
unfoldable pub next_round : Zone → ℕ → ℕ → ℕ → Option ℕ
next_round zone zero local instant = none
next_round zone (suc rounds) local instant =
    let tomorrow = opening (date local + 1) in
    let later = next_round zone rounds tomorrow (zone.unwall tomorrow) in
    if not (is_business_day (date local))
    then later
    else if ltb (time local) business_start
    then some (zone.unwall (opening (date local)))
    else if leb business_end (time local)
    then later
    else some instant

unfoldable pub next_business_time : Zone → ℕ → Option ℕ
unfolding next_round
next_business_time zone candidate = next_round zone 8 (zone.wall candidate) candidate

-- `effective_auto_sync_interval`.
abbrev pub effective_auto_sync_interval : AutoSync → ℕ
effective_auto_sync_interval account =
    if not account.adaptive then account.interval_hours else account.current_interval_hours

-- The guard of `next_auto_sync_at`: the mode runs here, is enabled and consented to, and neither
-- the schedule nor the account is stopped.
abbrev pub is_scheduled : Settings → Account → Bool
is_scheduled settings account =
    stored_sync_mode_is_supported (autonomous_sync_execution_allowed_for account settings)
      account.auto_sync
    && account.auto_sync.enabled
    && not (is_none account.auto_sync.consented_at)
    && is_none account.auto_sync.paused_reason
    && not account.is_disabled

-- The instant that `next_auto_sync_at` hands to `next_business_time`.
abbrev pub candidate_of : Zone → Account → ℕ → ℕ
candidate_of zone account current = elim account.auto_sync.next_at [
  | some next_at ↦ next_at
  | none ↦ elim account.last_sync_at [
    | none ↦ current
    | some last ↦
        let scheduled = last + hours (effective_auto_sync_interval account.auto_sync) in
        if in_business_window zone current then scheduled else max current scheduled
  ]
]

-- What a function that may raise RuntimeError or ValueError returns.
pub data Raised {ℓ} (A : Type ℓ) : Type ℓ where
  returned : A → Raised A
  raised : Raised A

abbrev pub of_time : Option ℕ → Raised (Option ℕ)
of_time none = raised
of_time (some t) = returned (some t)

-- `next_auto_sync_at`.
unfoldable pub next_auto_sync_at : Zones → Settings → Account → ℕ → Raised (Option ℕ)
unfolding next_business_time
next_auto_sync_at zones settings account current =
    if is_scheduled settings account
    then (let zone = account_zone zones account in
        of_time (next_business_time zone (candidate_of zone account current)))
    else returned none

abbrev pub is_by : ℕ → Raised (Option ℕ) → Raised Bool
is_by current raised = raised
is_by current (returned none) = raised
is_by current (returned (some t)) = returned (leb t current)

-- `auto_sync_is_due`.
unfoldable pub auto_sync_is_due : Zones → Settings → Account → ℕ → Raised Bool
unfolding next_auto_sync_at
auto_sync_is_due zones settings account current =
    if is_scheduled settings account && in_business_window (account_zone zones account) current
    then is_by current (next_auto_sync_at zones settings account current)
    else returned false
