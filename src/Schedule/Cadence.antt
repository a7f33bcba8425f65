-- ===== src/Schedule/Cadence.antt =====
-- `update_adaptive_cadence` and `defer_automatic_sync` of sync_schedule.py: how the interval of an
-- account widens while nothing changes, and when the next automatic run is due.
use imtegrale.Prelude.{
  ℕ, ◌⊎◌, inl, inr, Bool-cases, ◌+◌, ◌-◌, ◌*◌, ◌≤◌, ◌<◌, max, min, ◌≡◌, refl, Bool, true, not, ◌||◌,
  Option, none, some, List, [], ◌∷◌, leb, ◌==◌, if◌then◌else◌, length, drop, arith,
}
use imtegrale.Query.{any, first}
use imtegrale.Models.{Account, AutoSync, hours, minutes}
use imtegrale.Schedule.{
  Zones, account_zone, next_business_time, effective_auto_sync_interval, Raised, returned, raised,
}
use text.Mathlib.Text.{◌==◌ as str_eq}
use Prim.Native.String.{String}

-- `AUTO_SYNC_INTERVALS`.
abbrev pub auto_sync_intervals : List ℕ
auto_sync_intervals = 2 ∷ 4 ∷ 6 ∷ 8 ∷ 12 ∷ 24 ∷ []

-- `tuple.index`, whose ValueError is `none`.
abbrev index_from : ℕ → ℕ → List ℕ → Option ℕ
index_from n x [] = none
index_from n x (y ∷ ys) = let rest = index_from (n + 1) x ys in if y == x then some n else rest

-- `AUTO_SYNC_INTERVALS[min(AUTO_SYNC_INTERVALS.index(hours) + 1, len(AUTO_SYNC_INTERVALS) - 1)]`.
unfoldable pub widened_interval : ℕ → Option ℕ
widened_interval current_hours = elim (index_from 0 current_hours auto_sync_intervals) [
  | none ↦ none
  | some index ↦ first (drop (min (index + 1) (length auto_sync_intervals - 1)) auto_sync_intervals)
]

abbrev widened : AutoSync → Option ℕ → Raised AutoSync
widened account none = raised
widened account (some current_hours) =
    returned (record account { current_interval_hours = current_hours; no_change_streak = 0 })

-- The first half of `update_adaptive_cadence`: the interval and the streak.
unfoldable pub adapted : Bool → String → AutoSync → Raised AutoSync
unfolding widened_interval
adapted changed actor account =
    if not account.adaptive || changed
    then returned
        (record account { current_interval_hours = account.interval_hours; no_change_streak = 0 })
    else if str_eq actor "automatic"
    then (let streak = account.no_change_streak + 1 in
        if leb 3 streak
        then widened account (widened_interval account.current_interval_hours)
        else returned (record account { no_change_streak = streak }))
    else returned account

abbrev pub at_time : Account → AutoSync → Option ℕ → Raised Account
at_time account auto none = raised
at_time account auto (some t) =
    returned (record account { auto_sync = record auto { next_at = some t } })

abbrev pub rescheduled : Zones → Account → ℕ → Raised AutoSync → Raised Account
rescheduled zones account now raised = raised
rescheduled zones account now (returned auto) = at_time account auto (
    next_business_time (account_zone zones account)
      (now + hours (effective_auto_sync_interval auto)))

-- `update_adaptive_cadence`.
unfoldable pub update_adaptive_cadence : Zones → Bool → String → ℕ → Account → Raised Account
unfolding adapted
update_adaptive_cadence zones changed actor now account =
    rescheduled zones account now (adapted changed actor account.auto_sync)

abbrev pub retry_candidate : Option ℕ → ℕ → AutoSync → ℕ
retry_candidate none now account =
    now + minutes (min 120 (max 15 (effective_auto_sync_interval account * 15)))
retry_candidate (some available_at) now account = max (now + minutes 1) available_at

-- `defer_automatic_sync`, with the account that it writes.
unfoldable pub defer_automatic_sync : Zones → Option ℕ → ℕ → Account → Raised Account
defer_automatic_sync zones available_at now account = at_time account account.auto_sync (
    next_business_time (account_zone zones account)
      (retry_candidate available_at now account.auto_sync))

abbrev pub IsInterval : ℕ → Type 0
IsInterval interval = any (λ i. i == interval) auto_sync_intervals ≡ true

-- The schedule of an account is well formed.
pub record IsCadence (account : AutoSync) : Type 0 where
  pub baseline : IsInterval account.interval_hours
  pub current : IsInterval account.current_interval_hours
  pub widened_only : account.interval_hours ≤ account.current_interval_hours
  pub streak : account.no_change_streak < 3

interval_cases :
    (h : ℕ) → IsInterval h → (h ≡ 2) ⊎ (h ≡ 4) ⊎ (h ≡ 6) ⊎ (h ≡ 8) ⊎ (h ≡ 12) ⊎ (h ≡ 24)
interval_cases h i = ground arith

widened_interval_lem :
    (h : ℕ)
    → IsInterval h
    → (wider : ℕ) × (widened_interval h ≡ some wider) × IsInterval wider × (h ≤ wider)
unfolding widened_interval
widened_interval_lem h i = elim (interval_cases h i) [
  | inl e ↦ rw e (4, refl, refl, omega arith)
  | inr (inl e) ↦ rw e (6, refl, refl, omega arith)
  | inr (inr (inl e)) ↦ rw e (8, refl, refl, omega arith)
  | inr (inr (inr (inl e))) ↦ rw e (12, refl, refl, omega arith)
  | inr (inr (inr (inr (inl e)))) ↦ rw e (24, refl, refl, omega arith)
  | inr (inr (inr (inr (inr e)))) ↦ rw e (24, refl, refl, omega arith)
]

-- The first half never raises and keeps the schedule well formed, and the time zone.
pub adapted-IsCadence :
    (changed : Bool) (actor : String) (account : AutoSync)
    → IsCadence account
    → (after : AutoSync) × (adapted changed actor account ≡ returned after)
      × IsCadence after
      × (after.timezone ≡ account.timezone)
unfolding adapted
adapted-IsCadence changed actor account c = elim (Bool-cases (not account.adaptive || changed)) [
  | inl e ↦ rw e (
    _,
    refl,
    record {
      baseline = c.baseline;
      current = c.baseline;
      widened_only = omega arith;
      streak = omega arith;
    },
    refl,
  )
  | inr e ↦ elim (Bool-cases (str_eq actor "automatic")) [
    | inr f ↦ rw (e, f) (account, refl, c, refl)
    | inl f ↦ elim (Bool-cases (leb 3 (account.no_change_streak + 1))) [
      | inr g ↦
          rw (e, f, g)
            (
              _,
              refl,
              record {
                baseline = c.baseline;
                current = c.current;
                widened_only = c.widened_only;
                streak = ground arith;
              },
              refl,
            )
      | inl g ↦
          let (wider, found, fits, le) =
            widened_interval_lem account.current_interval_hours c.current in
          rw (e, f, g, found)
            (
              _,
              refl,
              record {
                baseline = c.baseline;
                current = fits;
                widened_only = let w = c.widened_only in omega arith;
                streak = omega arith;
              },
              refl,
            )
    ]
  ]
]
