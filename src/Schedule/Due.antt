-- ===== src/Schedule/Due.antt =====
-- When an account is due for an automatic run: `auto_sync_is_due` of sync_schedule.py with the
-- functions that set the next run.
use mathlib.Core.Bool.{false≢true}
use imtegrale.Prelude.{
  ℕ, ◌+◌, ◌≤◌, ◌≡◌, refl, ap, ◌∙◌, inl, inr, Bool, true, false, ◌&&◌, Option, none, some, leb,
  leb→le, le→leb, arith, Bool-cases,
}
use imtegrale.Models.{Account, hours, minutes}
use imtegrale.Schedule.{
  Zone, Zones, or_zone, is_by, of_time, account_zone, in_business_window, next_business_time,
  effective_auto_sync_interval, is_scheduled, candidate_of, next_auto_sync_at, auto_sync_is_due,
  returned,
}
use imtegrale.Schedule.Opening.{IsZone, IsNextOpening, next_business_time-IsNextOpening}
use imtegrale.Schedule.Cadence.{
  update_adaptive_cadence, rescheduled, at_time, retry_candidate, adapted-IsCadence,
  defer_automatic_sync, IsCadence,
}
use imtegrale.Availability.{Settings}
use Prim.Native.String.{String}
use imtegrale.Schedule.Terms.{Asks, retry_candidate-Asks, MayRun, scheduled-MayRun}

both_true : (a b : Bool) → (a && b) ≡ true → (a ≡ true) × (b ≡ true)
both_true true b h = (refl, h)
both_true false b h = cc

module _ (zones : Zones) (account : Account) (laws : IsZone (account_zone zones account)) where
  abbrev zone : Zone
  zone = account_zone zones account

  -- The next run is set inside the business hours, from `least` on.
  pub record HasNext (least : ℕ) (after : Account) : Type 0 where
    pub next : ℕ
    pub set : after.auto_sync.next_at ≡ some next
    pub inside : in_business_window zone next ≡ true
    pub spaced : least ≤ next
    pub same_zone : account_zone zones after ≡ zone

  -- After a run, the cadence never raises; the interval of the account is one of those allowed and
  -- not below the chosen one; the next run lies in the business hours, at least that interval after
  -- this run.
  pub update_adaptive_cadence-HasNext :
      (changed : Bool) (actor : String) (now : ℕ)
      → IsCadence account.auto_sync
      → (after : Account) × (update_adaptive_cadence zones changed actor now account
          ≡ returned after)
        × IsCadence after.auto_sync
        × HasNext (now + hours (effective_auto_sync_interval after.auto_sync)) after
  unfolding update_adaptive_cadence
  update_adaptive_cadence-HasNext changed actor now c =
      let (auto, done, kept, same) = adapted-IsCadence changed actor account.auto_sync c in
      let (next, found, fits) =
        next_business_time-IsNextOpening zone laws
          (now + hours (effective_auto_sync_interval auto)) in
      (
        record account { auto_sync = record auto { next_at = some next } },
        ap (rescheduled zones account now) done ∙ ap (at_time account auto) found,
        record {
          baseline = kept.baseline;
          current = kept.current;
          widened_only = kept.widened_only;
          streak = kept.streak;
        },
        record {
          next = next;
          set = refl;
          inside = fits.inside;
          spaced = fits.not_before;
          same_zone = ap (λ name. or_zone (zones.named name) zones.paris) same;
        },
      )

  set_to :
      (next least : ℕ)
      → in_business_window zone next ≡ true
      → least ≤ next
      → HasNext least
          (record account { auto_sync = record account.auto_sync { next_at = some next } })
  set_to next least h k = record {
    next = next;
    set = refl;
    inside = h;
    spaced = k;
    same_zone = refl;
  }

  -- A deferred run never raises. It asks for an instant that `Asks` bounds, at least a minute
  -- ahead, and is set at the first opening of the business hours from then on. Without an instant
  -- from the caller the bounds are fifteen minutes and two hours from now, and in between a quarter
  -- of an hour for each hour of the interval; with one, the run asks for the first instant that is
  -- neither before it nor less than a minute ahead.
  pub defer_automatic_sync-HasNext :
      (available_at : Option ℕ) (now : ℕ)
      → (after : Account) × (defer_automatic_sync zones available_at now account ≡ returned after)
        × HasNext (now + minutes 1) after
        × (asked : ℕ) × Asks account.auto_sync now available_at asked
        × (next : ℕ) × (after.auto_sync.next_at ≡ some next)
        × IsNextOpening zone asked next
  unfolding defer_automatic_sync
  defer_automatic_sync-HasNext available_at now =
      let asked = retry_candidate available_at now account.auto_sync in
      let (next, found, fits) = next_business_time-IsNextOpening zone laws asked in
      let later : now + minutes 1 ≤ asked = ground arith in
      (
        record account { auto_sync = record account.auto_sync { next_at = some next } },
        ap (at_time account account.auto_sync) found,
        set_to next _ fits.inside (let after = fits.not_before in omega (arith, later, after)),
        asked,
        retry_candidate-Asks account.auto_sync now available_at,
        next,
        refl,
        fits,
      )

  module _ (settings : Settings) (now : ℕ) where
    next_found :
        (next : ℕ) × (next_business_time zone (candidate_of zone account now) ≡ some next)
        × IsNextOpening zone (candidate_of zone account now) next
    next_found = next_business_time-IsNextOpening zone laws (candidate_of zone account now)

    abbrev guarded : Bool
    guarded = is_scheduled settings account && in_business_window zone now

    next_auto_sync_at-scheduled :
        is_scheduled settings account ≡ true
        → next_auto_sync_at zones settings account now ≡ returned (some next_found.0)
    unfolding next_auto_sync_at
    next_auto_sync_at-scheduled s = rw s (ap of_time next_found.1)

    due_guarded :
        is_scheduled settings account ≡ true
        → guarded ≡ true
        → auto_sync_is_due zones settings account now ≡ returned (leb next_found.0 now)
    unfolding auto_sync_is_due
    due_guarded s g = rw g (ap (is_by now) (next_auto_sync_at-scheduled s))

    due_unguarded : guarded ≡ false → auto_sync_is_due zones settings account now ≡ returned false
    unfolding auto_sync_is_due
    due_unguarded g = rw g refl

    due_only_when :
        (due : Bool) × (auto_sync_is_due zones settings account now ≡ returned due)
        × (due ≡ true
            → (is_scheduled settings account ≡ true)
              × (in_business_window zone now ≡ true)
              × (candidate_of zone account now ≤ now))
    due_only_when = elim (Bool-cases guarded) [
      | inr g ↦ (false, due_unguarded g, λ no. absurd (false≢true no))
      | inl g ↦
          let (s, w) = both_true _ _ g in
          (
            leb next_found.0 now,
            due_guarded s g,
            λ by. (
              s,
              w,
              let le = leb→le _ _ by in
                  let after = next_found.2.not_before in omega (arith, le, after),
            ),
          )
    ]

    -- `auto_sync_is_due` never raises, and says yes only of an enabled account whose schedule is on,
    -- consented to, not paused and of a supported mode, inside the business hours, and only once the
    -- run that is set, or else the interval since the last run, is past.
    pub auto_sync_is_due-IsSafe :
        (due : Bool) × (auto_sync_is_due zones settings account now ≡ returned due)
        × (due ≡ true → MayRun zone settings account now)
    auto_sync_is_due-IsSafe =
        let (due, answer, why) = due_only_when in
        (
          due,
          answer,
          λ yes. let (s, w, late) = why yes in scheduled-MayRun zone settings account now s w late,
        )

    -- A scheduled account with neither a run set nor an earlier one is due as soon as business
    -- hours are open.
    pub first_run_due :
        is_scheduled settings account ≡ true
        → in_business_window zone now ≡ true
        → account.auto_sync.next_at ≡ none
        → account.last_sync_at ≡ none
        → auto_sync_is_due zones settings account now ≡ returned true
    first_run_due s w n l =
        let here : candidate_of zone account now ≡ now = rw (n, l) refl in
        let at_once = next_found.2.kept (rw here w) ∙ here in
        due_guarded s (ap (λ b. b && in_business_window zone now) s ∙ w)
        ∙ ap returned (rw at_once (le→leb now now (omega arith)))
