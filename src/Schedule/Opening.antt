-- ===== src/Schedule/Opening.antt =====
-- `next_business_time` of sync_schedule.py against what it promises.
use mathlib.Core.Bool.{false≢true}
use imtegrale.Prelude.{
  leb→le, ltb→lt, ℕ, zero, suc, ◌+◌, ◌≤◌, ◌<◌, ◌≡◌, refl, sym, ap, ◌∙◌, inl, inr, true, false, some,
  arith, ltb, leb, Bool-cases,
}
use imtegrale.Schedule.{
  Zone, date, time, opening, is_business_day, in_hours, in_business_window, next_round,
  next_business_time, business_start, business_end,
}
use imtegrale.Schedule.Calendar.{
  wait, date-opening, time-opening, wait_most, is_business_day-wait, wait_next, closed_until,
}

-- What the schedule relies on in a time zone: 08:00 exists on every day, and an instant whose
-- local clock shows at most 08:00 of a day is not after that opening.
pub record IsZone (zone : Zone) : Type 0 where
  pub opens : (day : ℕ) → zone.wall (zone.unwall (opening day)) ≡ opening day
  pub forward : (t day : ℕ) → zone.wall t ≤ opening day → t ≤ zone.unwall (opening day)

-- `next` is the first instant from `candidate` on inside the business hours: on the local clock,
-- no opening hour lies between the two, and a candidate in opening hours is kept.
pub record IsNextOpening (zone : Zone) (candidate next : ℕ) : Type 0 where
  pub inside : in_business_window zone next ≡ true
  pub not_before : candidate ≤ next
  pub first : (u : ℕ) → zone.wall candidate ≤ u → u < zone.wall next → in_hours u ≡ false
  pub kept : in_business_window zone candidate ≡ true → next ≡ candidate

module _ (zone : Zone) where
  abbrev tomorrow : ℕ → ℕ
  tomorrow w = opening (date w + 1)

  module _ (rounds w i : ℕ) where
    closed_round :
        is_business_day (date w) ≡ false
        → next_round zone (suc rounds) w i
          ≡ next_round zone rounds (tomorrow w) (zone.unwall (tomorrow w))
    unfolding next_round
    closed_round h = rw h refl

    late_round :
        is_business_day (date w) ≡ true
        → business_end ≤ time w
        → next_round zone (suc rounds) w i
          ≡ next_round zone rounds (tomorrow w) (zone.unwall (tomorrow w))
    unfolding next_round
    late_round h k = ground arith

    early_round :
        is_business_day (date w) ≡ true
        → time w < business_start
        → next_round zone (suc rounds) w i ≡ some (zone.unwall (opening (date w)))
    unfolding next_round
    early_round h k = ground arith

    open_round : in_hours w ≡ true → next_round zone (suc rounds) w i ≡ some i
    unfolding next_round
    open_round h = ground arith

  -- From an opening on, the loop ends at the next business day, if it has rounds enough.
  next_round-opening :
      (rounds day : ℕ)
      → wait day < rounds
      → next_round zone rounds (opening day) (zone.unwall (opening day))
        ≡ some (zone.unwall (opening (day + wait day)))
  next_round-opening zero day h = elim h [ ]
  next_round-opening (suc rounds) day h = elim (Bool-cases (is_business_day day)) [
    | inl e ↦
        let here : in_hours (opening day) ≡ true =
          ground (arith, date-opening day, time-opening day) in
        let stays : day + wait day ≡ day = ground arith in
        open_round rounds (opening day) _ here
        ∙ ap (λ d. some (zone.unwall (opening d))) (sym stays)
    | inr e ↦
        let next : tomorrow (opening day) ≡ opening (day + 1) =
          ap (λ d. opening (d + 1)) (date-opening day) in
        let later : day + 1 + wait (day + 1) ≡ day + wait day = omega (arith, wait_next day e) in
        closed_round rounds (opening day) _ (ap is_business_day (date-opening day) ∙ e)
        ∙ ap (λ w. next_round zone rounds w (zone.unwall w)) next
        ∙ next_round-opening rounds (day + 1) (omega (arith, wait_next day e))
        ∙ ap (λ d. some (zone.unwall (opening d))) later
  ]

module _ (zone : Zone) (laws : IsZone zone) (candidate : ℕ) where
  opening-IsNextOpening :
      (day : ℕ)
      → is_business_day day ≡ true
      → zone.wall candidate ≤ opening day
      → ((u : ℕ) → zone.wall candidate ≤ u → u < opening day → in_hours u ≡ false)
      → in_hours (zone.wall candidate) ≡ false
      → IsNextOpening zone candidate (zone.unwall (opening day))
  opening-IsNextOpening day business before closed shut = record {
    inside = ap in_hours (laws.opens day) ∙ ground (arith, date-opening day, time-opening day);
    not_before = laws.forward candidate day before;
    first = λ u h k. closed u h (let e = laws.opens day in omega (arith, e));
    kept = λ h. absurd (false≢true (sym shut ∙ h));
  }

  -- After hours, or on a closed day, the next opening is that of the next business day.
  tomorrow-IsNextOpening :
      in_hours (zone.wall candidate) ≡ false
      → ((u : ℕ)
          → zone.wall candidate ≤ u
          → date u ≡ date (zone.wall candidate)
          → in_hours u ≡ false)
      → let day = date (zone.wall candidate) + 1 in
        IsNextOpening zone candidate (zone.unwall (opening (day + wait day)))
  tomorrow-IsNextOpening shut today =
      let day = date (zone.wall candidate) + 1 in
      opening-IsNextOpening (day + wait day) (is_business_day-wait day) (omega arith)
        (λ u h k. elim (Bool-cases (leb day (date u))) [
          | inl e ↦ closed_until u day (leb→le day (date u) e) k
          | inr e ↦ today u h (ground arith)
        ])
        shut

  -- The eight rounds are enough: `next_business_time` never raises, and it returns the first
  -- instant from the candidate on that lies in the business hours.
  pub next_business_time-IsNextOpening :
      (next : ℕ) × (next_business_time zone candidate ≡ some next)
      × IsNextOpening zone candidate next
  unfolding next_business_time
  next_business_time-IsNextOpening =
      let w = zone.wall candidate in
      let day = date w + 1 in
      elim (Bool-cases (is_business_day (date w))) [
        | inr e ↦ (
          zone.unwall (opening (day + wait day)),
          closed_round zone 7 w candidate e
              ∙ next_round-opening zone 7 day (omega (arith, wait_most day)),
          tomorrow-IsNextOpening (ground arith) (λ u h k. ground arith),
        )
        | inl e ↦ elim (Bool-cases (ltb (time w) business_start)) [
          | inl early ↦ (
            zone.unwall (opening (date w)),
            early_round zone 7 w candidate e (ltb→lt _ _ early),
            opening-IsNextOpening (date w) e (ground arith) (λ u h k. ground arith) (ground arith),
          )
          | inr on ↦ elim (Bool-cases (ltb (time w) business_end)) [
            | inl before_end ↦ (
              candidate,
              open_round zone 7 w candidate (ground arith),
              record {
                inside = ground arith;
                not_before = omega arith;
                first = λ u h k. absurd (omega arith);
                kept = λ _. refl;
              },
            )
            | inr late ↦ (
              zone.unwall (opening (day + wait day)),
              late_round zone 7 w candidate e (ground arith)
                  ∙ next_round-opening zone 7 day (omega (arith, wait_most day)),
              tomorrow-IsNextOpening (ground arith) (λ u h k. ground arith),
            )
          ]
        ]
      ]
