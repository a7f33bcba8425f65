-- ===== src/Schedule/Calendar.antt =====
-- The arithmetic of days and opening hours behind `next_business_time`.
use imtegrale.Prelude.{ℕ, ◌+◌, ◌-◌, ◌≤◌, ◌<◌, ◌≡◌, true, false, arith, if◌then◌else◌}
use imtegrale.Schedule.{date, weekday, time, opening, is_business_day, in_hours}

-- How many days a given day is away from the next business day.
abbrev pub wait : ℕ → ℕ
wait day = if is_business_day day then 0 else 7 - weekday day

pub date-opening : (day : ℕ) → date (opening day) ≡ day
date-opening day = omega arith

pub time-opening : (day : ℕ) → time (opening day) ≡ 28_800_000_000
time-opening day = omega arith

pub wait_most : (day : ℕ) → wait day ≤ 2
wait_most day = ground arith

pub is_business_day-wait : (day : ℕ) → is_business_day (day + wait day) ≡ true
is_business_day-wait day = ground arith

pub wait_next : (day : ℕ) → is_business_day day ≡ false → wait day ≡ wait (day + 1) + 1
wait_next day h = ground arith

-- No business day lies between a day and the next business day.
pub closed_before :
    (day other : ℕ) → day ≤ other → other < day + wait day → is_business_day other ≡ false
closed_before day other h k = ground arith

-- Nothing is open from the end of one day until the next opening.
pub closed_until : (u day : ℕ) → day ≤ date u → u < opening (day + wait day) → in_hours u ≡ false
closed_until u day h k = ground (arith, closed_before day (date u))
