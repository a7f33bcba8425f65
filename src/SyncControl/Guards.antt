-- ===== src/SyncControl/Guards.antt =====
-- When a reservation is granted, and what a refused caller is told.
use imtegrale.Prelude.{
  ℕ, ◌+◌, ◌*◌, ◌≤◌, ◌<◌, ◌≡◌, sym, ◌∙◌, inl, inr, Bool, true, false, Option, none, some, refl, not,
  ◌&&◌, arith, Bool-cases, Option-cases, if-cases,
}
use imtegrale.Models.{Db, Account, seconds}
use imtegrale.Store.{Context, get_account}
use imtegrale.SyncControl.{
  existing_reservation, seconds_until, SyncReservation, format_retry_after, RetryText,
  minutes_and_seconds, only_minutes, only_seconds,
}
use imtegrale.SyncControl.Reserve.{
  ReserveArgs, is_admitted, slot_taken, cooling_down, refused, reserve_lost, reserve_won, take_slot,
  reserve_update, available_or_now, disabled, not_found, integrity_error, Outcome, reserved,
  reservation_failed, in_progress, cooldown_active,
}

-- The seconds announced are the least whole number that covers the wait.
pub seconds_until_least :
    (target current : ℕ)
    → (target ≤ current + seconds (seconds_until target current))
      × ((n : ℕ) → target ≤ current + seconds n → seconds_until target current ≤ n)
unfolding seconds_until
seconds_until_least target current = (omega arith, λ n h. omega arith)

-- The whole duration that a text shows.
abbrev pub shown_seconds : RetryText → ℕ
shown_seconds (minutes_and_seconds m s) = 60 * m + s
shown_seconds (only_minutes m) = 60 * m
shown_seconds (only_seconds s) = s

-- `format_retry_after` shows the exact duration, with fewer than 60 loose seconds.
pub format_retry_after_exact : (n : ℕ) → shown_seconds (format_retry_after n) ≡ n
unfolding format_retry_after
format_retry_after_exact n = ground arith

-- The reservation of an outcome, if it granted a new request.
abbrev pub granted : Outcome → Bool
granted (reserved r) = not r.idempotent_replay
granted _ = false

existing_is_replay :
    (a : Account) (digest now : ℕ) (db : Db) {r : SyncReservation}
    → (existing_reservation a digest now db).0 ≡ some r
    → r.idempotent_replay ≡ true
unfolding existing_reservation
existing_is_replay a digest now db e = ground arith

refused_grants_nothing :
    (ctx : Context) (args : ReserveArgs) (a : Account) (db : Db)
    → granted (refused ctx args a db).0 ≡ false
unfolding refused
refused_grants_nothing ctx args a db = ground arith

reserve_lost_grants_nothing :
    (ctx : Context) (args : ReserveArgs) (db : Db) → granted (reserve_lost ctx args db).0 ≡ false
unfolding reserve_lost
reserve_lost_grants_nothing ctx args db = elim (Option-cases (get_account args.account_id db)) [
  | inl e ↦ rw (e, reserve_lost) refl
  | inr (a, e) ↦ elim (Option-cases (existing_reservation a args.digest ctx.now db).0) [
    | inl absent ↦
        rw (e, reserve_lost)
          (rw absent
            (refused_grants_nothing ctx args a (existing_reservation a args.digest ctx.now db).1))
    | inr (r, x) ↦
        rw (e, reserve_lost) (rw x (ground (arith, existing_is_replay a args.digest ctx.now db x)))
  ]
]

-- The UPDATE admits exactly the accounts that are enabled, whose slot is free, and which, when the
-- cooldown is enforced, are not cooling down.
pub is_admitted_iff :
    (args : ReserveArgs) (now : ℕ) (a : Account)
    → is_admitted args now a ≡ (
        not a.is_disabled
        && not (slot_taken now a)
        && not (args.enforce_cooldown && cooling_down now a))
unfolding is_admitted
is_admitted_iff args now a = ground arith

-- A new request is granted only to an account that is enabled, whose slot holds no unexpired
-- lease, and which is not cooling down if the cooldown is enforced.
pub granted_only_if_free :
    (later : Db → Db) (ctx : Context) (job_id : ℕ) (args : ReserveArgs) (db : Db)
    → granted (reserve_update later ctx job_id args db).0 ≡ true
    → (a : Account) × (get_account args.account_id db ≡ some a)
      × (a.is_disabled ≡ false)
      × (slot_taken ctx.now a ≡ false)
      × ((args.enforce_cooldown && cooling_down ctx.now a) ≡ false)
unfolding reserve_update take_slot
granted_only_if_free later ctx job_id args db g =
    elim (Option-cases (get_account args.account_id db)) [
      | inl e ↦ absurd (ground (arith, e, reserve_lost_grants_nothing ctx args (later db)))
      | inr (a, e) ↦ elim (Bool-cases (is_admitted args ctx.now a)) [
        | inl ok ↦
            let all = sym (is_admitted_iff args ctx.now a) ∙ ok in
            (a, e, ground arith, ground arith, ground arith)
        | inr idle ↦
            absurd (ground (arith, e, idle, reserve_lost_grants_nothing ctx args (later db)))
      ]
    ]

-- A wait until an instant in the future, of the least whole number of seconds that covers it.
abbrev pub IsWait : ℕ → ℕ → ℕ → Type 0
IsWait now n until =
    (now < until) × (until ≤ now + seconds n) × ((m : ℕ) → until ≤ now + seconds m → n ≤ m)

-- What holds of the account that a refusal is about.
abbrev pub IsReason : ReserveArgs → ℕ → Outcome → Account → Type 0
IsReason args now disabled a = a.is_disabled ≡ true
IsReason args now (in_progress n until) a = (a.sync_active_until ≡ some until) × IsWait now n until
IsReason args now (cooldown_active n until) a =
    (args.enforce_cooldown ≡ true) × (a.sync_cooldown_until ≡ some until) × IsWait now n until
IsReason args now reservation_failed a =
    (a.is_disabled ≡ false)
    × (slot_taken now a ≡ false)
    × ((args.enforce_cooldown && cooling_down now a) ≡ false)
IsReason args now _ a = Unit

-- What a caller who is refused is told is true of the account at the second read.
abbrev pub IsHonest : ReserveArgs → ℕ → Option Account → Outcome → Type 0
IsHonest args now account not_found = account ≡ none
IsHonest args now account (reserved r) = Unit
IsHonest args now account integrity_error = Unit
IsHonest args now account outcome = (a : Account) × (account ≡ some a) × IsReason args now outcome a

IsWait-until : (now until : ℕ) → now < until → IsWait now (seconds_until until now) until
IsWait-until now until h = let (covers, least) = seconds_until_least until now in (h, covers, least)

in_progress-IsHonest :
    (ctx : Context) (args : ReserveArgs) (a : Account)
    → slot_taken ctx.now a ≡ true
    → let until = available_or_now a.sync_active_until ctx.now in
      (a.sync_active_until ≡ some until) × IsWait ctx.now (seconds_until until ctx.now) until
in_progress-IsHonest ctx args a taken = elim (Option-cases a.sync_active_until) [
  | inl e ↦ absurd (ground arith)
  | inr (t, e) ↦ let ahead : ctx.now < t = ground arith in rw e (refl, IsWait-until ctx.now t ahead)
]

cooldown-IsHonest :
    (ctx : Context) (args : ReserveArgs) (a : Account)
    → (args.enforce_cooldown && cooling_down ctx.now a) ≡ true
    → let until = available_or_now a.sync_cooldown_until ctx.now in
      (args.enforce_cooldown ≡ true)
      × (a.sync_cooldown_until ≡ some until)
      × IsWait ctx.now (seconds_until until ctx.now) until
cooldown-IsHonest ctx args a cooling = elim (Option-cases a.sync_cooldown_until) [
  | inl e ↦ absurd (ground arith)
  | inr (t, e) ↦
      let ahead : ctx.now < t = ground arith in
      let on : args.enforce_cooldown ≡ true = ground arith in
      rw e (on, refl, IsWait-until ctx.now t ahead)
]

refused-IsHonest :
    (ctx : Context) (args : ReserveArgs) (a : Account) (db : Db)
    → IsHonest args ctx.now (some a) (refused ctx args a db).0
unfolding refused
refused-IsHonest ctx args a db =
    let P : Outcome × Db → Type 0 = λ r. IsHonest args ctx.now (some a) r.0 in
    if-cases P a.is_disabled (λ off. (a, refl, off))
      (λ on.
        if-cases P (slot_taken ctx.now a)
          (λ taken. (a, refl, in_progress-IsHonest ctx args a taken))
          (λ vacant.
            if-cases P (args.enforce_cooldown && cooling_down ctx.now a)
              (λ cooling. (a, refl, cooldown-IsHonest ctx args a cooling))
              (λ rested. (a, refl, (on, vacant, rested)))))

reserve_lost-IsHonest :
    (ctx : Context) (args : ReserveArgs) (db : Db)
    → IsHonest args ctx.now (get_account args.account_id db) (reserve_lost ctx args db).0
unfolding reserve_lost
reserve_lost-IsHonest ctx args db = elim (Option-cases (get_account args.account_id db)) [
  | inl e ↦ rw (e, reserve_lost) refl
  | inr (a, e) ↦ elim (Option-cases (existing_reservation a args.digest ctx.now db).0) [
    | inl absent ↦
        rw (e, reserve_lost)
          (rw absent
            (refused-IsHonest ctx args a (existing_reservation a args.digest ctx.now db).1))
    | inr (r, x) ↦ rw (e, reserve_lost) (rw x tt)
  ]
]

reserve_won-IsHonest :
    (ctx : Context) (job_id : ℕ) (args : ReserveArgs) (a : Account) (db : Db) (o : Option Account)
    → IsHonest args ctx.now o (reserve_won ctx job_id args a db).0
unfolding reserve_won
reserve_won-IsHonest ctx job_id args a db o = ground arith

-- Every refusal is honest, whatever else commits before the second read: the account is then
-- absent, or disabled, or its slot or its cooldown ends at the instant named, which is in the
-- future and covered by the number of seconds named and by no smaller one. The final RuntimeError
-- is raised only if at the second read the account is enabled, its slot is free and no enforced
-- cooldown runs.
pub reserve_update-IsHonest :
    (later : Db → Db) (ctx : Context) (job_id : ℕ) (args : ReserveArgs) (db : Db)
    → IsHonest args ctx.now
        (get_account args.account_id (later db))
        (reserve_update later ctx job_id args db).0
unfolding reserve_update take_slot
reserve_update-IsHonest later ctx job_id args db =
    elim (Option-cases (get_account args.account_id db)) [
      | inl e ↦ rw (e, reserve_update) (reserve_lost-IsHonest ctx args (later db))
      | inr (a, e) ↦ elim (Bool-cases (is_admitted args ctx.now a)) [
        | inl ok ↦
            rw (e, reserve_update)
              (rw ok (
                reserve_won-IsHonest ctx job_id args a db (get_account args.account_id (later db))))
        | inr busy ↦ rw (e, reserve_update) (rw busy (reserve_lost-IsHonest ctx args (later db)))
      ]
    ]
