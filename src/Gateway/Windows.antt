-- ===== src/Gateway/Windows.antt =====
-- How many operations of a target stand in the two windows of the quota.
use imtegrale.Prelude.{
  ℕ, ◌+◌, ◌≡◌, ◌≤◌, ◌<◌, ◌↔◌, ◌∙◌, Bool, true, List, [], ◌∷◌, ◌++◌, arith, All, ◌&&◌, ltb, length,
}
use imtegrale.Query.{select}
use imtegrale.Query.Rows.{All-imp, select_passes}
use imtegrale.Query.Order.{All-order_by, length-order_by, count-order_by}
use imtegrale.Query.Counts.{count-append, count-select}
use imtegrale.Models.{hours}
use imtegrale.Gateway.{Operation, GatewaySettings}
use imtegrale.Gateway.Quota.{
  quota_snapshot, recent_rows, hourly_rows, is_recent, available_after_iff,
}

-- The tests of the two windows.
abbrev pub in_hour : ℕ → ℕ → Operation → Bool
in_hour target current op =
    is_recent (hours 24) target current op && ltb current (op.started_at + hours 1)

pub count_hourly :
    (target current : ℕ) (ops : List Operation)
    → length (hourly_rows target current ops) ≡ length (select (in_hour target current) ops)
count_hourly target current ops =
    count-order_by _ _ (select (is_recent (hours 24) target current) ops)
    ∙ count-select (is_recent (hours 24) target current) _ ops

pub count_daily :
    (target current : ℕ) (ops : List Operation)
    → length (recent_rows target current ops)
      ≡ length (select (is_recent (hours 24) target current) ops)
count_daily target current ops =
    length-order_by _ (select (is_recent (hours 24) target current) ops)

hourly_recent :
    (target current : ℕ) (ops : List Operation)
    → All (λ op. ltb current (op.started_at + hours 1) ≡ true) (hourly_rows target current ops)
hourly_recent target current ops =
    select_passes (λ op. ltb current (op.started_at + hours 1)) (recent_rows target current ops)

daily_recent :
    (target current : ℕ) (ops : List Operation)
    → All (λ op. ltb current (op.started_at + hours 24) ≡ true) (recent_rows target current ops)
daily_recent target current ops =
    let window = is_recent (hours 24) target current in
    All-order_by (λ op. ltb current (op.started_at + hours 24) ≡ true) _ (select window ops)
      (All-imp (λ op. window op ≡ true) (λ op. ltb current (op.started_at + hours 24) ≡ true)
        (λ op t. ground (arith, t)) (select window ops) (select_passes window ops))

-- The caller need not wait exactly when both windows have room.
pub quota_room :
    (settings : GatewaySettings) (target current : ℕ) (ops : List Operation)
    → 0 < settings.pass_hourly_quota
    → 0 < settings.pass_daily_quota
    → ((quota_snapshot settings target current ops).retry_after_seconds ≡ 0) ↔ (
        (length (hourly_rows target current ops) < settings.pass_hourly_quota)
        × (length (recent_rows target current ops) < settings.pass_daily_quota))
unfolding quota_snapshot
quota_room settings target current ops hour day =
    let hourly = hourly_rows target current ops in
    let rows = recent_rows target current ops in
    let h =
      available_after_iff hourly settings.pass_hourly_quota (hours 1) current hour
        (hourly_recent target current ops) in
    let d =
      available_after_iff rows settings.pass_daily_quota (hours 24) current day
        (daily_recent target current ops) in
    (
      (λ e. (h.0 (omega (arith, e)), d.0 (omega (arith, e)))),
      (λ r. let x = h.1 r.0 in let y = d.1 r.1 in omega (arith, x, y)),
    )

-- An INSERT adds at most one row to a window.
pub hourly-append :
    (target current : ℕ) (ops : List Operation) (op : Operation)
    → length (hourly_rows target current (ops ++ op ∷ []))
      ≤ length (hourly_rows target current ops) + 1
hourly-append target current ops op =
    rw (count_hourly, count_hourly target current ops, count-append) (ground arith)

pub daily-append :
    (target current : ℕ) (ops : List Operation) (op : Operation)
    → length (recent_rows target current (ops ++ op ∷ []))
      ≤ length (recent_rows target current ops) + 1
daily-append target current ops op =
    rw (count_daily, count_daily target current ops, count-append) (ground arith)
