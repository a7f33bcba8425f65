-- ===== src/Gateway/Quota.antt =====
-- `quota_snapshot` of pass_gateway.py, and what it says of the operations in the window.
use imtegrale.Prelude.{
  ℕ, ◌+◌, ◌-◌, ◌≤◌, ◌<◌, ◌≡◌, ◌↔◌, max, inl, inr, Bool, true, ◌&&◌, List, [], ◌∷◌, length, drop,
  length-drop, All-drop, All, arith, ltb, leb, ◌==◌, if◌then◌else◌, Bool-cases, ltb→lt,
}
use imtegrale.Query.{select, order_by}
use imtegrale.Models.{hours}
use imtegrale.Gateway.{Operation, GatewaySettings, seconds_until}

-- The operations of a target that started after `current - period`.
abbrev pub is_recent : ℕ → ℕ → ℕ → Operation → Bool
is_recent period target_ref current op =
    op.target_ref == target_ref && ltb current (op.started_at + period)

abbrev pub started_before : Operation → Operation → Bool
started_before a b = leb a.started_at b.started_at

-- `rows`, oldest first.
abbrev pub recent_rows : ℕ → ℕ → List Operation → List Operation
recent_rows target_ref current operations =
    order_by started_before (select (is_recent (hours 24) target_ref current) operations)

abbrev pub hourly_rows : ℕ → ℕ → List Operation → List Operation
hourly_rows target_ref current operations =
    select (λ op. ltb current (op.started_at + hours 1)) (recent_rows target_ref current operations)

abbrev pub first_start : List Operation → ℕ → ℕ → ℕ
first_start [] period current = current
first_start (op ∷ _) period current = op.started_at + period

-- `rows[-quota] + period if len(rows) >= quota else current`; the quotas are positive.
abbrev pub available_after : List Operation → ℕ → ℕ → ℕ → ℕ
available_after rows quota period current =
    if leb quota (length rows)
    then first_start (drop (length rows - quota) rows) period current
    else current

pub record Snapshot : Type 0 where
  pub hour_used : ℕ
  pub hour_remaining : ℕ
  pub day_used : ℕ
  pub day_remaining : ℕ
  pub available_at : ℕ
  pub retry_after_seconds : ℕ

unfoldable pub quota_snapshot : GatewaySettings → ℕ → ℕ → List Operation → Snapshot
quota_snapshot settings target_ref current operations =
    let rows = recent_rows target_ref current operations in
    let hourly = hourly_rows target_ref current operations in
    let available_at =
      max (available_after hourly settings.pass_hourly_quota (hours 1) current)
        (available_after rows settings.pass_daily_quota (hours 24) current) in
    record {
      hour_used = length hourly;
      hour_remaining = settings.pass_hourly_quota - length hourly;
      day_used = length rows;
      day_remaining = settings.pass_daily_quota - length rows;
      available_at = available_at;
      retry_after_seconds = seconds_until available_at current;
    }

first_start_later :
    (rows : List Operation) (period current : ℕ)
    → 0 < length rows
    → All (λ op. ltb current (op.started_at + period) ≡ true) rows
    → current < first_start rows period current
first_start_later [] period current h k = elim h [ ]
first_start_later (op ∷ rest) period current h k = ltb→lt _ _ k.0

-- A window that is full is available only later, one that is not is available now.
pub available_after_iff :
    (rows : List Operation) (quota period current : ℕ)
    → 0 < quota
    → All (λ op. ltb current (op.started_at + period) ≡ true) rows
    → (available_after rows quota period current ≤ current) ↔ (length rows < quota)
available_after_iff rows quota period current some_quota recent =
    elim (Bool-cases (leb quota (length rows))) [
      | inl e ↦
          let full =
            first_start_later (drop (length rows - quota) rows) period current
              (let n = length-drop (length rows - quota) rows in ground arith)
              (All-drop _ (length rows - quota) rows recent) in
          rw e (λ h. absurd (omega (arith, full, h)), λ h. absurd (ground arith))
      | inr e ↦ rw e (λ h. ground arith, λ h. omega arith)
    ]
