-- ===== src/Gateway/Exact.antt =====
-- The instant that quota_snapshot announces is the first at which both windows have room.
use imtegrale.Prelude.{
  ℕ, suc, ◌+◌, ◌-◌, ◌≡◌, ◌≤◌, ◌<◌, ◌↔◌, refl, sym, ◌∙◌, inl, inr, Bool, true, ◌&&◌, List, [], ◌∷◌,
  length, drop, All, arith, ltb, leb, Bool-cases,
}
use imtegrale.Query.{select}
use imtegrale.Query.Rows.{All-select}
use imtegrale.Query.Order.{IsTotalPreorder, IsSorted, order_by-IsSorted, count-order_by}
use imtegrale.Models.{hours}
use imtegrale.Gateway.{Operation, GatewaySettings}
use imtegrale.Gateway.Quota.{
  quota_snapshot, recent_rows, hourly_rows, is_recent, available_after, first_start, started_before,
}

started_before-IsTotalPreorder : IsTotalPreorder started_before
started_before-IsTotalPreorder = record {
  total = λ x y h. ground arith;
  trans = λ x y z h k. ground arith;
}

abbrev Ascending : List Operation → Type 0
Ascending = IsSorted started_before started_before-IsTotalPreorder

select-Ascending :
    (p : Operation → Bool) (xs : List Operation) → Ascending xs → Ascending (select p xs)
select-Ascending p [] h = tt
select-Ascending p (x ∷ xs) h = elim (Bool-cases (p x)) [
  | inl e ↦ rw e (All-select (λ z. started_before x z ≡ true) p xs h.0, select-Ascending p xs h.1)
  | inr e ↦ rw e (select-Ascending p xs h.1)
]

module _ (period moment : ℕ) where
  abbrev later : Operation → Bool
  later op = ltb moment (op.started_at + period)

  count_all :
      (x : Operation) (xs : List Operation)
      → later x ≡ true
      → All (λ z. started_before x z ≡ true) xs
      → length (select later xs) ≡ length xs
  count_all x [] h s = refl
  count_all x (y ∷ ys) h s =
      let e : later y ≡ true = ground (arith, h, s.0) in rw e (ground (arith, count_all x ys h s.1))

  count_most : (xs : List Operation) → length (select later xs) ≤ length xs
  count_most [] = omega arith
  count_most (x ∷ xs) = ground (arith, count_most xs)

  -- Of rows in order, the last of the first full window leaves it when fewer than the quota stay.
  full_window :
      (quota current : ℕ) (xs : List Operation)
      → 0 < quota
      → quota ≤ length xs
      → Ascending xs
      → (first_start (drop (length xs - quota) xs) period current ≤ moment)
        ↔ (length (select later xs) < quota)
  full_window quota current [] some_quota full sorted = absurd (omega (arith, some_quota, full))
  full_window quota current (x ∷ xs) some_quota full sorted =
      let most = count_most xs in
      elim (Bool-cases (leb quota (length xs))) [
        | inl e ↦
            let within : quota ≤ length xs = ground (arith, e) in
            let (to, from) = full_window quota current xs some_quota within sorted.1 in
            let shorter : suc (length xs) - quota ≡ suc (length xs - quota) =
              omega (arith, within) in
            rw shorter (elim (Bool-cases (later x)) [
              | inl t ↦
                  let all = count_all x xs t sorted.0 in
                  rw t (
                    (λ h. absurd (let k = to h in omega (arith, k, all, within))),
                    (λ h. absurd (omega (arith, h, all, within))),
                  )
              | inr t ↦ rw t (to, from)
            ])
        | inr e ↦
            let whole : suc (length xs) - quota ≡ 0 = ground (arith, e) in
            let above : length xs < quota = ground (arith, e) in
            rw whole (elim (Bool-cases (later x)) [
              | inl t ↦
                  let all = count_all x xs t sorted.0 in
                  rw t (
                    (λ h. absurd (ground (arith, t, h))),
                    (λ h. absurd (omega (arith, h, all, full))),
                  )
              | inr t ↦ rw t ((λ h. omega (arith, most, above)), (λ h. ground (arith, t)))
            ])
      ]

  -- A window has room at a later instant exactly when it is available by then.
  window_exact :
      (quota current : ℕ) (xs : List Operation)
      → 0 < quota
      → current ≤ moment
      → Ascending xs
      → (available_after xs quota period current ≤ moment) ↔ (length (select later xs) < quota)
  window_exact quota current xs some_quota after sorted =
      let most = count_most xs in
      elim (Bool-cases (leb quota (length xs))) [
        | inl e ↦ rw e (full_window quota current xs some_quota (ground (arith, e)) sorted)
        | inr e ↦ rw e ((λ h. ground (arith, e, most)), (λ h. after))
      ]

-- The operations of a target in a window at an instant.
abbrev pub in_window : ℕ → ℕ → ℕ → List Operation → ℕ
in_window period target moment operations =
    length (select (is_recent period target moment) operations)

select-and :
    (p q r : Operation → Bool)
    → ((op : Operation) → (p op && q op) ≡ r op)
    → (xs : List Operation) → length (select q (select p xs)) ≡ length (select r xs)
select-and p q r same [] = refl
select-and p q r same (x ∷ xs) =
    let e = same x in
    elim (Bool-cases (p x)) [
      | inl t ↦ let rest = select-and p q r same xs in ground (arith, t, e, rest)
      | inr t ↦ let rest = select-and p q r same xs in ground (arith, t, e, rest)
    ]

module _ (target current moment : ℕ) (ops : List Operation) (after : current ≤ moment) where
  daily_count :
      length (select (later (hours 24) moment) (recent_rows target current ops))
      ≡ in_window (hours 24) target moment ops
  daily_count =
      count-order_by (later (hours 24) moment) started_before
        (select (is_recent (hours 24) target current) ops)
      ∙ select-and (is_recent (hours 24) target current) (later (hours 24) moment)
          (is_recent (hours 24) target moment) (λ op. ground (arith, after)) ops

  hourly_count :
      length (select (later (hours 1) moment) (hourly_rows target current ops))
      ≡ in_window (hours 1) target moment ops
  hourly_count =
      select-and (λ op. ltb current (op.started_at + hours 1)) (later (hours 1) moment)
        (later (hours 1) moment) (λ op. ground (arith, after)) (recent_rows target current ops)
      ∙ count-order_by (later (hours 1) moment) started_before
          (select (is_recent (hours 24) target current) ops)
      ∙ select-and (is_recent (hours 24) target current) (later (hours 1) moment)
          (is_recent (hours 1) target moment) (λ op. ground (arith, after)) ops

recent-Ascending :
    (target current : ℕ) (ops : List Operation) → Ascending (recent_rows target current ops)
recent-Ascending target current ops =
    order_by-IsSorted started_before started_before-IsTotalPreorder
      (select (is_recent (hours 24) target current) ops)

-- With positive quotas, an instant from now on is at or after the one that quota_snapshot announces
-- exactly when fewer operations of the target than the quotas started within the hour and the day
-- before that instant, counted over the whole table.
pub quota_snapshot_exact :
    (settings : GatewaySettings) (target current moment : ℕ) (ops : List Operation)
    → 0 < settings.pass_hourly_quota
    → 0 < settings.pass_daily_quota
    → current ≤ moment
    → ((quota_snapshot settings target current ops).available_at ≤ moment) ↔ (
        (in_window (hours 1) target moment ops < settings.pass_hourly_quota)
        × (in_window (hours 24) target moment ops < settings.pass_daily_quota))
unfolding quota_snapshot
quota_snapshot_exact settings target current moment ops hour day after =
    let rows = recent_rows target current ops in
    let ordered = recent-Ascending target current ops in
    let (hour_to, hour_from) =
      window_exact (hours 1) moment settings.pass_hourly_quota current
        (hourly_rows target current ops) hour after (select-Ascending _ rows ordered) in
    let (day_to, day_from) =
      window_exact (hours 24) moment settings.pass_daily_quota current rows day after ordered in
    let h = hourly_count target current moment ops after in
    let d = daily_count target current moment ops after in
    (
      (λ le. (rw h at hour_to (omega (arith, le)), rw d at day_to (omega (arith, le)))),
      (λ room.
          let x = hour_from (rw (sym h) at room.0) in
          let y = day_from (rw (sym d) at room.1) in omega (arith, x, y)),
    )
