-- ===== src/Jobs/Calendar.antt =====
-- `enqueue_due_calendar_jobs` of jobs.py: one job for each calendar subscription that is due.
use imtegrale.Prelude.{
  ℕ, ◌+◌, Bool, false, not, ◌&&◌, ◌||◌, Option, none, some, List, [], ◌∷◌, ltb, leb, ◌==◌, is_none,
  if◌then◌else◌, take,
}
use imtegrale.Query.{select, find, order_by}
use imtegrale.Models.{Db, calendar, digest_key}
use imtegrale.Store.{Context, get_account}
use imtegrale.Jobs.{same_key, enqueue_job, no_payload}

-- The columns of `CalendarSubscription` that the queue reads.
pub record Subscription : Type 0 where
  pub account_id : ℕ
  pub next_refresh_at : ℕ

-- The join with `Account.is_disabled.is_(False)`.
abbrev pub has_enabled_account : Db → Subscription → Bool
has_enabled_account db s = elim (get_account s.account_id db) [
  | none ↦ false
  | some account ↦ not account.is_disabled
]

-- `.order_by(next_refresh_at, account_id)`.
abbrev pub refreshes_before : Subscription → Subscription → Bool
refreshes_before a b =
    ltb a.next_refresh_at b.next_refresh_at
    || (a.next_refresh_at == b.next_refresh_at && leb a.account_id b.account_id)

abbrev pub due_subscriptions : ℕ → ℕ → List Subscription → Db → List Subscription
due_subscriptions now limit subscriptions db = take limit (
    order_by refreshes_before
      (select (λ s. leb s.next_refresh_at now && has_enabled_account db s) subscriptions))

-- The loop; `digest` is SHA-256 of the account and the instant, and the n-th new row takes the
-- identifier `fresh n`.
unfoldable pub enqueue_each :
    (ℕ → ℕ → ℕ) → ℕ → Option ℕ → (ℕ → ℕ) → ℕ → List Subscription → Db → ℕ × Db
enqueue_each digest now correlation fresh created [] db = (created, db)
enqueue_each digest now correlation fresh created (s ∷ rest) db =
    let key = digest_key (digest s.account_id s.next_refresh_at) in
    let absent = is_none (find (same_key calendar key) db.jobs) in
    let ctx : Context = record {
      now = now;
      new_id = fresh created;
      correlation_id = correlation;
    } in
    let payload = record no_payload { due_at = some s.next_refresh_at } in
    let next = (enqueue_job ctx calendar key (some s.account_id) payload 100 none 3 none db).1 in
    enqueue_each digest now correlation fresh (if absent then created + 1 else created) rest next

-- `enqueue_due_calendar_jobs`, with the table of subscriptions.
unfoldable pub enqueue_due_calendar_jobs :
    (ℕ → ℕ → ℕ) → ℕ → Option ℕ → (ℕ → ℕ) → ℕ → List Subscription → Db → ℕ × Db
unfolding enqueue_each
enqueue_due_calendar_jobs digest now correlation fresh limit subscriptions db =
    enqueue_each digest now correlation fresh 0 (due_subscriptions now limit subscriptions db) db
