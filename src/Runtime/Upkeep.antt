-- ===== src/Runtime/Upkeep.antt =====
-- The loops that enqueue jobs, the clean-up, the messages and all other code keep the queue and the
-- slots.
use imtegrale.Prelude.{
  ℕ, ◌+◌, ◌≤◌, ◌≡◌, ◌≢◌, refl, sym, ◌∙◌, inl, inr, Bool, Option, none, some, List, [], ◌∷◌, arith,
  All, All-append, is_none, take, leb, Bool-cases, Option-cases, if◌then◌else◌,
}
use imtegrale.Query.{find, any, delete, select, order_by}
use imtegrale.Query.Rows.{All-delete}
use imtegrale.Query.Keys.{delete-IsUnique}
use imtegrale.Models.{
  Db, SyncRequest, is_active, DurableJob, JobKind, Key, Payload, sync, sync_key, calendar,
  digest_key,
}
use imtegrale.Store.{Context}
use imtegrale.Jobs.{
  same_key, insert_job, new_job, enqueue_job, enqueue_sync_job, ensure_each,
  ensure_queued_sync_jobs, no_payload, sync_priority,
}
use imtegrale.Jobs.Calendar.{
  Subscription, enqueue_each, enqueue_due_calendar_jobs, due_subscriptions,
}
use imtegrale.Jobs.Cleanup.{cleanup_durable_state, is_old_success, is_old_death}
use imtegrale.Jobs.Validity.{IsValidJob}
use imtegrale.Runtime.{IsFresh}
use imtegrale.Runtime.Queue.{IsSoundQueue, enqueue-IsSoundQueue, enqueue_sync-IsSoundQueue}

pub delete-IsSoundQueue :
    (p : DurableJob → Bool) (jobs : List DurableJob)
    → IsSoundQueue jobs
    → IsSoundQueue (delete p jobs)
delete-IsSoundQueue p jobs s = record {
  valid = All-delete IsValidJob p jobs s.valid;
  unique = delete-IsUnique (λ j. j.id) p jobs s.unique;
}

pub cleanup-IsSoundQueue :
    (now : ℕ) (db : Db) → IsSoundQueue db.jobs → IsSoundQueue (cleanup_durable_state now db).1.jobs
unfolding cleanup_durable_state
cleanup-IsSoundQueue now db s =
    delete-IsSoundQueue (is_old_death now) _ (delete-IsSoundQueue (is_old_success now) db.jobs s)

pub cleanup-tables :
    (now : ℕ) (db : Db)
    → ((cleanup_durable_state now db).1.accounts ≡ db.accounts)
      × ((cleanup_durable_state now db).1.requests ≡ db.requests)
unfolding cleanup_durable_state
cleanup-tables now db = (refl, refl)

-- The identifiers from the n-th on are not in the table.
abbrev AreUnused : (ℕ → ℕ) → ℕ → List DurableJob → Type 0
AreUnused fresh n jobs = (m : ℕ) → n ≤ m → All (λ j. j.id ≢ fresh m) jobs

module _ (fresh : ℕ → ℕ) (distinct : (m n : ℕ) → fresh m ≡ fresh n → m ≡ n) (n : ℕ) (ctx : Context)
    (takes : ctx.new_id ≡ fresh n) (kind : JobKind) (key : Key) (account : Option ℕ) (p : Payload)
    (priority : ℕ) (available : Option ℕ) (max_attempts : ℕ) (correlation : Option ℕ) where
  abbrev created_row : DurableJob
  created_row = new_job ctx kind key account p priority available max_attempts correlation

  insert-AreUnused :
      (jobs : List DurableJob)
      → AreUnused fresh n jobs
      → AreUnused fresh (n + 1) (insert_job created_row jobs)
  insert-AreUnused jobs u m later =
      let old = u m (omega (arith, later)) in
      elim (Bool-cases (any (same_key kind key) jobs)) [
        | inl dup ↦ rw dup old
        | inr new ↦ rw new (
            All-append (λ j. j.id ≢ fresh m) jobs (created_row ∷ []) old
              (
                (λ e.
                    absurd (let same = distinct n m (sym takes ∙ e) in omega (arith, same, later))),
                tt,
              ))
      ]

  -- The round of a loop uses the n-th identifier only if the job was absent.
  enqueue-AreUnused :
      (db : Db)
      → AreUnused fresh n db.jobs
      → AreUnused fresh
          (if is_none (find (same_key kind key) db.jobs) then n + 1 else n)
          (enqueue_job ctx kind key account p priority available max_attempts correlation db).1.jobs
  unfolding enqueue_job
  enqueue-AreUnused db u = elim (Option-cases (find (same_key kind key) db.jobs)) [
    | inr (j, e) ↦ rw (e, enqueue_job) u
    | inl e ↦ rw (e, enqueue_job) (insert-AreUnused db.jobs u)
  ]

-- Both loops keep the queue sound and the other tables as they are.
abbrev pub IsKept : Db → Db → Type 0
IsKept db e = IsSoundQueue e.jobs × (e.accounts ≡ db.accounts) × (e.requests ≡ db.requests)

enqueue_job-tables :
    (ctx : Context) (kind : JobKind) (key : Key) (account : Option ℕ) (p : Payload) (priority : ℕ)
    (available : Option ℕ) (max_attempts : ℕ) (correlation : Option ℕ) (db : Db)
    → let e =
        (enqueue_job ctx kind key account p priority available max_attempts correlation db).1 in
      (e.accounts ≡ db.accounts) × (e.requests ≡ db.requests)
unfolding enqueue_job
enqueue_job-tables ctx kind key account p priority available max_attempts correlation db =
    elim (Option-cases (find (same_key kind key) db.jobs)) [
      | inl e ↦ rw (e, enqueue_job) (refl, refl)
      | inr (j, e) ↦ rw (e, enqueue_job) (refl, refl)
    ]

IsKept-through :
    (db between e : Db)
    → (between.accounts ≡ db.accounts) × (between.requests ≡ db.requests)
    → IsKept between e
    → IsKept db e
IsKept-through db between e (a, r) (s, b, q) = (s, b ∙ a, q ∙ r)

module _ (now : ℕ) (correlation : Option ℕ) (fresh : ℕ → ℕ)
    (distinct : (m n : ℕ) → fresh m ≡ fresh n → m ≡ n) where
  abbrev context : ℕ → Context
  context n = record { now = now; new_id = fresh n; correlation_id = correlation }

  ensure_each-IsKept :
      (n : ℕ) (requests : List SyncRequest) (db : Db)
      → AreUnused fresh n db.jobs
      → IsSoundQueue db.jobs
      → IsKept db (ensure_each now correlation fresh n requests db).1
  unfolding ensure_each enqueue_sync_job
  ensure_each-IsKept n [] db u s = (s, refl, refl)
  ensure_each-IsKept n (r ∷ rest) db u s =
      let payload = record no_payload { request_id = some r.id } in
      let next = (enqueue_sync_job (context n) r db).1 in
      let used = if is_none (find (same_key sync (sync_key r.id)) db.jobs) then n + 1 else n in
      IsKept-through db next (ensure_each now correlation fresh used rest next).1
        (enqueue_job-tables (context n) sync (sync_key r.id) (some r.account_id) payload
          (sync_priority r.actor) none 3 r.correlation_id db)
        (ensure_each-IsKept used rest next
          (enqueue-AreUnused fresh distinct n (context n) refl sync (sync_key r.id)
            (some r.account_id) payload (sync_priority r.actor) none 3 r.correlation_id db u)
          (enqueue_sync-IsSoundQueue (context n) r db (u n (omega arith)) s))

  enqueue_each-IsKept :
      (digest : ℕ → ℕ → ℕ) (n : ℕ) (subscriptions : List Subscription) (db : Db)
      → AreUnused fresh n db.jobs
      → IsSoundQueue db.jobs
      → IsKept db (enqueue_each digest now correlation fresh n subscriptions db).1
  unfolding enqueue_each
  enqueue_each-IsKept digest n [] db u s = (s, refl, refl)
  enqueue_each-IsKept digest n (x ∷ rest) db u s =
      let key = digest_key (digest x.account_id x.next_refresh_at) in
      let payload = record no_payload { due_at = some x.next_refresh_at } in
      let next =
        (enqueue_job (context n) calendar key (some x.account_id) payload 100 none 3 none db).1 in
      let used = if is_none (find (same_key calendar key) db.jobs) then n + 1 else n in
      IsKept-through db next (enqueue_each digest now correlation fresh used rest next).1
        (enqueue_job-tables (context n) calendar key (some x.account_id) payload 100 none 3 none db)
        (enqueue_each-IsKept digest used rest next
          (enqueue-AreUnused fresh distinct n (context n) refl calendar key (some x.account_id)
            payload 100 none 3 none db u)
          (enqueue-IsSoundQueue (context n) calendar key (some x.account_id) payload 100 none 3 none
            db (omega arith) (u n (omega arith)) s))

pub ensure-IsKept :
    (now : ℕ) (correlation : Option ℕ) (fresh : ℕ → ℕ) (limit : ℕ) (db : Db)
    → IsFresh fresh db.jobs
    → IsSoundQueue db.jobs
    → IsKept db (ensure_queued_sync_jobs now correlation fresh limit db).1
unfolding ensure_queued_sync_jobs
ensure-IsKept now correlation fresh limit db f s =
    ensure_each-IsKept now correlation fresh f.distinct 0
      (take limit (
        order_by (λ a b. leb a.accepted_at b.accepted_at)
          (select (λ r. is_active r.status) db.requests)))
      db (λ m _. f.unused m) s

pub calendar-IsKept :
    (digest : ℕ → ℕ → ℕ) (now : ℕ) (correlation : Option ℕ) (fresh : ℕ → ℕ) (limit : ℕ)
    (subscriptions : List Subscription) (db : Db)
    → IsFresh fresh db.jobs
    → IsSoundQueue db.jobs
    → IsKept db (enqueue_due_calendar_jobs digest now correlation fresh limit subscriptions db).1
unfolding enqueue_due_calendar_jobs
calendar-IsKept digest now correlation fresh limit subscriptions db f s =
    enqueue_each-IsKept now correlation fresh f.distinct digest 0
      (due_subscriptions now limit subscriptions db) db (λ m _. f.unused m) s
