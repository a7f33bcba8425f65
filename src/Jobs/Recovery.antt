-- ===== src/Jobs/Recovery.antt =====
-- What the recovery of expired leases does to the queue.
use imtegrale.Prelude.{
  ℕ, ◌-◌, ◌<◌, ◌≡◌, ◌≢◌, refl, sym, ◌∙◌, Bool, true, false, List, [], ◌∷◌, arith, All, All-take,
  All-member, Memᴰ, ◌==◌, ==_iff,
}
use native.Mathlib.Nat.{one-le-pow}
use imtegrale.Query.{select, find}
use imtegrale.Query.Rows.{
  All-select, select_passes, All-self, All-both, All-imp, All-update, select-update,
}
use imtegrale.Query.Order.{All-order_by}
use imtegrale.Query.Keys.{IsUnique, update-IsUnique, find-update_ne, eq_of_key}
use imtegrale.Models.{Db, DurableJob, JobKind}
use imtegrale.Events.{record_event}
use imtegrale.Store.{set_job}
use imtegrale.Jobs.{retry_delay, dead_letter_sync_request}
use imtegrale.Jobs.Lease.{
  is_expired, recovered_job, recover_job, recover_each, expired_jobs, recover_expired_jobs,
  is_claimable,
}
use imtegrale.Jobs.Validity.{IsValidJob, recovered_job-IsValidJob}

abbrev pub IsUniqueJobs : List DurableJob → Type 0
IsUniqueJobs = IsUnique (λ j. j.id)

-- Dead-lettering a request writes requests, accounts and events, and no job.
pub jobs-dead_letter :
    (j : DurableJob) (now : ℕ) (db : Db) → (dead_letter_sync_request j now db).jobs ≡ db.jobs
unfolding dead_letter_sync_request record_event
jobs-dead_letter j now db = ground arith

jobs-recover_job :
    (now : ℕ) (j : DurableJob) (db : Db)
    → (recover_job now j db).jobs ≡ set_job j.id (recovered_job now j) db.jobs
unfolding recover_job
jobs-recover_job now j db = ground (
  arith,
  jobs-dead_letter j now (record db { jobs = set_job j.id (recovered_job now j) db.jobs }),
)

-- What the loop selects are rows of the table whose lease is over.
pub expired_jobs_sound :
    (kind : JobKind) (now : ℕ) (locked : ℕ → Bool) (jobs : List DurableJob)
    → All
        (λ j. Memᴰ j jobs × (is_expired kind now locked j ≡ true))
        (expired_jobs kind now locked jobs)
expired_jobs_sound kind now locked jobs = All-take _ 100 _ (
    All-order_by _ _ _
      (All-both _ _ _ (All-select _ _ jobs (All-self jobs)) (select_passes _ jobs)))

retry_delay_pos : (n : ℕ) → 0 < retry_delay n
unfolding retry_delay
retry_delay_pos n = omega (arith, one-le-pow (n - 1) 2 (omega arith))

-- A recovered row cannot be claimed at once.
recovered_unclaimable :
    (kind : JobKind) (now : ℕ) (locked : ℕ → Bool) (j : DurableJob)
    → is_claimable kind now locked (recovered_job now j) ≡ false
unfolding recovered_job
recovered_unclaimable kind now locked j = ground (arith, retry_delay_pos j.attempts)

recovered_id : (now : ℕ) (j : DurableJob) → (recovered_job now j).id ≡ j.id
unfolding recovered_job
recovered_id now j = ground arith

pub set_job-IsUnique :
    (id : ℕ) (row : DurableJob) (jobs : List DurableJob)
    → row.id ≡ id
    → IsUniqueJobs jobs
    → IsUniqueJobs (set_job id row jobs)
set_job-IsUnique id row jobs keyed =
    update-IsUnique (λ j. j.id) (λ j. j.id == id) (λ _. row)
      (λ a e. keyed ∙ sym ((==_iff a.id id).0 e)) jobs

abbrev Blocked : JobKind → ℕ → (ℕ → Bool) → List DurableJob → DurableJob → Type 0
Blocked kind now locked jobs j =
    All (λ x. (x.id == j.id) ≡ true → is_claimable kind now locked x ≡ false) jobs

expired_unclaimable :
    (kind : JobKind) (now : ℕ) (locked : ℕ → Bool) (j : DurableJob)
    → is_expired kind now locked j ≡ true
    → is_claimable kind now locked j ≡ false
expired_unclaimable kind now locked j h = ground arith

expired-Blocked :
    (kind : JobKind) (now : ℕ) (locked : ℕ → Bool) (jobs : List DurableJob)
    → IsUniqueJobs jobs
    → (j : DurableJob) → Memᴰ j jobs × (is_expired kind now locked j ≡ true)
    → Blocked kind now locked jobs j
expired-Blocked kind now locked jobs u j h =
    All-imp _ _
      (λ x m e.
        let same : j ≡ x = eq_of_key (λ y. y.id) u h.0 m (sym ((==_iff x.id j.id).0 e)) in
        rw (← same) (expired_unclaimable kind now locked j h.1))
      jobs (All-self jobs)

Blocked-recover :
    (kind : JobKind) (now : ℕ) (locked : ℕ → Bool) (id : ℕ) (row k : DurableJob)
    (jobs : List DurableJob)
    → is_claimable kind now locked row ≡ false
    → Blocked kind now locked jobs k
    → Blocked kind now locked (set_job id row jobs) k
Blocked-recover kind now locked id row k jobs unfit =
    All-update (λ x. (x.id == k.id) ≡ true → is_claimable kind now locked x ≡ false) _ (λ _. row)
      (λ a _ _ _. unfit) jobs

select-recover_each :
    (kind : JobKind) (now : ℕ) (locked : ℕ → Bool) (pending : List DurableJob) (db : Db)
    → All (Blocked kind now locked db.jobs) pending
    → select (is_claimable kind now locked) (recover_each now pending db).jobs
      ≡ select (is_claimable kind now locked) db.jobs
unfolding recover_each
select-recover_each kind now locked [] db h = refl
select-recover_each kind now locked (j ∷ rest) db h =
    let unfit = recovered_unclaimable kind now locked j in
    select-recover_each kind now locked rest (recover_job now j db) (
      rw jobs-recover_job (
        All-imp _ _
          (λ k b. Blocked-recover kind now locked j.id (recovered_job now j) k db.jobs unfit b) rest
          h.1))
    ∙ rw jobs-recover_job
        (select-update (is_claimable kind now locked) _ (recovered_job now j) unfit db.jobs h.0)

-- Recovering expired leases makes no job claimable in the same transaction, and withdraws none.
pub select-recover :
    (kind : JobKind) (now : ℕ) (locked : ℕ → Bool) (db : Db)
    → IsUniqueJobs db.jobs
    → select (is_claimable kind now locked) (recover_expired_jobs kind now locked db).jobs
      ≡ select (is_claimable kind now locked) db.jobs
unfolding recover_expired_jobs
select-recover kind now locked db u =
    select-recover_each kind now locked (expired_jobs kind now locked db.jobs) db (
      All-imp _ _ (expired-Blocked kind now locked db.jobs u) _
        (expired_jobs_sound kind now locked db.jobs))

recover_each-IsUnique :
    (now : ℕ) (pending : List DurableJob) (db : Db)
    → IsUniqueJobs db.jobs
    → IsUniqueJobs (recover_each now pending db).jobs
unfolding recover_each
recover_each-IsUnique now [] db u = u
recover_each-IsUnique now (j ∷ rest) db u = recover_each-IsUnique now rest (recover_job now j db) (
    rw jobs-recover_job
      (set_job-IsUnique j.id (recovered_job now j) db.jobs (recovered_id now j) u))

pub recover-IsUnique :
    (kind : JobKind) (now : ℕ) (locked : ℕ → Bool) (db : Db)
    → IsUniqueJobs db.jobs
    → IsUniqueJobs (recover_expired_jobs kind now locked db).jobs
unfolding recover_expired_jobs
recover-IsUnique kind now locked db u =
    recover_each-IsUnique now (expired_jobs kind now locked db.jobs) db u

recover_each-valid :
    (now : ℕ) (pending : List DurableJob) (db : Db)
    → All IsValidJob pending
    → All IsValidJob db.jobs
    → All IsValidJob (recover_each now pending db).jobs
unfolding recover_each
recover_each-valid now [] db hp h = h
recover_each-valid now (j ∷ rest) db hp h =
    recover_each-valid now rest (recover_job now j db) hp.1 (
      rw jobs-recover_job
        (All-update IsValidJob _ _ (λ _ _ _. recovered_job-IsValidJob now j hp.0) db.jobs h))

pub recover-valid :
    (kind : JobKind) (now : ℕ) (locked : ℕ → Bool) (db : Db)
    → All IsValidJob db.jobs
    → All IsValidJob (recover_expired_jobs kind now locked db).jobs
unfolding recover_expired_jobs
recover-valid kind now locked db h =
    recover_each-valid now _ db
      (All-imp _ _ (λ j m. All-member IsValidJob h m.0) _
        (expired_jobs_sound kind now locked db.jobs))
      h

find-recover_each :
    (now k : ℕ) (pending : List DurableJob) (db : Db)
    → All (λ j. k ≢ j.id) pending
    → find (λ j. j.id == k) (recover_each now pending db).jobs ≡ find (λ j. j.id == k) db.jobs
unfolding recover_each
find-recover_each now k [] db h = refl
find-recover_each now k (j ∷ rest) db h =
    find-recover_each now k rest (recover_job now j db) h.1
    ∙ rw jobs-recover_job
        (find-update_ne (λ y. y.id) j.id (recovered_job now j) (recovered_id now j) k db.jobs h.0)

-- A row whose lease is not over, or that another transaction holds, is left as it is.
pub find-recover :
    (kind : JobKind) (now : ℕ) (locked : ℕ → Bool) (db : Db) (j : DurableJob)
    → IsUniqueJobs db.jobs
    → Memᴰ j db.jobs
    → is_expired kind now locked j ≡ false
    → find (λ x. x.id == j.id) (recover_expired_jobs kind now locked db).jobs
      ≡ find (λ x. x.id == j.id) db.jobs
unfolding recover_expired_jobs
find-recover kind now locked db j u m alive = find-recover_each now j.id _ db (
    All-imp _ _
      (λ x h e.
        let same : j ≡ x = eq_of_key (λ y. y.id) u m h.0 e in
        let over : is_expired kind now locked j ≡ true = rw same h.1 in cc)
      _ (expired_jobs_sound kind now locked db.jobs))
