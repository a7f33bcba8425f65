-- ===== src/Runtime/Closing.antt =====
-- Dead-lettering a job closes its synchronisation request and keeps the slots of the others.
use imtegrale.Prelude.{
  ℕ, ◌≡◌, refl, inl, inr, Bool, false, Option, List, [], ◌∷◌, arith, All, Bool-cases, Option-cases,
  ◌==◌, ◌&&◌, leb,
}
use imtegrale.Query.{find}
use imtegrale.Query.Rows.{find_sound, All-update_to}
use imtegrale.Models.{
  Db, Account, SyncRequest, DurableJob, JobKind, sync, is_active, kind_eq, job_status_eq, JobStatus,
}
use imtegrale.Events.{record_event}
use imtegrale.Store.{get_request, get_account, set_request}
use imtegrale.Jobs.{dead_letter_request, dead_letter_sync_request}
use imtegrale.Jobs.Lease.{
  recover_job, recover_each, recover_expired_jobs, expired_jobs, claim_job, finish_job,
  finish_owned, finished_job, JobClaim, is_owned, next_claimable,
}
use imtegrale.SyncControl.Slot.{Owns, IsExclusive, inactive-Owns, close-IsExclusive}
use imtegrale.SyncControl.Exclusive.{Exclusive}
use Prim.Native.String.{String}

close_request-IsExclusive :
    (k : ℕ) (row : SyncRequest) (accounts : List Account) (requests : List SyncRequest)
    → is_active row.status ≡ false
    → IsExclusive accounts requests
    → IsExclusive accounts (set_request k row requests)
close_request-IsExclusive k row accounts requests closed =
    All-update_to (λ r. All (Owns r) accounts) (λ r. All (Owns r) accounts) (λ r. r.id == k)
      (λ _. row) (λ _ _ _. inactive-Owns row accounts closed) (λ _ _ h. h) requests

dead_request-Exclusive :
    (now : ℕ) (q : SyncRequest) (db : Db) → Exclusive db → Exclusive (dead_letter_request now q db)
unfolding record_event
dead_request-Exclusive now q db h = elim (Option-cases (get_account q.account_id db)) [
  | inl e ↦
      rw (e, dead_letter_request) (close_request-IsExclusive q.id _ db.accounts db.requests refl h)
  | inr (a, e) ↦
      rw (e, dead_letter_request)
        (close-IsExclusive q.id _ a _ db.accounts db.requests refl (find_sound _ db.accounts e).1
          (ground arith) (ground arith) (ground arith) h)
]

dead_letter-Exclusive :
    (j : DurableJob) (now : ℕ) (db : Db)
    → Exclusive db
    → Exclusive (dead_letter_sync_request j now db)
unfolding dead_letter_sync_request
dead_letter-Exclusive j now db h = elim (Option-cases j.payload.request_id) [
  | inl e ↦ rw (e, dead_letter_sync_request) h
  | inr (k, e) ↦ elim (Option-cases (get_request k db)) [
    | inl gone ↦ rw (e, dead_letter_sync_request) (rw gone h)
    | inr (q, found) ↦ elim (Bool-cases (is_active q.status)) [
      | inl active ↦
          rw (e, dead_letter_sync_request) (rw (found, active) (dead_request-Exclusive now q db h))
      | inr closed ↦ rw (e, dead_letter_sync_request) (rw (found, closed) h)
    ]
  ]
]

recover_job-Exclusive :
    (now : ℕ) (j : DurableJob) (db : Db) → Exclusive db → Exclusive (recover_job now j db)
unfolding recover_job
recover_job-Exclusive now j db h =
    elim (Bool-cases (leb j.max_attempts j.attempts && kind_eq j.kind sync)) [
      | inl dead ↦ rw (dead, recover_job) (dead_letter-Exclusive j now _ h)
      | inr again ↦ rw (again, recover_job) h
    ]

recover_each-Exclusive :
    (now : ℕ) (pending : List DurableJob) (db : Db)
    → Exclusive db
    → Exclusive (recover_each now pending db)
unfolding recover_each
recover_each-Exclusive now [] db h = h
recover_each-Exclusive now (j ∷ rest) db h =
    recover_each-Exclusive now rest (recover_job now j db) (recover_job-Exclusive now j db h)

pub claim-Exclusive :
    (kind : JobKind) (now worker fresh : ℕ) (locked : ℕ → Bool) (db : Db)
    → Exclusive db
    → Exclusive (claim_job kind now worker fresh locked db).1
unfolding claim_job recover_expired_jobs
claim-Exclusive kind now worker fresh locked db h =
    let after = recover_each-Exclusive now (expired_jobs kind now locked db.jobs) db h in
    elim (Option-cases
      (next_claimable kind now locked (recover_expired_jobs kind now locked db).jobs)) [
        | inl e ↦ rw (e, claim_job) after
        | inr (j, e) ↦ rw (e, claim_job) after
      ]

finish_owned-Exclusive :
    (success : Bool) (e : Option String) (retryable : Bool) (now : ℕ) (j : DurableJob) (db : Db)
    → Exclusive db
    → Exclusive (finish_owned success e retryable now j db)
unfolding finish_owned
finish_owned-Exclusive success e retryable now j db h =
    elim (Bool-cases (
      job_status_eq (finished_job success e retryable now j).status JobStatus.dead_letter
      && kind_eq j.kind sync)) [
        | inl dead ↦ rw (dead, finish_owned) (dead_letter-Exclusive j now _ h)
        | inr again ↦ rw (again, finish_owned) h
      ]

pub finish-Exclusive :
    (claim : JobClaim) (success : Bool) (e : Option String) (retryable : Bool) (now : ℕ) (db : Db)
    → Exclusive db
    → Exclusive (finish_job claim success e retryable now db).1
unfolding finish_job
finish-Exclusive claim success e retryable now db h =
    elim (Option-cases (find (λ j. j.id == claim.id) db.jobs)) [
      | inl gone ↦ rw (gone, finish_job) h
      | inr (j, found) ↦ elim (Bool-cases (is_owned claim j)) [
        | inl mine ↦
            rw (found, finish_job) (rw mine (finish_owned-Exclusive success e retryable now j db h))
        | inr not_mine ↦ rw (found, finish_job) (rw not_mine h)
      ]
    ]
