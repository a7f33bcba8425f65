-- ===== src/Runtime/Admissions.antt =====
-- Reservations touch the queue only by the job that they enqueue.
use imtegrale.Prelude.{
  ℕ, ◌≡◌, ◌≢◌, refl, ◌∙◌, inl, inr, some, List, [], ◌∷◌, ◌++◌, arith, All, Bool-cases, Option-cases,
}
use imtegrale.Models.{Db, Account, SyncRequest}
use imtegrale.Events.{record_event}
use imtegrale.Store.{Context, get_account, set_account}
use imtegrale.Jobs.{enqueue_sync_job}
use imtegrale.SyncControl
use imtegrale.SyncControl.{
  lapsed_requests, mark_request_worker_lost, recover_expired_requests, existing_reservation,
}
use imtegrale.SyncControl.Reserve.{
  ReserveArgs, is_admitted, admitted_account, new_request, insert_request, reserve_won,
  reserve_lost, refused, take_slot, Outcome,
}
use imtegrale.Runtime.Queue.{IsSoundQueue, enqueue_sync-IsSoundQueue}

jobs-mark_lost :
    (a : Account) (q : SyncRequest) (now : ℕ) (db : Db)
    → (mark_request_worker_lost a q now db).1.jobs ≡ db.jobs
unfolding mark_request_worker_lost record_event
jobs-mark_lost a q now db = refl

jobs-recover_each :
    (now : ℕ) (pending : List SyncRequest) (a : Account) (db : Db)
    → (SyncControl.recover_each now pending a db).1.jobs ≡ db.jobs
unfolding SyncControl.recover_each
jobs-recover_each now [] a db = refl
jobs-recover_each now (q ∷ rest) a db =
    let next = mark_request_worker_lost a q now db in
    jobs-recover_each now rest next.0 next.1 ∙ jobs-mark_lost a q now db

jobs-recover :
    (a : Account) (now : ℕ) (db : Db) → (recover_expired_requests a now db).1.jobs ≡ db.jobs
unfolding recover_expired_requests
jobs-recover a now db = jobs-recover_each now (lapsed_requests a now db.requests) a db

pub jobs-existing :
    (a : Account) (digest now : ℕ) (db : Db)
    → (existing_reservation a digest now db).1.jobs ≡ db.jobs
unfolding existing_reservation mark_request_worker_lost record_event
jobs-existing a digest now db = ground arith

pub jobs-reserve_lost :
    (ctx : Context) (args : ReserveArgs) (db : Db) → (reserve_lost ctx args db).1.jobs ≡ db.jobs
unfolding reserve_lost refused record_event
jobs-reserve_lost ctx args db = elim (Option-cases (get_account args.account_id db)) [
  | inl e ↦ rw (e, reserve_lost) refl
  | inr (a, e) ↦
      let read = jobs-existing a args.digest ctx.now db in
      elim (Option-cases (existing_reservation a args.digest ctx.now db).0) [
        | inl absent ↦
            let told : (refused ctx args a (existing_reservation a args.digest ctx.now db).1).1.jobs
                ≡ (existing_reservation a args.digest ctx.now db).1.jobs =
              ground arith in
            rw (e, reserve_lost) (rw absent (told ∙ read))
        | inr (r, x) ↦ rw (e, reserve_lost) (rw x read)
      ]
]

insert-IsSoundQueue :
    (ctx : Context) (job_id : ℕ) (args : ReserveArgs) (db done : Db)
    → insert_request ctx job_id args db ≡ some done
    → All (λ j. j.id ≢ job_id) db.jobs
    → IsSoundQueue db.jobs
    → IsSoundQueue done.jobs
unfolding insert_request record_event
insert-IsSoundQueue ctx job_id args db done e fresh s =
    let request = new_request ctx args in
    let added = record db { requests = db.requests ++ request ∷ [] } in
    elim (Bool-cases args.enqueue) [
      | inl queue ↦
          let same : done.jobs
              ≡ (enqueue_sync_job (record ctx { new_id = job_id }) request added).1.jobs =
            ground arith in
          rw same (enqueue_sync-IsSoundQueue (record ctx { new_id = job_id }) request added fresh s)
      | inr quiet ↦ let same : done.jobs ≡ db.jobs = ground arith in rw same s
    ]

reserve_won-IsSoundQueue :
    (ctx : Context) (job_id : ℕ) (args : ReserveArgs) (a : Account) (db : Db)
    → All (λ j. j.id ≢ job_id) db.jobs
    → IsSoundQueue db.jobs
    → IsSoundQueue (reserve_won ctx job_id args a db).1.jobs
unfolding reserve_won
reserve_won-IsSoundQueue ctx job_id args a db fresh s =
    let taken = record db { accounts = set_account a.id (admitted_account ctx a) db.accounts } in
    let recovered = (recover_expired_requests (admitted_account ctx a) ctx.now taken).1 in
    let same = jobs-recover (admitted_account ctx a) ctx.now taken in
    elim (Option-cases (insert_request ctx job_id args recovered)) [
      | inl e ↦ rw (e, reserve_won) s
      | inr (done, e) ↦
          rw (e, reserve_won)
            (insert-IsSoundQueue ctx job_id args recovered done e (rw same fresh) (rw same s))
    ]

pub take_slot-IsSoundQueue :
    (ctx : Context) (job_id : ℕ) (args : ReserveArgs) (db : Db) {done : Outcome × Db}
    → All (λ j. j.id ≢ job_id) db.jobs
    → take_slot ctx job_id args db ≡ some done
    → IsSoundQueue db.jobs
    → IsSoundQueue done.1.jobs
unfolding take_slot
take_slot-IsSoundQueue ctx job_id args db {done} fresh took s =
    elim (Option-cases (get_account args.account_id db)) [
      | inl e ↦ absurd (ground arith)
      | inr (a, e) ↦ elim (Bool-cases (is_admitted args ctx.now a)) [
        | inl ok ↦
            let won : reserve_won ctx job_id args a db ≡ done = ground arith in
            rw (← won) (reserve_won-IsSoundQueue ctx job_id args a db fresh s)
        | inr busy ↦ absurd (ground arith)
      ]
    ]
