-- ===== src/Runtime/Invariant.antt =====
-- What holds of every database that transactions reach, in whatever order they commit.
use imtegrale.Prelude.{ℕ, ◌≡◌, ◌≤◌, some, Option, arith, All-member, Memᴰ}
use imtegrale.Models.{Db, Account, SyncRequest, RequestStatus, DurableJob}
use imtegrale.Jobs.Validity.{IsValidJob}
use imtegrale.SyncControl.Exclusive.{
  Exclusive, take_slot-Exclusive, reserve_lost-Exclusive, existing-Exclusive, finalize-Exclusive,
}
use imtegrale.SyncControl.Admission.{enqueue-tables}
use imtegrale.SyncControl.Finish.{finalize_sync_request}
use imtegrale.Runtime.{
  Step, claimed, finished, enqueued, replayed, reserved_slot, lost_slot, renewed, run_started,
  run_skipped, finalized, ensured, calendar_enqueued, cleaned_up, outbox_claimed, outbox_finished,
  elsewhere, Reach, here, next,
}
use imtegrale.Runtime.Renewing.{renew-Exclusive, jobs-renew}
use imtegrale.Runtime.Starting.{start-Exclusive, jobs-start, skip-Exclusive, jobs-skip}
use imtegrale.Runtime.Closing.{claim-Exclusive, finish-Exclusive}
use imtegrale.Runtime.Queue.{
  IsSoundQueue, claim-IsSoundQueue, finish-IsSoundQueue, enqueue_sync-IsSoundQueue,
}
use imtegrale.Runtime.Upkeep.{
  IsKept, ensure-IsKept, calendar-IsKept, cleanup-IsSoundQueue, cleanup-tables, delete-IsSoundQueue,
}
use imtegrale.Runtime.Elsewhere.{
  claim_outbox-SameTables, finish_outbox-SameTables, elsewhere-Exclusive,
}
use imtegrale.Runtime.Admissions.{jobs-existing, jobs-reserve_lost, take_slot-IsSoundQueue}
use Prim.Native.String.{String}

pub record IsSound (db : Db) : Type 0 where
  pub queue : IsSoundQueue db.jobs
  pub slots : Exclusive db

jobs-finalize :
    (a : Account) (q : SyncRequest) (status : RequestStatus) (e : Option String) (result : Option ℕ)
    (now : ℕ) (db db' : Db)
    → finalize_sync_request a q status e result now db ≡ some db'
    → db'.jobs ≡ db.jobs
unfolding finalize_sync_request
jobs-finalize a q status e result now db db' done = ground arith

kept-IsSound : {db e : Db} → IsKept db e → IsSound db → IsSound e
kept-IsSound (queue, accounts, requests) s = record {
  queue = queue;
  slots = rw (accounts, requests) s.slots;
}

pub Step-IsSound : {db db' : Db} → Step db db' → IsSound db → IsSound db'
Step-IsSound {db} (claimed kind now worker fresh locked) s = record {
  queue = claim-IsSoundQueue kind now worker fresh locked db s.queue;
  slots = claim-Exclusive kind now worker fresh locked db s.slots;
}
Step-IsSound {db} (finished claim success e retryable now) s = record {
  queue = finish-IsSoundQueue claim success e retryable now db s.queue;
  slots = finish-Exclusive claim success e retryable now db s.slots;
}
Step-IsSound {db} (enqueued ctx request fresh) s = record {
  queue = enqueue_sync-IsSoundQueue ctx request db fresh s.queue;
  slots =
      let (accounts, requests, _) = enqueue-tables ctx request db in
      rw (accounts, requests) s.slots;
}
Step-IsSound {db} (replayed a digest now m) s = record {
  queue = rw jobs-existing s.queue;
  slots = existing-Exclusive a digest now db m s.slots;
}
Step-IsSound {db} (reserved_slot ctx job_id args done fresh fresh_job took) s = record {
  queue = take_slot-IsSoundQueue ctx job_id args db fresh_job took s.queue;
  slots = take_slot-Exclusive ctx job_id args db fresh took s.slots;
}
Step-IsSound {db} (lost_slot ctx args) s = record {
  queue = rw jobs-reserve_lost s.queue;
  slots = reserve_lost-Exclusive ctx args db s.slots;
}
Step-IsSound {db} (renewed now claim) s = record {
  queue = rw jobs-renew s.queue;
  slots = renew-Exclusive now claim db s.slots;
}
Step-IsSound {db} (finalized a q status e result now db' m done) s = record {
  queue = rw (jobs-finalize a q status e result now db db' done) s.queue;
  slots = finalize-Exclusive a q status e result now db db' m done s.slots;
}
Step-IsSound {db} (run_started zones settings now q found) s = record {
  queue = rw jobs-start s.queue;
  slots = start-Exclusive zones settings now q db found s.slots;
}
Step-IsSound {db} (run_skipped a q status e now db' m done) s = record {
  queue = rw (jobs-skip a q status e now db db' done) s.queue;
  slots = skip-Exclusive a q status e now db db' m done s.slots;
}
Step-IsSound {db} (ensured now correlation fresh limit f) s =
    kept-IsSound (ensure-IsKept now correlation fresh limit db f s.queue) s
Step-IsSound {db} (calendar_enqueued digest now correlation fresh limit subscriptions f) s =
    kept-IsSound (calendar-IsKept digest now correlation fresh limit subscriptions db f s.queue) s
Step-IsSound {db} (cleaned_up now) s =
    let (accounts, requests) = cleanup-tables now db in
    kept-IsSound (cleanup-IsSoundQueue now db s.queue, accounts, requests) s
Step-IsSound {db} (outbox_claimed now worker fresh locked) s =
    let same = claim_outbox-SameTables now worker fresh locked db in
    kept-IsSound (rw same.jobs s.queue, same.accounts, same.requests) s
Step-IsSound {db} (outbox_finished claim success e now) s =
    let same = finish_outbox-SameTables claim success e now db in
    kept-IsSound (rw same.jobs s.queue, same.accounts, same.requests) s
Step-IsSound {db} (elsewhere gone e jobs rows accounts) s = record {
  queue = rw jobs (delete-IsSoundQueue gone db.jobs s.queue);
  slots = elsewhere-Exclusive db e s.slots rows accounts;
}

-- So does any sequence of transactions.
pub Reach-IsSound : {db db' : Db} → Reach db db' → IsSound db → IsSound db'
Reach-IsSound here s = s
Reach-IsSound (next r step) s = Step-IsSound step (Reach-IsSound r s)

-- In every database that sequences of these transactions reach, no job has been attempted more often than it may be.
pub reachable_attempts_capped :
    {db db' : Db} {j : DurableJob}
    → IsSound db
    → Reach db db'
    → Memᴰ j db'.jobs
    → j.attempts ≤ j.max_attempts
reachable_attempts_capped s path m =
    (All-member IsValidJob (Reach-IsSound path s).queue.valid m).attempts_capped
