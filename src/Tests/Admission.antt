-- ===== src/Tests/Admission.antt =====
-- Reservations on the sample database, and what the databases keep that its steps reach.
use imtegrale.Prelude.{ℕ, ◌≤◌, ◌≡◌, ◌≢◌, refl, true, false, none, some, arith, All, Memᴰ, ◌&&◌}
use imtegrale.Models.{Db, Account, seconds}
use imtegrale.Events.{record_event}
use imtegrale.Store.{Context, get_account}
use imtegrale.Jobs.{enqueue_sync_job}
use imtegrale.SyncControl.{existing_reservation, recover_expired_requests, seconds_until}
use imtegrale.SyncControl.Reserve.{
  insert_request, ReserveArgs, slot_taken, cooling_down, reserve_update, take_slot,
  reserve_sync_request, in_progress,
}
use imtegrale.SyncControl.Exclusive.{Exclusive, reserve-Exclusive}
use imtegrale.SyncControl.Guards.{granted, granted_only_if_free, IsHonest, reserve_update-IsHonest}
use imtegrale.Runtime.{Step, reserved_slot, Reach, here, next}
use imtegrale.Runtime.Invariant.{IsSound, reachable_attempts_capped}
use imtegrale.Tests.Samples.{db, late_job}

abbrev ctx : Context
ctx = record { now = seconds 20; new_id = 8; correlation_id = none }

abbrev args : ℕ → ReserveArgs
args account_id = record {
  account_id = account_id;
  actor = "owner";
  digest = 80;
  enforce_cooldown = true;
  notify = true;
  quota_bypass = false;
  bypass_reason = none;
  force_probe = false;
  enqueue = true;
}

db-Exclusive : Exclusive db
db-Exclusive = ground arith

fresh_request : All (λ r. r.id ≢ 8) db.requests
fresh_request = omega arith

fresh_job : All (λ j. j.id ≢ 30) db.jobs
fresh_job = omega arith

abbrev after : Db
after = (reserve_update (λ d. d) ctx 30 (args 2) db).1

granted_to_idle : granted (reserve_update (λ d. d) ctx 30 (args 2) db).0 ≡ true
unfolding reserve_update insert_request enqueue_sync_job recover_expired_requests record_event
granted_to_idle = refl

-- The busy account is told to wait until its lease ends.
busy_refused : (reserve_update (λ d. d) ctx 30 (args 1) db).0 ≡ in_progress 880 (seconds 900)
unfolding reserve_update existing_reservation seconds_until
busy_refused = refl

granted_only_if_free_example :
    (a : Account) × (get_account 2 db ≡ some a)
    × (a.is_disabled ≡ false)
    × (slot_taken (seconds 20) a ≡ false)
    × ((true && cooling_down (seconds 20) a) ≡ false)
granted_only_if_free_example = granted_only_if_free (λ d. d) ctx 30 (args 2) db granted_to_idle

reserve_update-IsHonest_example :
    IsHonest (args 1) (seconds 20) (get_account 1 db) (reserve_update (λ d. d) ctx 30 (args 1) db).0
reserve_update-IsHonest_example = reserve_update-IsHonest (λ d. d) ctx 30 (args 1) db

-- Nothing else is committed during the call.
quiet : (d : Db) → Exclusive d → Exclusive d
quiet d h = h

unused : (d : Db) → All (λ r. r.id ≢ 8) d.requests → All (λ r. r.id ≢ 8) d.requests
unused d h = h

reserve-Exclusive_example : Exclusive (reserve_sync_request (λ d. d) (λ d. d) ctx 30 (args 2) db).1
reserve-Exclusive_example =
    reserve-Exclusive (λ d. d) (λ d. d) ctx 30 (args 2) db quiet quiet unused fresh_request
      db-Exclusive

db-IsSound : IsSound db
db-IsSound = record {
  queue = record { valid = ground arith; unique = omega arith };
  slots = db-Exclusive;
}

admit_two : Step db after
unfolding reserve_update take_slot insert_request enqueue_sync_job recover_expired_requests
    record_event
admit_two =
    reserved_slot ctx 30 (args 2) (reserve_update (λ d. d) ctx 30 (args 2) db) fresh_request
      fresh_job refl

path : Reach db after
path = next here admit_two

reachable_attempts_capped_example : late_job.attempts ≤ late_job.max_attempts
unfolding reserve_update insert_request enqueue_sync_job recover_expired_requests record_event
reachable_attempts_capped_example =
    reachable_attempts_capped {j = late_job} db-IsSound path (Memᴰ.head refl)
