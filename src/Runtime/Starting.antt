-- ===== src/Runtime/Starting.antt =====
-- Starting a run, or skipping it, keeps the slots and leaves the queue alone.
use imtegrale.Prelude.{
  ℕ, ◌≡◌, refl, sym, inl, inr, true, false, not, ◌||◌, Bool, Option, none, some, List, arith, All,
  All-member, Memᴰ, ◌==◌, ==_iff, leb, is_some_of, Option-cases, if-cases,
}
use imtegrale.Query.Rows.{All-update_to, All-self, find_sound}
use imtegrale.Models.{Db, Account, SyncRequest, RequestStatus, is_active}
use imtegrale.Events.{record_event}
use imtegrale.Store.{get_request, get_account, set_request, set_account, release_slot}
use imtegrale.Schedule.{Zones, Raised, returned, raised}
use imtegrale.Availability.{Settings}
use imtegrale.SyncControl.Slot.{Owns, IsExclusive, close-IsExclusive, Owns-set_account}
use imtegrale.SyncControl.Exclusive.{Exclusive}
use imtegrale.SyncControl.Finish.{finalize_sync_request}
use imtegrale.SyncControl.Start.{
  Start, started_request, started_account, skip_automatic_request, start_if, may_start,
  or_unchanged, start_request, start_sync_request,
}
use Prim.Native.String.{String}

pub skip-Exclusive :
    (a : Account) (q : SyncRequest) (status : String) (e : Option String) (now : ℕ) (db db' : Db)
    → Memᴰ a db.accounts
    → skip_automatic_request a q status e now db ≡ some db'
    → Exclusive db
    → Exclusive db'
unfolding skip_automatic_request finalize_sync_request record_event
skip-Exclusive a q status e now db db' m done h =
    let row = record q {
      status = RequestStatus.skipped;
      completed_at = some now;
      error_code = some "SYNC_AUTO_NOT_DUE";
      result = none;
    } in
    let x = release_slot q.id (record a { last_sync_status = status; last_sync_error = e }) in
    let accounts : db'.accounts ≡ set_account a.id x db.accounts = ground arith in
    let requests : db'.requests ≡ set_request q.id row db.requests = ground arith in
    rw (accounts, requests)
      (close-IsExclusive q.id row a x db.accounts db.requests refl m (ground arith) (ground arith)
        (ground arith) h)

pub jobs-skip :
    (a : Account) (q : SyncRequest) (status : String) (e : Option String) (now : ℕ) (db db' : Db)
    → skip_automatic_request a q status e now db ≡ some db'
    → db'.jobs ≡ db.jobs
unfolding skip_automatic_request finalize_sync_request record_event
jobs-skip a q status e now db db' done = ground arith

module _ (now : ℕ) (r : SyncRequest) (a : Account) (same : r.account_id ≡ a.id)
    (slot : a.sync_active_request_id ≡ some r.id) where
  started-Owns :
      (accounts : List Account)
      → All (Owns (started_request now r)) (set_account a.id (started_account now a) accounts)
  started-Owns accounts =
      All-update_to (λ b. Memᴰ b accounts) (Owns (started_request now r)) (λ b. b.id == a.id)
        (λ _. started_account now a) (λ b e _ k active. (slot, ground arith))
        (λ b e _ k active. absurd (ground (arith, e, k, same))) accounts (All-self accounts)

  beside-Owns :
      (q : SyncRequest) → (q.id == r.id) ≡ false → Owns q a → Owns q (started_account now a)
  beside-Owns q other yours k alive =
      let (claimed, _) = yours k alive in absurd (ground (arith, other, slot, claimed))

  started-IsExclusive :
      (accounts : List Account) (requests : List SyncRequest)
      → Memᴰ a accounts
      → IsExclusive accounts requests
      → IsExclusive
          (set_account a.id (started_account now a) accounts)
          (set_request r.id (started_request now r) requests)
  started-IsExclusive accounts requests ma h =
      All-update_to (λ q. All (Owns q) accounts) _ (λ q. q.id == r.id) (λ _. started_request now r)
        (λ _ _ _. started-Owns accounts)
        (λ q other owns.
          Owns-set_account q a.id (started_account now a) accounts
            (beside-Owns q other (All-member (Owns q) owns ma)) owns)
        requests h

or_unchanged-Exclusive :
    (a : Account) (q : SyncRequest) (status : String) (e : Option String) (now : ℕ) (db : Db)
    → Memᴰ a db.accounts
    → Exclusive db
    → Exclusive (or_unchanged (skip_automatic_request a q status e now db) db)
or_unchanged-Exclusive a q status e now db m h =
    elim (Option-cases (skip_automatic_request a q status e now db)) [
      | inl x ↦ rw x h
      | inr (done, x) ↦ rw x (skip-Exclusive a q status e now db done m x h)
    ]

start_if-Exclusive :
    (due : Raised Bool) (now : ℕ) (a : Account) (r : SyncRequest) (db : Db)
    → r.account_id ≡ a.id
    → a.sync_active_request_id ≡ some r.id
    → Memᴰ a db.accounts
    → Exclusive db
    → Exclusive (start_if due now a r db).1
unfolding record_event
start_if-Exclusive raised now a r db same slot m h = h
start_if-Exclusive (returned true) now a r db same slot m h =
    started-IsExclusive now r a same slot db.accounts db.requests m h
start_if-Exclusive (returned false) now a r db same slot m h =
    or_unchanged-Exclusive a r a.last_sync_status a.last_sync_error now db m h

slot_of : (n : ℕ) (o : Option ℕ) (b : Bool) → (not (is_some_of n o) || b) ≡ false → o ≡ some n
slot_of n o b h = ground arith

start_request-Exclusive :
    (zones : Zones) (settings : Settings) (now : ℕ) (a : Account) (r : SyncRequest) (db : Db)
    → r.account_id ≡ a.id
    → Memᴰ a db.accounts
    → Exclusive db
    → Exclusive (start_request zones settings now a r db).1
unfolding start_request
start_request-Exclusive zones settings now a r db same m h =
    let P : Start × Db → Type 0 = λ x. Exclusive x.1 in
    if-cases P (not (is_active r.status)) (λ _. h)
      (λ _.
        if-cases P (not (is_some_of r.id a.sync_active_request_id) || leb r.lease_expires_at now)
          (λ _. h)
          (λ held.
            if-cases P a.is_disabled (λ _. h)
              (λ _.
                start_if-Exclusive (may_start zones settings now a r) now a r db same
                  (slot_of r.id a.sync_active_request_id _ held) m h)))

pub start-Exclusive :
    (zones : Zones) (settings : Settings) (now : ℕ) (q : SyncRequest) (db : Db)
    → get_request q.id db ≡ some q
    → Exclusive db
    → Exclusive (start_sync_request zones settings now q.account_id q.id db).1
unfolding start_sync_request
start-Exclusive zones settings now q db found h =
    elim (Option-cases (get_account q.account_id db)) [
      | inl e ↦ rw (e, start_sync_request) h
      | inr (a, e) ↦
          let (keyed, m) = find_sound (λ a. a.id == q.account_id) db.accounts e in
          let same : q.account_id ≡ a.id = sym ((==_iff a.id q.account_id).0 keyed) in
          rw (e, start_sync_request)
            (rw found (start_request-Exclusive zones settings now a q db same m h))
    ]

jobs-start_if :
    (due : Raised Bool) (now : ℕ) (a : Account) (r : SyncRequest) (db : Db)
    → (start_if due now a r db).1.jobs ≡ db.jobs
unfolding record_event
jobs-start_if raised now a r db = refl
jobs-start_if (returned true) now a r db = refl
jobs-start_if (returned false) now a r db =
    elim (Option-cases (skip_automatic_request a r a.last_sync_status a.last_sync_error now db)) [
      | inl x ↦ rw x refl
      | inr (done, x) ↦ rw x (jobs-skip a r a.last_sync_status a.last_sync_error now db done x)
    ]

pub jobs-start :
    (zones : Zones) (settings : Settings) (now account_id request_id : ℕ) (db : Db)
    → (start_sync_request zones settings now account_id request_id db).1.jobs ≡ db.jobs
unfolding start_sync_request start_request
jobs-start zones settings now account_id request_id db =
    elim (Option-cases (get_account account_id db)) [
      | inl e ↦ rw (e, start_sync_request) refl
      | inr (a, e) ↦ elim (Option-cases (get_request request_id db)) [
        | inl k ↦ rw (e, start_sync_request) (rw k refl)
        | inr (r, k) ↦
            let P : Start × Db → Type 0 = λ x. x.1.jobs ≡ db.jobs in
            rw (e, start_sync_request)
              (rw k (
                if-cases P (not (is_active r.status)) (λ _. refl)
                  (λ _.
                    if-cases P
                      (not (is_some_of r.id a.sync_active_request_id) || leb r.lease_expires_at now)
                      (λ _. refl)
                      (λ _.
                        if-cases P a.is_disabled (λ _. refl)
                          (λ _. jobs-start_if (may_start zones settings now a r) now a r db)))))
      ]
    ]
