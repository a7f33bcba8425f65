-- ===== src/SyncControl/Exclusive.antt =====
-- The operations of sync_control.py on synchronisation requests keep at most one of an account's requests active.
use imtegrale.Prelude.{
  ℕ, ◌≡◌, ◌≢◌, refl, sym, inl, inr, Option, some, arith, All, All-member, Memᴰ, Bool-cases,
  Option-cases, ◌==◌, ==_iff,
}
use imtegrale.Query.{find}
use imtegrale.Query.Rows.{find_sound, All-update}
use imtegrale.Models.{Db, Account, SyncRequest, RequestStatus, is_active}
use imtegrale.Events.{record_event}
use imtegrale.Store.{Context, get_account, set_request, set_account, release_slot}
use imtegrale.SyncControl.{
  lost_request, lost_account, mark_request_worker_lost, existing_reservation, is_lapsed,
  same_digest,
}
use imtegrale.SyncControl.Reserve.{
  ReserveArgs, Outcome, is_admitted, refused, reserve_lost, reserve_won, take_slot, reserve_update,
  reserve_sync_request,
}
use imtegrale.SyncControl.Finish.{finalize_sync_request}
use imtegrale.SyncControl.Slot.{IsExclusive, close-IsExclusive}
use imtegrale.SyncControl.Admission.{reserve_won-IsExclusive}
use Prim.Native.String.{String}

abbrev pub Exclusive : Db → Type 0
Exclusive db = IsExclusive db.accounts db.requests

mark_lost-Exclusive :
    (a : Account) (q : SyncRequest) (now : ℕ) (db : Db)
    → Memᴰ a db.accounts
    → Exclusive db
    → Exclusive (mark_request_worker_lost a q now db).1
unfolding mark_request_worker_lost record_event
mark_lost-Exclusive a q now db m =
    close-IsExclusive q.id (lost_request now q) a (lost_account now q.id a) db.accounts db.requests
      refl m (ground arith) (ground arith) (ground arith)

pub existing-Exclusive :
    (a : Account) (digest now : ℕ) (db : Db)
    → Memᴰ a db.accounts
    → Exclusive db
    → Exclusive (existing_reservation a digest now db).1
unfolding existing_reservation
existing-Exclusive a digest now db m h =
    elim (Option-cases (find (same_digest a.id digest) db.requests)) [
      | inl e ↦ rw (e, existing_reservation) h
      | inr (q, e) ↦ elim (Bool-cases (is_lapsed now q)) [
        | inl lapsed ↦ rw (e, existing_reservation) (rw lapsed (mark_lost-Exclusive a q now db m h))
        | inr alive ↦ rw (e, existing_reservation) (rw alive h)
      ]
    ]

tables-refused :
    (ctx : Context) (args : ReserveArgs) (a : Account) (db : Db)
    → let after = (refused ctx args a db).1 in
      (after.accounts ≡ db.accounts) × (after.requests ≡ db.requests)
unfolding refused record_event
tables-refused ctx args a db = ground arith

pub reserve_lost-Exclusive :
    (ctx : Context) (args : ReserveArgs) (db : Db)
    → Exclusive db
    → Exclusive (reserve_lost ctx args db).1
unfolding reserve_lost
reserve_lost-Exclusive ctx args db h = elim (Option-cases (get_account args.account_id db)) [
  | inl e ↦ rw (e, reserve_lost) h
  | inr (a, e) ↦
      let read = existing_reservation a args.digest ctx.now db in
      let kept = existing-Exclusive a args.digest ctx.now db (find_sound _ db.accounts e).1 h in
      elim (Option-cases read.0) [
        | inl absent ↦
            let (accounts, requests) = tables-refused ctx args a read.1 in
            rw (e, reserve_lost) (rw absent (rw (accounts, requests) kept))
        | inr (r, replay) ↦ rw (e, reserve_lost) (rw replay kept)
      ]
]

pub finalize-Exclusive :
    (a : Account) (q : SyncRequest) (status : RequestStatus) (e : Option String) (result : Option ℕ)
    (now : ℕ) (db db' : Db)
    → Memᴰ a db.accounts
    → finalize_sync_request a q status e result now db ≡ some db'
    → Exclusive db
    → Exclusive db'
unfolding finalize_sync_request
finalize-Exclusive a q status e result now db db' m done h = elim (Bool-cases (is_active status)) [
  | inl active ↦ absurd (ground arith)
  | inr ended ↦
      let row = record q {
        status = status;
        completed_at = some now;
        error_code = e;
        result = result;
      } in
      let x = release_slot q.id a in
      let accounts : db'.accounts ≡ set_account a.id x db.accounts = ground arith in
      let requests : db'.requests ≡ set_request q.id row db.requests = ground arith in
      rw (accounts, requests)
        (close-IsExclusive q.id row a x db.accounts db.requests ended m (ground arith) refl refl h)
]

pub take_slot-Exclusive :
    (ctx : Context) (job_id : ℕ) (args : ReserveArgs) (db : Db) {done : Outcome × Db}
    → All (λ r. r.id ≢ ctx.new_id) db.requests
    → take_slot ctx job_id args db ≡ some done
    → Exclusive db
    → Exclusive done.1
unfolding take_slot
take_slot-Exclusive ctx job_id args db {done} fresh took h =
    elim (Option-cases (get_account args.account_id db)) [
      | inl e ↦ absurd (ground arith)
      | inr (a, e) ↦
          let (same, m) = find_sound _ db.accounts e in
          let id : args.account_id ≡ a.id = sym ((==_iff a.id args.account_id).0 same) in
          elim (Bool-cases (is_admitted args ctx.now a)) [
            | inl ok ↦
                let won : reserve_won ctx job_id args a db ≡ done = ground arith in
                rw (← won) (reserve_won-IsExclusive ctx args a db m ok fresh h job_id id)
            | inr busy ↦ absurd (ground arith)
          ]
    ]

pub reserve_update-Exclusive :
    (later : Db → Db) (ctx : Context) (job_id : ℕ) (args : ReserveArgs) (db : Db)
    → ((d : Db) → Exclusive d → Exclusive (later d))
    → All (λ r. r.id ≢ ctx.new_id) db.requests
    → Exclusive db
    → Exclusive (reserve_update later ctx job_id args db).1
unfolding reserve_update
reserve_update-Exclusive later ctx job_id args db keep fresh h =
    elim (Option-cases (take_slot ctx job_id args db)) [
      | inl e ↦ rw (e, reserve_update) (reserve_lost-Exclusive ctx args (later db) (keep db h))
      | inr (done, e) ↦ rw (e, reserve_update) (take_slot-Exclusive ctx job_id args db fresh e h)
    ]

-- The first read creates no request.
existing-fresh :
    (new : ℕ) (a : Account) (digest now : ℕ) (db : Db)
    → All (λ r. r.id ≢ new) db.requests
    → All (λ r. r.id ≢ new) (existing_reservation a digest now db).1.requests
unfolding existing_reservation mark_request_worker_lost record_event
existing-fresh new a digest now db h =
    elim (Option-cases (find (same_digest a.id digest) db.requests)) [
      | inl e ↦ rw (e, existing_reservation) h
      | inr (q, e) ↦
          let other = All-member (λ r. r.id ≢ new) h (find_sound _ db.requests e).1 in
          elim (Bool-cases (is_lapsed now q)) [
            | inl lapsed ↦
                rw (e, existing_reservation)
                  (rw lapsed (
                    All-update (λ r. r.id ≢ new) (λ r. r.id == q.id) (λ _. lost_request now q)
                      (λ _ _ _. other) db.requests h))
            | inr alive ↦ rw (e, existing_reservation) (rw alive h)
          ]
    ]

-- Whatever other transactions commit between the first read and the UPDATE, and between an UPDATE
-- that changed no row and the second read, provided that they keep active requests in their slots
-- and that the former do not use the new identifier, a reservation leaves every active request in
-- the slot of its account.
pub reserve-Exclusive :
    (others later : Db → Db) (ctx : Context) (job_id : ℕ) (args : ReserveArgs) (db : Db)
    → ((d : Db) → Exclusive d → Exclusive (others d))
    → ((d : Db) → Exclusive d → Exclusive (later d))
    → ((d : Db)
        → All (λ r. r.id ≢ ctx.new_id) d.requests
        → All (λ r. r.id ≢ ctx.new_id) (others d).requests)
    → All (λ r. r.id ≢ ctx.new_id) db.requests
    → Exclusive db
    → Exclusive (reserve_sync_request others later ctx job_id args db).1
unfolding reserve_sync_request
reserve-Exclusive others later ctx job_id args db keep keep_later unused fresh h =
    elim (Option-cases (get_account args.account_id db)) [
      | inl e ↦ rw (e, reserve_sync_request) h
      | inr (a, e) ↦
          let read = existing_reservation a args.digest ctx.now db in
          let kept = existing-Exclusive a args.digest ctx.now db (find_sound _ db.accounts e).1 h in
          let still = unused read.1 (existing-fresh ctx.new_id a args.digest ctx.now db fresh) in
          elim (Option-cases read.0) [
            | inl none_yet ↦
                rw (e, reserve_sync_request)
                  (rw none_yet (
                    reserve_update-Exclusive later ctx job_id args (others read.1) keep_later still
                      (keep read.1 kept)))
            | inr (r, replay) ↦ rw (e, reserve_sync_request) (rw replay kept)
          ]
    ]
