-- ===== src/SyncControl/Admission.antt =====
-- The winner of the slot is the only active request of its account.
use mathlib.Core.Bool.{false≢true}
use native.Mathlib.Decide.{ℕ_discrete}
use imtegrale.Prelude.{
  ℕ, ◌+◌, ◌≡◌, ◌≢◌, refl, sym, ◌∙◌, inl, inr, Bool, true, some, ◌&&◌, List, [], ◌∷◌, ◌++◌, arith,
  All, All-member, All-append, Memᴰ, Bool-cases, Option-cases, ◌==◌, ==_iff, ==_refl,
}
use imtegrale.Query.{select}
use imtegrale.Query.Rows.{
  All-select, All-update_to, All-both, All-imp, All-delete, All-self, any_of_select,
}
use imtegrale.Models.{Db, Account, SyncRequest, is_active, seconds}
use imtegrale.Events.{record_event}
use imtegrale.Store.{Context, set_account}
use imtegrale.Jobs.{enqueue_sync_job}
use imtegrale.SyncControl.{recover_expired_requests, is_lapsed, sync_lease_seconds}
use imtegrale.SyncControl.Reserve.{
  ReserveArgs, is_admitted, admitted_account, new_request, insert_request, reserve_won,
  prune_sync_requests,
}
use imtegrale.SyncControl.Slot.{Owns, IsExclusive, inactive-Owns}
use imtegrale.SyncControl.Takeover.{
  HoldsSlot, Waits, Slots, Recovering, recover_each-Recovering, other_account,
}

-- An admitted account's current holder has no lease left.
admitted-is_lapsed :
    (args : ReserveArgs) (now : ℕ) (a : Account) (r : SyncRequest)
    → is_admitted args now a ≡ true
    → r.account_id ≡ a.id
    → is_active r.status ≡ true
    → Owns r a
    → (r.account_id == a.id && is_lapsed now r) ≡ true
unfolding is_admitted
admitted-is_lapsed args now a r ok mine active own =
    let (slot, long) = own mine active in ground arith

pub enqueue-tables :
    (ctx : Context) (r : SyncRequest) (db : Db)
    → let db' = (enqueue_sync_job ctx r db).1 in
      (db'.accounts ≡ db.accounts) × (db'.requests ≡ db.requests) × (db'.outbox ≡ db.outbox)
unfolding enqueue_sync_job
enqueue-tables ctx r db = ground arith

-- What the insertion of a request does to the tables, when it succeeds.
insert_request_lem :
    (ctx : Context) (job_id : ℕ) (args : ReserveArgs) (db done : Db)
    → insert_request ctx job_id args db ≡ some done
    → (done.accounts ≡ db.accounts)
      × (done.requests
          ≡ prune_sync_requests args.account_id (db.requests ++ new_request ctx args ∷ []))
unfolding insert_request record_event
insert_request_lem ctx job_id args db done e = ground (
  arith,
  enqueue-tables (record ctx { new_id = job_id }) (new_request ctx args)
      (record db { requests = db.requests ++ new_request ctx args ∷ [] }),
)

module _ (ctx : Context) (args : ReserveArgs) (a : Account) (db : Db) (m : Memᴰ a db.accounts)
    (ok : is_admitted args ctx.now a ≡ true) (fresh : All (λ r. r.id ≢ ctx.new_id) db.requests)
    (h : IsExclusive db.accounts db.requests) where
  abbrev until : ℕ
  until = ctx.now + seconds sync_lease_seconds

  abbrev taken : Db
  taken = record db { accounts = set_account a.id (admitted_account ctx a) db.accounts }

  abbrev mine : SyncRequest → Bool
  mine r = r.account_id == a.id && is_lapsed ctx.now r

  first-Slots : Slots a.id ctx.new_id until ctx.now taken.accounts
  first-Slots =
      All-update_to (λ _. Unit {0}) (λ x. x.id ≡ a.id → HoldsSlot ctx.new_id until x)
        (λ x. x.id == a.id) (λ _. admitted_account ctx a) (λ _ _ _ _. (refl, refl))
        (λ x miss _ e. absurd (false≢true (sym miss ∙ (==_iff x.id a.id).1 e))) db.accounts
        (All-imp _ _ (λ _ _. tt) db.accounts (All-self db.accounts))

  first-Waits :
      All (Waits a.id ctx.new_id until ctx.now (select mine db.requests) taken.accounts) db.requests
  first-Waits =
      All-imp _ _
        (λ r w. (
          (λ e active.
              w.1 (admitted-is_lapsed args ctx.now a r ok e active (All-member (Owns r) w.0 m))),
          λ ne.
              other_account a.id ctx.new_id until ctx.now a.id r (admitted_account ctx a)
                db.accounts refl ne w.0,
        ))
        db.requests
        (All-both _ _ db.requests h
          (any_of_select mine (λ s r. s.id == r.id) (λ r. ==_refl r.id) db.requests))

  recovered-Recovering :
      let (account, db') = recover_expired_requests (admitted_account ctx a) ctx.now taken in
      Recovering a.id ctx.new_id until ctx.now [] account db'
  unfolding recover_expired_requests
  recovered-Recovering =
      recover_each-Recovering a.id ctx.new_id until ctx.now (select mine db.requests)
        (admitted_account ctx a) taken (All-select _ mine db.requests fresh)
        (record { its_id = refl; held = (refl, refl); slots = first-Slots; waiting = first-Waits })

  settled :
      (accounts : List Account) (r : SyncRequest)
      → Waits a.id ctx.new_id until ctx.now [] accounts r
      → All (Owns r) accounts
  settled accounts r w = elim (ℕ_discrete r.account_id a.id) [
    | no ne ↦ w.1 ne
    | yes e ↦ elim (Bool-cases (is_active r.status)) [
      | inl active ↦ absurd (false≢true (w.0 e active))
      | inr closed ↦ inactive-Owns r accounts closed
    ]
  ]

  new-Owns :
      (accounts : List Account)
      → args.account_id ≡ a.id
      → Slots a.id ctx.new_id until ctx.now accounts
      → All (Owns (new_request ctx args)) accounts
  new-Owns accounts same =
      All-imp _ _ (λ x s e _. let (slot, long) = s (sym e ∙ same) in (slot, rw long (ground arith)))
        accounts

  settled_db : Db
  settled_db = (recover_expired_requests (admitted_account ctx a) ctx.now taken).1

  inserted-IsExclusive :
      (job_id : ℕ) (done : Db)
      → args.account_id ≡ a.id
      → insert_request ctx job_id args settled_db ≡ some done
      → IsExclusive done.accounts done.requests
  unfolding settled_db prune_sync_requests
  inserted-IsExclusive job_id done same e =
      let (accounts, requests) = insert_request_lem ctx job_id args settled_db done e in
      let all = recovered-Recovering in
      rw (accounts, requests)
        (All-delete _ _ _ (
          All-append (λ r. All (Owns r) settled_db.accounts) settled_db.requests
            (new_request ctx args ∷ [])
            (All-imp _ _ (settled settled_db.accounts) settled_db.requests all.waiting)
            (new-Owns settled_db.accounts same all.slots, tt)))

  -- After a won reservation every active request still holds its slot.
  pub reserve_won-IsExclusive :
      (job_id : ℕ)
      → args.account_id ≡ a.id
      → let db' = (reserve_won ctx job_id args a db).1 in IsExclusive db'.accounts db'.requests
  unfolding reserve_won settled_db
  reserve_won-IsExclusive job_id same =
      elim (Option-cases (insert_request ctx job_id args settled_db)) [
        | inl e ↦ rw (e, reserve_won) h
        | inr (done, e) ↦ rw (e, reserve_won) (inserted-IsExclusive job_id done same e)
      ]
