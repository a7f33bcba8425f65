-- ===== src/Runtime/Renewing.antt =====
-- Renewing the lease of a request keeps the slots.
use imtegrale.Prelude.{
  ℕ, ◌≡◌, refl, sym, inl, inr, true, false, List, arith, All, All-member, Memᴰ, ◌==◌, ==_iff,
  Bool-cases, Option-cases, if-both,
}
use imtegrale.Query.Rows.{All-update_to, All-update, All-self, find_sound}
use imtegrale.Models.{Db, Account, SyncRequest, is_active}
use imtegrale.Store.{get_request, get_account, set_request, set_account}
use imtegrale.Jobs.Lease.{JobClaim}
use imtegrale.Jobs.Renewal.{
  renew_sync_request, renew_request, renew_active, disabled_request, renewed_request,
  renewed_account,
}
use imtegrale.SyncControl.Slot.{Owns, IsExclusive, inactive-Owns, Owns-set_account}
use imtegrale.SyncControl.Exclusive.{Exclusive}

module _ (now : ℕ) (r : SyncRequest) (a : Account) (same : r.account_id ≡ a.id) where
  renewed-Owns :
      (accounts : List Account)
      → All (Owns (renewed_request now r)) (set_account a.id (renewed_account now r a) accounts)
  renewed-Owns accounts =
      All-update_to (λ b. Memᴰ b accounts) (Owns (renewed_request now r)) (λ b. b.id == a.id)
        (λ _. renewed_account now r a) (λ b e _ k active. (refl, ground arith))
        (λ b e _ k active. absurd (ground (arith, e, k, same))) accounts (All-self accounts)

  other-Owns :
      (q : SyncRequest)
      → (q.id == r.id) ≡ false
      → is_active r.status ≡ true
      → Owns r a
      → Owns q a
      → Owns q (renewed_account now r a)
  other-Owns q other active mine yours k alive =
      let (slot, _) = mine same active in
      let (claimed, _) = yours k alive in absurd (ground (arith, other, slot, claimed))

  renewed-IsExclusive :
      (accounts : List Account) (requests : List SyncRequest)
      → is_active r.status ≡ true
      → Memᴰ a accounts
      → Memᴰ r requests
      → IsExclusive accounts requests
      → IsExclusive
          (set_account a.id (renewed_account now r a) accounts)
          (set_request r.id (renewed_request now r) requests)
  renewed-IsExclusive accounts requests active ma mr h =
      let mine = All-member (Owns r) (All-member (λ q. All (Owns q) accounts) h mr) ma in
      All-update_to (λ q. All (Owns q) accounts) _ (λ q. q.id == r.id) (λ _. renewed_request now r)
        (λ _ _ _. renewed-Owns accounts)
        (λ q other owns.
          Owns-set_account q a.id (renewed_account now r a) accounts
            (other-Owns q other active mine (All-member (Owns q) owns ma)) owns)
        requests h

disabled-Exclusive :
    (now : ℕ) (r : SyncRequest) (db : Db)
    → Exclusive db
    → IsExclusive db.accounts (set_request r.id (disabled_request now r) db.requests)
disabled-Exclusive now r db h =
    All-update (λ q. All (Owns q) db.accounts) (λ q. q.id == r.id) (λ _. disabled_request now r)
      (λ _ _ _. inactive-Owns (disabled_request now r) db.accounts refl) db.requests h

renew_active-Exclusive :
    (now : ℕ) (r : SyncRequest) (db : Db)
    → is_active r.status ≡ true
    → Memᴰ r db.requests
    → Exclusive db
    → Exclusive (renew_active now r (get_account r.account_id db) db)
unfolding renew_active
renew_active-Exclusive now r db active mr h = elim (Option-cases (get_account r.account_id db)) [
  | inl e ↦ rw (e, renew_active) (disabled-Exclusive now r db h)
  | inr (a, e) ↦
      let (keyed, ma) = find_sound (λ a. a.id == r.account_id) db.accounts e in
      rw (e, renew_active)
        (if-both Exclusive a.is_disabled (disabled-Exclusive now r db h) (
          renewed-IsExclusive now r a (sym ((==_iff a.id r.account_id).0 keyed)) db.accounts
            db.requests active ma mr h))
]

renew_request-Exclusive :
    (now request_id : ℕ) (db : Db) → Exclusive db → Exclusive (renew_request now request_id db).1
unfolding renew_request
renew_request-Exclusive now request_id db h = elim (Option-cases (get_request request_id db)) [
  | inl e ↦ rw (e, renew_request) h
  | inr (r, e) ↦
      let (_, mr) = find_sound (λ r. r.id == request_id) db.requests e in
      elim (Bool-cases (is_active r.status)) [
        | inl t ↦ rw (e, renew_request) (rw t (renew_active-Exclusive now r db t mr h))
        | inr t ↦ rw (e, renew_request) (rw t h)
      ]
]

-- A renewal keeps every active request in the slot of its account.
pub renew-Exclusive :
    (now : ℕ) (claim : JobClaim) (db : Db)
    → Exclusive db
    → Exclusive (renew_sync_request now claim db).1
unfolding renew_sync_request
renew-Exclusive now claim db h = elim (Option-cases claim.payload.request_id) [
  | inl e ↦ rw (e, renew_sync_request) h
  | inr (id, e) ↦ rw (e, renew_sync_request) (renew_request-Exclusive now id db h)
]

-- It leaves the queue alone.
pub jobs-renew :
    (now : ℕ) (claim : JobClaim) (db : Db) → (renew_sync_request now claim db).1.jobs ≡ db.jobs
unfolding renew_sync_request renew_request renew_active
jobs-renew now claim db = ground arith
