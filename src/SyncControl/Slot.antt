-- ===== src/SyncControl/Slot.antt =====
-- The synchronisation slot of an account: who holds it, and how closing a request keeps that.
use imtegrale.Prelude.{
  ℕ, ◌≡◌, sym, ◌∙◌, true, false, some, List, [], ◌∷◌, arith, All, All-member, Memᴰ, ◌==◌, leb,
  holds,
}
use imtegrale.Query.Rows.{All-update_to}
use imtegrale.Models.{Account, SyncRequest, is_active}
use imtegrale.Store.{set_request, set_account, release_slot}

-- If the request is active, its account's slot names it, for at least the request's lease.
abbrev pub Owns : SyncRequest → Account → Type 0
Owns r a =
    r.account_id ≡ a.id
    → is_active r.status ≡ true
    → (a.sync_active_request_id ≡ some r.id)
      × (holds (λ t. leb r.lease_expires_at t) a.sync_active_until ≡ true)

-- Every active request of the table holds the slot of its account.
abbrev pub IsExclusive : List Account → List SyncRequest → Type 0
IsExclusive accounts requests = All (λ r. All (Owns r) accounts) requests

-- A request that is not active owns no slot, whatever the account.
pub inactive-Owns :
    (r : SyncRequest) (accounts : List Account) → is_active r.status ≡ false → All (Owns r) accounts
inactive-Owns r [] h = tt
inactive-Owns r (a ∷ rest) h = ((λ _ active. cc), inactive-Owns r rest h)

-- What a change of one account's row needs, for a request to keep its slot.
pub Owns-set_account :
    (r : SyncRequest) (id : ℕ) (x : Account) (accounts : List Account)
    → Owns r x
    → All (Owns r) accounts
    → All (Owns r) (set_account id x accounts)
Owns-set_account r id x accounts h =
    All-update_to (Owns r) (Owns r) _ (λ _. x) (λ _ _ _. h) (λ _ _ k. k) accounts

release_keeps :
    (r : SyncRequest) (k : ℕ) (a x : Account)
    → x.id ≡ a.id
    → x.sync_active_request_id ≡ (release_slot k a).sync_active_request_id
    → x.sync_active_until ≡ (release_slot k a).sync_active_until
    → (r.id == k) ≡ false
    → Owns r a
    → Owns r x
release_keeps r k a x same slot until other own = ground arith

-- Writing a request that is no longer active, and releasing the slot if it held it, keeps the
-- slots of all other requests.
pub close-IsExclusive :
    (k : ℕ) (row : SyncRequest) (a x : Account) (accounts : List Account)
    (requests : List SyncRequest)
    → is_active row.status ≡ false
    → Memᴰ a accounts
    → x.id ≡ a.id
    → x.sync_active_request_id ≡ (release_slot k a).sync_active_request_id
    → x.sync_active_until ≡ (release_slot k a).sync_active_until
    → IsExclusive accounts requests
    → IsExclusive (set_account a.id x accounts) (set_request k row requests)
close-IsExclusive k row a x accounts requests closed m same slot until =
    All-update_to (λ r. All (Owns r) accounts) _ _ (λ _. row) (λ _ _ _. inactive-Owns row _ closed)
      (λ r other own.
        Owns-set_account r a.id x accounts
          (release_keeps r k a x same slot until other (All-member (Owns r) own m)) own)
      requests

-- Two active requests of one account are one.
pub one_active :
    {accounts : List Account} {requests : List SyncRequest} {a : Account} {r s : SyncRequest}
    → IsExclusive accounts requests
    → Memᴰ a accounts
    → Memᴰ r requests
    → Memᴰ s requests
    → r.account_id ≡ a.id
    → s.account_id ≡ a.id
    → is_active r.status ≡ true
    → is_active s.status ≡ true
    → r.id ≡ s.id
one_active {accounts} {a = a} {r = r} {s = s} h ma mr ms ra sa ar as_active =
    let own_r = All-member (Owns r) (All-member (λ q. All (Owns q) accounts) h mr) ma ra ar in
    let own_s =
      All-member (Owns s) (All-member (λ q. All (Owns q) accounts) h ms) ma sa as_active in
    let both : some r.id ≡ some s.id = sym own_r.0 ∙ own_s.0 in cc
