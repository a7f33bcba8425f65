-- ===== src/SyncControl/Takeover.antt =====
-- A reservation that wins the slot leaves no other request of the account active.
use imtegrale.Prelude.{ℕ, ◌≡◌, ◌≢◌, refl, ◌∙◌, Bool, true, some, List, [], ◌∷◌, arith, All, ◌==◌}
use imtegrale.Query.{any}
use imtegrale.Query.Rows.{All-update, All-update_to}
use imtegrale.Models.{Db, Account, SyncRequest, is_active}
use imtegrale.Events.{record_event}
use imtegrale.Store.{set_request, set_account}
use imtegrale.SyncControl.{lost_request, lost_account, mark_request_worker_lost, recover_each}
use imtegrale.SyncControl.Slot.{Owns, inactive-Owns, Owns-set_account}

-- The slot as the winner set it.
abbrev pub HoldsSlot : ℕ → ℕ → Account → Type 0
HoldsSlot new until a = (a.sync_active_request_id ≡ some new) × (a.sync_active_until ≡ some until)

abbrev pub listed : List SyncRequest → SyncRequest → Bool
listed pending r = any (λ s. s.id == r.id) pending

module _ (acct new until now : ℕ) where
  -- While `pending` is left to recover: an active request of the account is pending, and a
  -- request of another account holds its slot.
  abbrev pub Waits : List SyncRequest → List Account → SyncRequest → Type 0
  Waits pending accounts r =
      (r.account_id ≡ acct → is_active r.status ≡ true → listed pending r ≡ true)
      × (r.account_id ≢ acct → All (Owns r) accounts)

  abbrev pub Slots : List Account → Type 0
  Slots accounts = All (λ a. a.id ≡ acct → HoldsSlot new until a) accounts

  lost-HoldsSlot :
      (k : ℕ) (a : Account)
      → k ≢ new
      → HoldsSlot new until a
      → HoldsSlot new until (lost_account now k a)
  lost-HoldsSlot k a other h = ground arith

  lost_account_id : (k : ℕ) (a : Account) → (lost_account now k a).id ≡ a.id
  lost_account_id k a = ground arith

  Slots-set :
      (id : ℕ) (x : Account) (accounts : List Account)
      → HoldsSlot new until x
      → Slots accounts
      → Slots (set_account id x accounts)
  Slots-set id x accounts h =
      All-update (λ a. a.id ≡ acct → HoldsSlot new until a) (λ a. a.id == id) (λ _. x)
        (λ _ _ _ _. h) accounts

  pub other_account :
      (id : ℕ) (r : SyncRequest) (x : Account) (accounts : List Account)
      → x.id ≡ acct
      → r.account_id ≢ acct
      → All (Owns r) accounts
      → All (Owns r) (set_account id x accounts)
  other_account id r x accounts e ne = Owns-set_account r id x accounts (λ q _. absurd (ne (q ∙ e)))

  Waits-step :
      (id : ℕ) (q : SyncRequest) (rest : List SyncRequest) (x : Account) (accounts : List Account)
      (requests : List SyncRequest)
      → x.id ≡ acct
      → All (Waits (q ∷ rest) accounts) requests
      → All
          (Waits rest (set_account id x accounts))
          (set_request q.id (lost_request now q) requests)
  Waits-step id q rest x accounts requests e =
      All-update_to (Waits (q ∷ rest) accounts) (Waits rest (set_account id x accounts))
        (λ r. r.id == q.id) (λ _. lost_request now q)
        (λ r _ _. ((λ _ active. cc), λ _. inactive-Owns (lost_request now q) _ refl))
        (λ r miss w. (
          (λ mine active. let l = w.0 mine active in ground arith),
          λ ne. other_account id r x accounts e ne (w.1 ne),
        ))
        requests

  pub record Recovering (pending : List SyncRequest) (account : Account) (db : Db) : Type 0 where
    pub its_id : account.id ≡ acct
    pub held : HoldsSlot new until account
    pub slots : Slots db.accounts
    pub waiting : All (Waits pending db.accounts) db.requests

  pub recover_each-Recovering :
      (pending : List SyncRequest) (account : Account) (db : Db)
      → All (λ s. s.id ≢ new) pending
      → Recovering pending account db
      → let (account', db') = recover_each now pending account db in Recovering [] account' db'
  unfolding recover_each mark_request_worker_lost record_event
  recover_each-Recovering [] account db fresh h = h
  recover_each-Recovering (q ∷ rest) account db fresh h =
      let x = lost_account now q.id account in
      let e : x.id ≡ acct = lost_account_id q.id account ∙ h.its_id in
      let held : HoldsSlot new until x = lost-HoldsSlot q.id account fresh.0 h.held in
      recover_each-Recovering rest x (mark_request_worker_lost account q now db).1 fresh.1 (record {
        its_id = e;
        held = held;
        slots = Slots-set account.id x db.accounts held h.slots;
        waiting = Waits-step account.id q rest x db.accounts db.requests e h.waiting;
      })
