-- ===== src/Runtime/Elsewhere.antt =====
-- The messages of the outbox and all other code leave the queue and the slots sound.
use imtegrale.Prelude.{
  ℕ, ◌≡◌, ◌≢◌, refl, ◌∙◌, inl, inr, Bool, Option, List, [], ◌∷◌, arith, All, All-member, Memᴰ, take,
  Option-cases,
}
use imtegrale.Query.{select, order_by}
use imtegrale.Query.Rows.{All-imp}
use imtegrale.Models.{Db, Account, SyncRequest, NotificationOutbox}
use imtegrale.Events.{record_event}
use imtegrale.Jobs.Outbox.{
  OutboxClaim, claim_outbox, finish_outbox, recover_messages, recover_expired_outbox, next_message,
  message_lease_before, is_lapsed_message,
}
use imtegrale.SyncControl.Slot.{Owns}
use imtegrale.SyncControl.Exclusive.{Exclusive}
use imtegrale.Runtime.{KeepsSlot}
use Prim.Native.String.{String}

-- The tables that the slots and the queue are about are unchanged.
pub record SameTables (db e : Db) : Type 0 where
  pub jobs : e.jobs ≡ db.jobs
  pub accounts : e.accounts ≡ db.accounts
  pub requests : e.requests ≡ db.requests

recover_messages-SameTables :
    (now : ℕ) (messages : List NotificationOutbox) (db : Db)
    → SameTables db (recover_messages now messages db)
unfolding recover_messages record_event
recover_messages-SameTables now [] db = record { jobs = refl; accounts = refl; requests = refl }
recover_messages-SameTables now (m ∷ rest) db =
    let tail = recover_messages-SameTables now rest _ in
    record {
      jobs = tail.jobs ∙ ground arith;
      accounts = tail.accounts ∙ ground arith;
      requests = tail.requests ∙ ground arith;
    }

abbrev lapsed_messages : ℕ → (ℕ → Bool) → Db → List NotificationOutbox
lapsed_messages now locked db =
    take 100 (order_by message_lease_before (select (is_lapsed_message now locked) db.outbox))

pub claim_outbox-SameTables :
    (now worker fresh : ℕ) (locked : ℕ → Bool) (db : Db)
    → SameTables db (claim_outbox now worker fresh locked db).1
unfolding claim_outbox recover_expired_outbox
claim_outbox-SameTables now worker fresh locked db =
    let recovered = recover_expired_outbox now locked db in
    let same = recover_messages-SameTables now (lapsed_messages now locked db) db in
    elim (Option-cases (next_message now locked recovered.outbox)) [
      | inl e ↦ rw (e, claim_outbox) same
      | inr (m, e) ↦
          rw (e, claim_outbox)
            (record { jobs = same.jobs; accounts = same.accounts; requests = same.requests })
    ]

pub finish_outbox-SameTables :
    (claim : OutboxClaim) (success : Bool) (e : Option String) (now : ℕ) (db : Db)
    → SameTables db (finish_outbox claim success e now db).1
unfolding finish_outbox record_event
finish_outbox-SameTables claim success e now db = record {
  jobs = ground arith;
  accounts = ground arith;
  requests = ground arith;
}

module _ (db e : Db) (h : Exclusive db) where
  elsewhere-Owns :
      (r : SyncRequest) → Memᴰ r db.requests → (x : Account) → KeepsSlot db x → Owns r x
  elsewhere-Owns r m x (inl new) k active = absurd (All-member (λ r. r.account_id ≢ x.id) new m k)
  elsewhere-Owns r m x (inr (a, ma, same, slot, until)) k active =
      let (mine, leased) =
        All-member (Owns r) (All-member (λ q. All (Owns q) db.accounts) h m) ma (k ∙ same) active in
      (slot ∙ mine, rw until leased)

  pub elsewhere-Exclusive :
      All (λ r. Memᴰ r db.requests) e.requests → All (KeepsSlot db) e.accounts → Exclusive e
  elsewhere-Exclusive rows accounts =
      All-imp (λ r. Memᴰ r db.requests) (λ r. All (Owns r) e.accounts)
        (λ r m. All-imp (KeepsSlot db) (Owns r) (elsewhere-Owns r m) e.accounts accounts) e.requests
        rows
