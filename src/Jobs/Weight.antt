-- ===== src/Jobs/Weight.antt =====
-- The sendings that the messages of the outbox have left, and how writes and recoveries keep them.
use imtegrale.Prelude.{
  ℕ, ◌+◌, ◌-◌, ◌≡◌, ◌≢◌, ◌<◌, refl, sym, ◌∙◌, ap, inl, inr, true, false, List, [], ◌∷◌, arith, All,
  All-member, Memᴰ, Bool-cases, ◌==◌, ==_iff,
}
use imtegrale.Query.Rows.{All-update, All-update_to, All-imp, All-both}
use imtegrale.Query.Keys.{IsUnique, update-IsUnique}
use imtegrale.Models.{Db, NotificationOutbox, OutboxStatus, outbox_status_eq}
use imtegrale.Events.{record_event}
use imtegrale.Store.{set_message}
use imtegrale.Jobs.Outbox.{recovered_message, store_message, recover_messages}
use Prim.Native.String.{String}

-- The sendings that a message has left.
abbrev pub left : NotificationOutbox → ℕ
left m = m.max_attempts - m.attempts

abbrev pub weight : List NotificationOutbox → ℕ
weight [] = 0
weight (m ∷ rest) = left m + weight rest

-- A message that waits has a sending left.
abbrev pub CanSend : NotificationOutbox → Type 0
CanSend m = outbox_status_eq m.status OutboxStatus.pending ≡ true → m.attempts < m.max_attempts

pub record IsSoundOutbox (outbox : List NotificationOutbox) : Type 0 where
  pub unique : IsUnique (λ m. m.id) outbox
  pub sendable : All CanSend outbox

-- Rows of one identifier with the same count.
abbrev pub Agrees : NotificationOutbox → NotificationOutbox → Type 0
Agrees r x = x.id ≡ r.id → left x ≡ left r

weight-set_same :
    (row : NotificationOutbox) (xs : List NotificationOutbox)
    → All (Agrees row) xs
    → weight (set_message row.id row xs) ≡ weight xs
weight-set_same row [] h = refl
weight-set_same row (x ∷ xs) h =
    let rest = weight-set_same row xs h.1 in
    elim (Bool-cases (x.id == row.id)) [
      | inl e ↦ let same = h.0 ((==_iff x.id row.id).0 e) in rw e (omega (arith, rest, same))
      | inr e ↦ rw e (omega (arith, rest))
    ]

weight-set_absent :
    (row : NotificationOutbox) (xs : List NotificationOutbox)
    → All (λ x. x.id ≢ row.id) xs
    → weight (set_message row.id row xs) ≡ weight xs
weight-set_absent row xs h =
    weight-set_same row xs
      (All-imp (λ x. x.id ≢ row.id) (Agrees row) (λ x no e. absurd (no e)) xs h)

-- Writing the row of one message.
pub weight-set :
    (row m : NotificationOutbox) (xs : List NotificationOutbox)
    → row.id ≡ m.id
    → IsUnique (λ m. m.id) xs
    → Memᴰ m xs
    → weight (set_message row.id row xs) + left m ≡ weight xs + left row
weight-set row m xs same u (Memᴰ.head {x = x} {xs = rest} p) =
    let k : x.id ≡ row.id = ap (λ (m : NotificationOutbox). m.id) (sym p) ∙ sym same in
    let e : (x.id == row.id) ≡ true = (==_iff x.id row.id).1 k in
    let l : left x ≡ left m = ap left (sym p) in
    let others =
      weight-set_absent row rest
        (All-imp (λ y. y.id ≢ x.id) (λ y. y.id ≢ row.id) (λ y no q. no (q ∙ sym k)) rest u.0) in
    rw e (omega (arith, others, l))
weight-set row m xs same u (Memᴰ.tail {x = x} {xs = rest} n) =
    let other : m.id ≢ x.id = All-member (λ y. y.id ≢ x.id) u.0 n in
    let e : (x.id == row.id) ≡ false = ground (arith, other, same) in
    let step = weight-set row m rest same u.1 n in rw e (omega (arith, step))

pub store_message-outbox :
    (row : NotificationOutbox) (error : String) (db : Db)
    → (store_message row error db).outbox ≡ set_message row.id row db.outbox
unfolding record_event
store_message-outbox row error db =
    elim (Bool-cases (outbox_status_eq row.status OutboxStatus.dead_letter)) [
      | inl e ↦ rw e refl
      | inr e ↦ rw e refl
    ]

-- Writing a row that can be sent when it waits.
pub set-IsSoundOutbox :
    (row : NotificationOutbox) (xs : List NotificationOutbox)
    → CanSend row
    → IsSoundOutbox xs
    → IsSoundOutbox (set_message row.id row xs)
set-IsSoundOutbox row xs can h = record {
  unique =
      update-IsUnique (λ m. m.id) (λ m. m.id == row.id) (λ _. row)
        (λ a e. sym ((==_iff a.id row.id).0 e)) xs h.unique;
  sendable = All-update CanSend (λ m. m.id == row.id) (λ _. row) (λ _ _ _. can) xs h.sendable;
}

recovered_facts :
    (now : ℕ) (m : NotificationOutbox)
    → let row = recovered_message now m in (row.id ≡ m.id) × (left row ≡ left m) × CanSend row
unfolding recovered_message
recovered_facts now m = ground arith

Agrees-set :
    (r m row : NotificationOutbox) (xs : List NotificationOutbox)
    → row.id ≡ m.id
    → left row ≡ left m
    → All (Agrees m) xs
    → All (Agrees r) xs
    → All (Agrees r) (set_message row.id row xs)
Agrees-set r m row xs same equal hm hr =
    All-update_to (λ x. Agrees m x × Agrees r x) (Agrees r) (λ x. x.id == row.id) (λ _. row)
      (λ x e both k.
        let id = (==_iff x.id row.id).0 e in
        let a = both.0 (id ∙ same) in let b = both.1 (id ∙ k) in omega (arith, a, b, equal))
      (λ x e both. both.1) xs (All-both (Agrees m) (Agrees r) xs hm hr)

pub recover_messages_sound :
    (now : ℕ) (ms : List NotificationOutbox) (db : Db)
    → All (λ r. All (Agrees r) db.outbox) ms
    → IsSoundOutbox db.outbox
    → IsSoundOutbox (recover_messages now ms db).outbox
      × (weight (recover_messages now ms db).outbox ≡ weight db.outbox)
unfolding recover_messages
recover_messages_sound now [] db h s = (s, refl)
recover_messages_sound now (m ∷ ms) db h s =
    let row = recovered_message now m in
    let (same, equal, can) = recovered_facts now m in
    let after = store_message row "OUTBOX_LEASE_EXHAUSTED" db in
    let outbox = store_message-outbox row "OUTBOX_LEASE_EXHAUSTED" db in
    let (sound, weighs) =
      recover_messages_sound now ms after
        (rw outbox (
          All-imp (λ r. All (Agrees r) db.outbox)
            (λ r. All (Agrees r) (set_message row.id row db.outbox))
            (λ r k. Agrees-set r m row db.outbox same equal h.0 k) ms h.1))
        (rw outbox (set-IsSoundOutbox row db.outbox can s)) in
    (
      sound,
      weighs
          ∙ rw outbox (
              weight-set_same row db.outbox (
                All-imp (Agrees m) (Agrees row) (λ x a k. a (k ∙ same) ∙ sym equal) db.outbox h.0)),
    )
