-- ===== src/Jobs/Drain.antt =====
-- The outbox drains: every message is sent a bounded number of times.
use imtegrale.Prelude.{
  ℕ, ◌+◌, ◌≡◌, ◌≤◌, ◌<◌, refl, sym, ap, inl, inr, Bool, true, Option, none, some, List, [], ◌∷◌,
  arith, All, All-take, Memᴰ, Bool-cases, Option-cases, ◌==◌,
}
use imtegrale.Query.{find, first, select, order_by}
use imtegrale.Query.Rows.{All-imp, All-both, All-self, All-select, select_passes, find_sound}
use imtegrale.Query.Order.{All-order_by}
use imtegrale.Query.Keys.{IsUnique, eq_of_key}
use imtegrale.Models.{Db, NotificationOutbox}
use imtegrale.Jobs.Outbox.{
  recover_expired_outbox, is_lapsed_message, message_lease_before, claimed_message, next_message,
  is_sendable, sends_before, OutboxClaim, claim_outbox, finished_message, finish_outbox, is_held,
}
use imtegrale.Jobs.Weight.{
  left, weight, CanSend, IsSoundOutbox, Agrees, weight-set, set-IsSoundOutbox,
  recover_messages_sound, store_message-outbox,
}
use Prim.Native.String.{String}

-- The rows of a table agree with it.
members_agree :
    (xs : List NotificationOutbox)
    → IsUnique (λ m. m.id) xs
    → All (λ r. Memᴰ r xs × All (Agrees r) xs) xs
members_agree xs u =
    All-imp (λ r. Memᴰ r xs) (λ r. Memᴰ r xs × All (Agrees r) xs)
      (λ r mr. (
        mr,
        All-imp (λ x. Memᴰ x xs) (Agrees r) (λ x mx k. ap left (eq_of_key (λ m. m.id) u mx mr k)) xs
            (All-self xs),
      ))
      xs (All-self xs)

recover_expired_sound :
    (now : ℕ) (locked : ℕ → Bool) (db : Db)
    → IsSoundOutbox db.outbox
    → IsSoundOutbox (recover_expired_outbox now locked db).outbox
      × (weight (recover_expired_outbox now locked db).outbox ≡ weight db.outbox)
unfolding recover_expired_outbox
recover_expired_sound now locked db s =
    let test = is_lapsed_message now locked in
    recover_messages_sound now _ db
      (All-take (λ r. All (Agrees r) db.outbox) 100 _
        (All-order_by (λ r. All (Agrees r) db.outbox) message_lease_before (select test db.outbox)
          (All-select (λ r. All (Agrees r) db.outbox) test db.outbox
            (All-imp _ (λ r. All (Agrees r) db.outbox) (λ r h. h.1) db.outbox
              (members_agree db.outbox s.unique)))))
      s

claimed_facts :
    (now worker : ℕ) (m : NotificationOutbox)
    → m.attempts < m.max_attempts
    → let row = claimed_message now worker m in
      (row.id ≡ m.id) × (left row + 1 ≡ left m) × CanSend row
unfolding claimed_message
claimed_facts now worker m h = (refl, omega (arith, h), (λ e. absurd (ground (arith, e))))

first_holds :
    (P : NotificationOutbox → Type 0) (xs : List NotificationOutbox) {m : NotificationOutbox}
    → All P xs
    → first xs ≡ some m
    → P m
first_holds P [] h e = absurd (ground (arith, e))
first_holds P (x ∷ xs) {m} h e = let same : x ≡ m = ground arith in rw (sym same) h.0

-- The message that a claim takes is in the table and waits.
next_message_facts :
    (now : ℕ) (locked : ℕ → Bool) (xs : List NotificationOutbox) (m : NotificationOutbox)
    → IsSoundOutbox xs
    → next_message now locked xs ≡ some m
    → Memᴰ m xs × (m.attempts < m.max_attempts)
next_message_facts now locked xs m s h =
    let test = is_sendable now locked in
    let rows = All-both (λ m. Memᴰ m xs) CanSend xs (All-self xs) s.sendable in
    first_holds (λ m. Memᴰ m xs × (m.attempts < m.max_attempts))
      (order_by sends_before (select test xs))
      (All-order_by (λ m. Memᴰ m xs × (m.attempts < m.max_attempts)) sends_before (select test xs)
        (All-imp (λ m. (Memᴰ m xs × CanSend m) × (test m ≡ true)) _
          (λ m h. (h.0.0, h.0.1 (ground (arith, h.1)))) (select test xs)
          (All-both (λ m. Memᴰ m xs × CanSend m) (λ m. test m ≡ true) (select test xs)
            (All-select (λ m. Memᴰ m xs × CanSend m) test xs rows) (select_passes test xs))))
      h

abbrev pub sent : Option OutboxClaim → ℕ
sent none = 0
sent (some _) = 1

claim_outbox_sound :
    (now worker fresh : ℕ) (locked : ℕ → Bool) (db : Db)
    → IsSoundOutbox db.outbox
    → let (answer, after) = claim_outbox now worker fresh locked db in
      IsSoundOutbox after.outbox × (weight after.outbox + sent answer ≡ weight db.outbox)
unfolding claim_outbox
claim_outbox_sound now worker fresh locked db s =
    let recovered = recover_expired_outbox now locked db in
    let (sound, weighs) = recover_expired_sound now locked db s in
    elim (Option-cases (next_message now locked recovered.outbox)) [
      | inl e ↦ rw (e, claim_outbox) (sound, omega (arith, weighs))
      | inr (m, e) ↦
          let (member, can) = next_message_facts now locked recovered.outbox m sound e in
          let row = claimed_message now worker m in
          let (same, fewer, sendable) = claimed_facts now worker m can in
          let writes = weight-set row m recovered.outbox same sound.unique member in
          rw (e, claim_outbox)
            (
              set-IsSoundOutbox row recovered.outbox sendable sound,
              omega (arith, writes, fewer, weighs),
            )
    ]

finished_facts :
    (success : Bool) (e : Option String) (now : ℕ) (m : NotificationOutbox)
    → let row = finished_message success e now m in
      (row.id ≡ m.id) × (left row ≡ left m) × CanSend row
unfolding finished_message
finished_facts success e now m = ground arith

finish_outbox_sound :
    (claim : OutboxClaim) (success : Bool) (e : Option String) (now : ℕ) (db : Db)
    → IsSoundOutbox db.outbox
    → let after = (finish_outbox claim success e now db).1 in
      IsSoundOutbox after.outbox × (weight after.outbox ≡ weight db.outbox)
unfolding finish_outbox
finish_outbox_sound claim success error now db s =
    elim (Option-cases (find (λ m. m.id == claim.id) db.outbox)) [
      | inl e ↦ rw (e, finish_outbox) (s, refl)
      | inr (m, e) ↦ elim (Bool-cases (is_held claim m)) [
        | inr t ↦ rw (e, finish_outbox) (rw t (s, refl))
        | inl t ↦
            let (_, member) = find_sound (λ m. m.id == claim.id) db.outbox e in
            let row = finished_message success error now m in
            let (same, equal, can) = finished_facts success error now m in
            let writes = weight-set row m db.outbox same s.unique member in
            rw (e, finish_outbox)
              (rw (t, store_message-outbox)
                (set-IsSoundOutbox row db.outbox can s, omega (arith, writes, equal)))
      ]
    ]

-- Claims and reports of the outbox in any order, with the number of messages that claims returned.
pub data Run : ℕ → Db → Db → Type 0 where
  idle : {db : Db} → Run 0 db db
  claims :
      {n : ℕ} {a b : Db} (now worker fresh : ℕ) (locked : ℕ → Bool)
      → Run n a b
      → Run
          (n + sent (claim_outbox now worker fresh locked b).0)
          a
          (claim_outbox now worker fresh locked b).1
  reports :
      {n : ℕ} {a b : Db} (claim : OutboxClaim) (success : Bool) (e : Option String) (now : ℕ)
      → Run n a b
      → Run n a (finish_outbox claim success e now b).1

run_sound :
    {n : ℕ} {a b : Db}
    → IsSoundOutbox a.outbox
    → Run n a b
    → IsSoundOutbox b.outbox × (n + weight b.outbox ≡ weight a.outbox)
run_sound s idle = (s, omega arith)
run_sound s (claims {n} {b = b} now worker fresh locked r) =
    let (sound, weighs) = run_sound s r in
    let (after, lighter) = claim_outbox_sound now worker fresh locked b sound in
    (after, omega (arith, weighs, lighter))
run_sound s (reports {n} {b = b} claim success e now r) =
    let (sound, weighs) = run_sound s r in
    let (after, same) = finish_outbox_sound claim success e now b sound in
    (after, omega (arith, weighs, same))

-- From messages with unique identifiers, those that wait having a sending left, the claims of any
-- run together return at most as many messages as the sendings that all messages had left.
pub sendings_bounded : {n : ℕ} {a b : Db} → IsSoundOutbox a.outbox → Run n a b → n ≤ weight a.outbox
sendings_bounded {b = b} s r = let (_, weighs) = run_sound s r in omega (arith, weighs)
