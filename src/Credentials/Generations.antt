-- ===== src/Credentials/Generations.antt =====
-- The generation of a credential names its contents, and the emergency stop leaves nothing active.
use imtegrale.Prelude.{
  ℕ, ◌≡◌, ◌<◌, ◌⊎◌, refl, sym, ◌∙◌, inl, inr, Bool, false, some, List, arith, All, Memᴰ, Bool-cases,
  ==_iff,
}
use imtegrale.Query.{find}
use imtegrale.Query.Rows.{All-update_to, All-self}
use imtegrale.Query.Finds.{find-append_apart, find-update_same}
use imtegrale.Models.{Account}
use imtegrale.Credentials.{SyncCredential, State, Sealer, RevocationReason, of_account, is_active}
use imtegrale.Credentials.Operations.{
  revoke_all_sync_credentials, revoked_row, is_autonomous_mode, fallen_back,
}
use imtegrale.Credentials.Lifecycle.{
  Reach, here, next, Effect, kept, inserted, changed, Step-effect,
}
use Prim.Native.String.{String}

-- The later row of an account is the same, or of a later generation.
abbrev pub Succeeds : SyncCredential → SyncCredential → Type 0
Succeeds c d = (d ≡ c) ⊎ (c.credential_generation < d.credential_generation)

abbrev pub HasSuccessor : ℕ → SyncCredential → List SyncCredential → Type 0
HasSuccessor account c rows =
    (d : SyncCredential) × (find (of_account account) rows ≡ some d) × Succeeds c d

Succeeds-trans : (a b c : SyncCredential) → Succeeds a b → Succeeds b c → Succeeds a c
Succeeds-trans a b c (inl p) (inl q) = inl (q ∙ p)
Succeeds-trans a b c (inl p) (inr q) = inr (rw (sym p) q)
Succeeds-trans a b c (inr p) (inl q) = inr (rw q p)
Succeeds-trans a b c (inr p) (inr q) = inr (omega (arith, p, q))

Effect-successor :
    {sealer : Sealer} {xs ys : List SyncCredential} (account : ℕ) (c : SyncCredential)
    → Effect sealer xs ys
    → find (of_account account) xs ≡ some c
    → HasSuccessor account c ys
Effect-successor account c kept found = (c, found, inl refl)
Effect-successor {xs = xs} account c (inserted new absent valid) found =
    elim (Bool-cases (of_account account new)) [
      | inl e ↦
          let same = (==_iff new.account_id account).0 e in
          absurd (let gone = rw same at absent in ground (arith, gone, found))
      | inr e ↦ (c, find-append_apart (of_account account) xs new e ∙ found, inl refl)
    ]
Effect-successor {xs = xs} account c (changed q f same counts valid) found =
    let after = find-update_same (of_account account) q f (λ a. rw (same a) refl) xs found in
    elim (Bool-cases (q c)) [
      | inl e ↦ (f c, rw e at after, inr (let n = counts c in omega (arith, n)))
      | inr e ↦ (c, rw e at after, inl refl)
    ]

-- However enrolments, revocations and invalidations follow, the credential of an account is never
-- lost, and its row is the same as before unless its generation has grown.
pub generation_names_row :
    {sealer : Sealer} {s t : State} (account : ℕ) (c : SyncCredential)
    → Reach sealer s t
    → find (of_account account) s.credentials ≡ some c
    → HasSuccessor account c t.credentials
generation_names_row account c here found = (c, found, inl refl)
generation_names_row {sealer} account c (next r step) found =
    let (d, later, first) = generation_names_row account c r found in
    let (e, last, second) = Effect-successor account d (Step-effect sealer step) later in
    (e, last, Succeeds-trans c d e first second)

falls_back :
    (session_exists : ℕ → Bool) (now : ℕ) (a : Account)
    → is_autonomous_mode (fallen_back session_exists now a) ≡ false
falls_back session_exists now a = elim (Bool-cases (session_exists a.id)) [
  | inl e ↦ rw e refl
  | inr e ↦ rw e refl
]

-- After the emergency stop no credential is active and no account is in autonomous mode.
pub revoke_all-stops :
    (reason : RevocationReason) (actor : String) (now : ℕ) (s : State)
    → let t = (revoke_all_sync_credentials reason actor now s).1 in
      All (λ c. is_active c ≡ false) t.credentials
      × All (λ a. is_autonomous_mode a ≡ false) t.db.accounts
unfolding revoke_all_sync_credentials
revoke_all-stops reason actor now s = (
  All-update_to (λ c. Memᴰ c s.credentials) (λ c. is_active c ≡ false) is_active
      (revoked_row reason now) (λ c _ _. refl) (λ c e _. e) s.credentials (All-self s.credentials),
  All-update_to (λ a. Memᴰ a s.db.accounts) (λ a. is_autonomous_mode a ≡ false) is_autonomous_mode
      (fallen_back s.session_exists now) (λ a _ _. falls_back s.session_exists now a) (λ a e _. e)
      s.db.accounts (All-self s.db.accounts),
)
