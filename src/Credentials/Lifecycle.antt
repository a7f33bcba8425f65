-- ===== src/Credentials/Lifecycle.antt =====
-- The operations on credentials as steps, and the form that every row keeps.
use imtegrale.Prelude.{
  ℕ, ◌+◌, ◌≡◌, ◌⊎◌, ◌++◌, refl, inl, inr, Bool, true, Option, none, some, List, [], ◌∷◌, arith, All,
  All-append, All-member, Memᴰ, Bool-cases, Option-cases, is_none, not,
}
use imtegrale.Query.{update, find}
use imtegrale.Query.Rows.{All-update}
use imtegrale.Models.{Account}
use imtegrale.Credentials.{
  SyncCredential, State, Sealer, Sealed, Enrolment, Answer, done, Failure, failed, RevocationReason,
  credential_metadata_is_valid, lock_account, lock_credential, of_account, is_active, is_revoked,
  new_credential, replaced, next_generation,
}
use imtegrale.Credentials.Operations.{
  enroll_verified_credential, enroll_locked, stored, flushed, revoke_sync_credential, locked_by,
  revoke_locked_credential, invalidate_sync_credential, invalidate_locked,
  revoke_all_sync_credentials, revoked_row, invalid_row,
}
use Prim.Native.String.{String}

-- The operations, with whatever arguments.
pub data Step (sealer : Sealer) : State → State → Type 0 where
  enrolled :
      {s : State} (args : Enrolment) (id now : ℕ)
      → Step sealer s (enroll_verified_credential sealer args id now s).1
  revoked :
      {s : State} (account : ℕ) (reason : RevocationReason) (actor : String) (now : ℕ)
      (locked : Option Account)
      → Step sealer s (revoke_sync_credential account reason actor now locked s).1
  invalidated :
      {s : State} (account : ℕ) (actor : String) (now : ℕ)
      → Step sealer s (invalidate_sync_credential account actor now s).1
  revoked_all :
      {s : State} (reason : RevocationReason) (actor : String) (now : ℕ)
      → Step sealer s (revoke_all_sync_credentials reason actor now s).1

pub data Reach (sealer : Sealer) : State → State → Type 0 where
  here : {s : State} → Reach sealer s s
  next : {s t u : State} → Reach sealer s t → Step sealer t u → Reach sealer s u

Answer-cases {ℓ} :
    {A : Type ℓ} (x : Answer A) → ((f : Failure) × (x ≡ failed f)) ⊎ ((a : A) × (x ≡ done a))
Answer-cases (failed f) = inl (f, refl)
Answer-cases (done a) = inr (a, refl)

-- What an operation does to the table: nothing, one insertion, or an update that counts a
-- generation and keeps the rows valid.
pub data Effect (sealer : Sealer) (before : List SyncCredential)
    : List SyncCredential → Type 0 where
  kept : Effect sealer before before
  inserted :
      (c : SyncCredential)
      → find (of_account c.account_id) before ≡ none
      → credential_metadata_is_valid sealer c ≡ true
      → Effect sealer before (before ++ c ∷ [])
  changed :
      (q : SyncCredential → Bool) (f : SyncCredential → SyncCredential)
      → ((a : SyncCredential) → (f a).account_id ≡ a.account_id)
      → ((a : SyncCredential) → (f a).credential_generation ≡ a.credential_generation + 1)
      → ((a : SyncCredential)
          → credential_metadata_is_valid sealer a ≡ true
          → credential_metadata_is_valid sealer (f a) ≡ true)
      → Effect sealer before (update q f before)

module _ (sealer : Sealer) where
  abbrev pub HasEffect : State → State → Type 0
  HasEffect s t = Effect sealer s.credentials t.credentials

  stored_effect :
      (args : Enrolment) (id now : ℕ) (metadata : Sealed) (s : State)
      → credential_metadata_is_valid sealer (flushed args id now metadata s) ≡ true
      → HasEffect s (stored args id now metadata s)
  stored_effect args id now metadata s ok =
      elim (Option-cases (lock_credential args.account_id s)) [
        | inl e ↦
            rw (e, stored)
              (inserted (new_credential args id now metadata) e (rw (e, flushed) at ok))
        | inr (c, e) ↦
            let row : credential_metadata_is_valid sealer (replaced args now metadata c) ≡ true =
              rw (e, flushed) at ok in
            rw (e, stored)
              (changed (of_account args.account_id) (replaced args now metadata) (λ _. refl)
                (λ _. refl) (λ a v. ground (arith, row, v)))
      ]

  locked_effect :
      (args : Enrolment) (id now : ℕ) (s : State)
      → HasEffect s (enroll_locked sealer args id now s).1
  unfolding enroll_locked
  locked_effect args id now s =
      let generation = next_generation (lock_credential args.account_id s) in
      elim (Option-cases (
        sealer.seal args.verified_password args.account_id (s.imt_username args.account_id)
          generation args.consent_version)) [
            | inl e ↦ rw (e, enroll_locked) kept
            | inr (metadata, e) ↦
                elim (Bool-cases
                  (credential_metadata_is_valid sealer (flushed args id now metadata s))) [
                    | inl ok ↦
                        rw (e, enroll_locked) (rw ok (stored_effect args id now metadata s ok))
                    | inr bad ↦ rw (e, enroll_locked) (rw bad kept)
                  ]
          ]

  enroll_effect :
      (args : Enrolment) (id now : ℕ) (s : State)
      → HasEffect s (enroll_verified_credential sealer args id now s).1
  unfolding enroll_verified_credential
  enroll_effect args id now s =
      elim (Answer-cases (lock_account args.account_id (some args.expected_login) s)) [
        | inl (f, e) ↦ rw (e, enroll_verified_credential) kept
        | inr (a, e) ↦ rw (e, enroll_verified_credential) (locked_effect args id now s)
      ]

  revoke_effect :
      (reason : RevocationReason) (actor : String) (now : ℕ) (c : Option SyncCredential) (s : State)
      → HasEffect s (revoke_locked_credential reason actor now c s).1
  unfolding revoke_locked_credential
  revoke_effect reason actor now none s = kept
  revoke_effect reason actor now (some c) s = elim (Bool-cases (is_revoked c)) [
    | inl e ↦ rw e kept
    | inr e ↦ rw e (
        changed (of_account c.account_id) (revoked_row reason now) (λ _. refl) (λ _. refl)
          (λ a v. ground (arith, v)))
  ]

  invalidate_effect :
      (account : ℕ) (actor : String) (now : ℕ) (s : State)
      → HasEffect s (invalidate_locked account actor now s).1
  invalidate_effect account actor now s = elim (Option-cases (lock_credential account s)) [
    | inl e ↦ rw (e, invalidate_locked) kept
    | inr (c, e) ↦ elim (Bool-cases (is_active c)) [
      | inl t ↦
          rw (e, invalidate_locked)
            (rw t (
              changed (of_account account) (invalid_row now) (λ _. refl) (λ _. refl)
                (λ a v. ground (arith, v))))
      | inr t ↦ rw (e, invalidate_locked) (rw t kept)
    ]
  ]

  pub Step-effect : {s t : State} → Step sealer s t → HasEffect s t
  unfolding revoke_sync_credential invalidate_sync_credential revoke_all_sync_credentials
  Step-effect {s} (enrolled args id now) = enroll_effect args id now s
  Step-effect {s} (revoked account reason actor now locked) =
      elim (Answer-cases (locked_by locked account s)) [
        | inl (f, e) ↦ rw (e, revoke_sync_credential) kept
        | inr (a, e) ↦
            rw (e, revoke_sync_credential)
              (revoke_effect reason actor now (lock_credential account s) s)
      ]
  Step-effect {s} (invalidated account actor now) =
      elim (Answer-cases (lock_account account none s)) [
        | inl (f, e) ↦ rw (e, invalidate_sync_credential) kept
        | inr (a, e) ↦ rw (e, invalidate_sync_credential) (invalidate_effect account actor now s)
      ]
  Step-effect {s} (revoked_all reason actor now) =
      changed is_active (revoked_row reason now) (λ _. refl) (λ _. refl) (λ a v. ground (arith, v))

  -- Every row is valid: an active one has its envelope and its consent, another has neither an
  -- envelope nor a key.
  abbrev pub AreValid : State → Type 0
  AreValid s = All (λ c. credential_metadata_is_valid sealer c ≡ true) s.credentials

  Effect-valid :
      {xs ys : List SyncCredential}
      → Effect sealer xs ys
      → All (λ c. credential_metadata_is_valid sealer c ≡ true) xs
      → All (λ c. credential_metadata_is_valid sealer c ≡ true) ys
  Effect-valid kept h = h
  Effect-valid {xs} (inserted c absent valid) h = All-append _ xs (c ∷ []) h (valid, tt)
  Effect-valid {xs} (changed q f account counts valid) h =
      All-update _ q f (λ a _ v. valid a v) xs h

  pub Step-AreValid : {s t : State} → Step sealer s t → AreValid s → AreValid t
  Step-AreValid step h = Effect-valid (Step-effect step) h

  pub Reach-AreValid : {s t : State} → Reach sealer s t → AreValid s → AreValid t
  Reach-AreValid here h = h
  Reach-AreValid (next r step) h = Step-AreValid step (Reach-AreValid r h)

-- From rows that are valid, whatever enrolments, revocations and invalidations follow, a row has an
-- envelope exactly while it is active.
pub envelope_iff_active :
    {sealer : Sealer} {s t : State} {c : SyncCredential}
    → AreValid sealer s
    → Reach sealer s t
    → Memᴰ c t.credentials
    → is_active c ≡ not (is_none c.encrypted_envelope)
envelope_iff_active {sealer} h path m =
    let valid =
      All-member (λ c. credential_metadata_is_valid sealer c ≡ true) (Reach-AreValid sealer path h)
        m in
    ground (arith, valid)
