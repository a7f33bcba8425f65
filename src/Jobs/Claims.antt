-- ===== src/Jobs/Claims.antt =====
-- What a claim takes from the queue, and what it leaves alone.
use mathlib.Core.Bool.{false≢true}
use imtegrale.Prelude.{
  ℕ, ◌≡◌, refl, sym, ap, ◌∙◌, inl, inr, Bool, true, false, none, some, List, [], ◌∷◌, arith, All,
  Memᴰ, Option-cases, ◌==◌,
}
use imtegrale.Query.{first, find, order_by}
use imtegrale.Query.Rows.{All-imp, All-select, select_passes, All-self, All-both, All-of_select}
use imtegrale.Query.Order.{IsTotalPreorder, first-order_by, All-order_by, All-of_order_by}
use imtegrale.Query.Keys.{find_of_member, find-update_ne, find-update_self, eq_of_key}
use imtegrale.Models.{Db, DurableJob, JobKind}
use imtegrale.Store.{set_job}
use imtegrale.Jobs.Lease.{
  is_expired, recover_expired_jobs, is_claimable, claims_before, claimed_job, claim_of, claim_job,
  next_claimable, JobClaim,
}
use imtegrale.Jobs.Due.{
  IsDue, Precedes, is_claimable-IsDue, IsDue-is_claimable, claims_before-Precedes,
}
use imtegrale.Jobs.Recovery.{IsUniqueJobs, select-recover, recover-IsUnique, find-recover}

-- The order of the queue is total.
pub claims_before-order : IsTotalPreorder claims_before
claims_before-order = record { total = λ x y h. ground arith; trans = λ x y z h k. ground arith }

module _ (kind : JobKind) (now : ℕ) (locked : ℕ → Bool) where
  -- The next job, read before the recovery or after it.
  next-recover :
      (db : Db)
      → IsUniqueJobs db.jobs
      → next_claimable kind now locked (recover_expired_jobs kind now locked db).jobs
        ≡ next_claimable kind now locked db.jobs
  next-recover db u =
      ap (λ rows. first (order_by claims_before rows)) (select-recover kind now locked db u)

  first_sound {κ} :
      (P : DurableJob → Type κ) (jobs : List DurableJob) {j : DurableJob}
      → All P jobs
      → first jobs ≡ some j
      → P j
  first_sound P [] {j} h e = cc
  first_sound P (x ∷ xs) {j} h e = let same : x ≡ j = ground arith in rw (← same) h.0

  -- The next job is a row of the table that may be claimed.
  pub next_sound :
      (jobs : List DurableJob) {j : DurableJob}
      → next_claimable kind now locked jobs ≡ some j
      → Memᴰ j jobs × (is_claimable kind now locked j ≡ true)
  next_sound jobs {j} e =
      first_sound _ _
        (All-order_by _ _ _
          (All-both _ _ _ (All-select _ _ jobs (All-self jobs)) (select_passes _ jobs)))
        e

  none_left {κ} : {A : Type κ} (xs : List A) → first xs ≡ none → All (λ _. ⊥) xs
  none_left [] e = tt
  none_left (x ∷ xs) e = cc

  -- No job is claimable where the queue has no next one.
  next_none :
      (jobs : List DurableJob)
      → next_claimable kind now locked jobs ≡ none
      → All (λ j. IsDue kind now locked j → ⊥) jobs
  next_none jobs e =
      All-imp _ _ (λ z h d. h (IsDue-is_claimable kind now locked z d)) jobs
        (All-of_select _ _ jobs (All-of_order_by _ claims_before _ (none_left _ e)))

  -- The next job stands before every job that may be claimed.
  next_least :
      (jobs : List DurableJob) {j : DurableJob}
      → next_claimable kind now locked jobs ≡ some j
      → All (λ z. IsDue kind now locked z → Precedes j z) jobs
  next_least jobs {j} e =
      All-imp _ _ (λ z h d. claims_before-Precedes j z (h (IsDue-is_claimable kind now locked z d)))
        jobs (All-of_select _ _ jobs (first-order_by claims_before claims_before-order j _ e))

  module _ (worker fresh : ℕ) (db : Db) where
    abbrev recovered : Db
    recovered = recover_expired_jobs kind now locked db

    claimed_id : (j : DurableJob) → (claimed_job kind now worker j).id ≡ j.id
    unfolding claimed_job
    claimed_id j = refl

    claim_some :
        (j : DurableJob)
        → next_claimable kind now locked recovered.jobs ≡ some j
        → claim_job kind now worker fresh locked db ≡ (
          some (claim_of kind worker fresh (claimed_job kind now worker j)),
          record recovered { jobs = set_job j.id (claimed_job kind now worker j) recovered.jobs },
        )
    unfolding claim_job
    claim_some j e = rw (e, claim_job)

    claim_nothing :
        next_claimable kind now locked recovered.jobs ≡ none
        → claim_job kind now worker fresh locked db ≡ (none, recovered)
    unfolding claim_job
    claim_nothing e = rw (e, claim_job)

    -- What a successful claim did: `j` is the row that it took.
    pub record HasTaken (c : JobClaim) (j : DurableJob) : Type 0 where
      pub row : Memᴰ j db.jobs
      pub due : IsDue kind now locked j
      pub least : All (λ z. IsDue kind now locked z → Precedes j z) db.jobs
      pub claim : c ≡ claim_of kind worker fresh (claimed_job kind now worker j)
      pub stored :
          find (λ x. x.id == j.id) (claim_job kind now worker fresh locked db).1.jobs
          ≡ some (claimed_job kind now worker j)

    module _ (u : IsUniqueJobs db.jobs) where
      -- A claim takes a row that was queued, due, of the kind asked for and not locked; no such
      -- row stands before it by priority, due time and creation; afterwards the row runs under the
      -- claiming worker, with one more attempt and a fresh lease.
      pub claim_takes_first :
          {c : JobClaim}
          → (claim_job kind now worker fresh locked db).0 ≡ some c
          → (j : DurableJob) × HasTaken c j
      claim_takes_first {c} got =
          elim (Option-cases (next_claimable kind now locked recovered.jobs)) [
            | inl e ↦
                absurd (let no : none ≡ some c = sym (ap (λ r. r.0) (claim_nothing e)) ∙ got in cc)
            | inr (j, e) ↦
                let e' = sym (next-recover db u) ∙ e in
                let done = claim_some j e in
                let at = next_sound recovered.jobs e in
                let here = next_sound db.jobs e' in
                (
                  j,
                  record {
                    row = here.0;
                    due = is_claimable-IsDue kind now locked j here.1;
                    least = next_least db.jobs e';
                    claim =
                        let both : some c
                            ≡ some (claim_of kind worker fresh (claimed_job kind now worker j)) =
                          sym got ∙ ap (λ r. r.0) done in
                        cc;
                    stored = rw done (
                        find-update_self (λ x. x.id) j.id (claimed_job kind now worker j)
                          (claimed_id j) recovered.jobs
                          (find_of_member (λ x. x.id) (recover-IsUnique kind now locked db u)
                            at.0));
                  },
                )
          ]

      -- When nothing is claimed, no row of the kind was queued, due and unlocked.
      pub claim_none_only_if_idle :
          (claim_job kind now worker fresh locked db).0 ≡ none
          → All (λ z. IsDue kind now locked z → ⊥) db.jobs
      claim_none_only_if_idle nothing =
          elim (Option-cases (next_claimable kind now locked db.jobs)) [
            | inl e ↦ next_none db.jobs e
            | inr (j, e) ↦ absurd (
                let done = claim_some j (next-recover db u ∙ e) in
                let no : some _ ≡ none = sym (ap (λ r. r.0) done) ∙ nothing in cc)
          ]

      -- A claim leaves every other row alone: one whose lease still runs, one that is locked, of
      -- another kind, not yet due, or that has ended.
      pub claim_keeps_others :
          (j : DurableJob)
          → Memᴰ j db.jobs
          → is_expired kind now locked j ≡ false
          → is_claimable kind now locked j ≡ false
          → find (λ x. x.id == j.id) (claim_job kind now worker fresh locked db).1.jobs ≡ some j
      claim_keeps_others j m alive unfit =
          elim (Option-cases (next_claimable kind now locked recovered.jobs)) [
            | inl e ↦ rw (claim_nothing e) kept
            | inr (k, e) ↦ rw (claim_some k e) (
                find-update_ne (λ x. x.id) k.id (claimed_job kind now worker k) (claimed_id k) j.id
                  recovered.jobs (λ same. other k e same)
                ∙ kept)
          ]
        where
          kept : find (λ x. x.id == j.id) recovered.jobs ≡ some j
          kept = find-recover kind now locked db j u m alive ∙ find_of_member (λ x. x.id) u m

          other :
              (k : DurableJob)
              → next_claimable kind now locked recovered.jobs ≡ some k
              → j.id ≡ k.id
              → ⊥
          other k e same =
              let (at, fit) = next_sound db.jobs (sym (next-recover db u) ∙ e) in
              let one : j ≡ k = eq_of_key (λ x. x.id) u m at same in
              let fit' : is_claimable kind now locked j ≡ true = rw one fit in
              absurd (false≢true (sym unfit ∙ fit'))
