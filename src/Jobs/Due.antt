-- ===== src/Jobs/Due.antt =====
-- What the WHERE and ORDER BY clauses of `claim_job` in jobs.py ask for, as statements.
use imtegrale.Prelude.{ℕ, ◌≤◌, ◌<◌, ◌≡◌, ◌↔◌, ◌⊎◌, Bool, true, false, arith}
use imtegrale.Models.{DurableJob, JobKind, JobStatus, kind_eq, job_status_eq}
use imtegrale.Jobs.Lease.{is_claimable, claims_before}

-- The job waits, is due, is of the kind asked for, and no other transaction holds its row.
pub record IsDue (kind : JobKind) (now : ℕ) (locked : ℕ → Bool) (j : DurableJob) : Type 0 where
  pub of_kind : j.kind ≡ kind
  pub waits : j.status ≡ JobStatus.queued
  pub in_time : j.available_at ≤ now
  pub free : locked j.id ≡ false

-- The most urgent priority first, then the earliest due time, then the oldest job.
abbrev pub Precedes : DurableJob → DurableJob → Type 0
Precedes a b =
    (a.priority < b.priority)
    ⊎ ((a.priority ≡ b.priority)
        × ((a.available_at < b.available_at)
            ⊎ ((a.available_at ≡ b.available_at) × (a.created_at ≤ b.created_at))))

kind_eq_iff : (a b : JobKind) → (kind_eq a b ≡ true) ↔ (a ≡ b)
kind_eq_iff JobKind.sync JobKind.sync = ground arith
kind_eq_iff JobKind.sync JobKind.calendar = ground arith
kind_eq_iff JobKind.calendar JobKind.sync = ground arith
kind_eq_iff JobKind.calendar JobKind.calendar = ground arith

is_queued_iff : (s : JobStatus) → (job_status_eq s JobStatus.queued ≡ true) ↔ (s ≡ JobStatus.queued)
is_queued_iff JobStatus.queued = ground arith
is_queued_iff JobStatus.running = ground arith
is_queued_iff JobStatus.succeeded = ground arith
is_queued_iff JobStatus.dead_letter = ground arith

module _ (kind : JobKind) (now : ℕ) (locked : ℕ → Bool) (j : DurableJob) where
  pub is_claimable-IsDue : is_claimable kind now locked j ≡ true → IsDue kind now locked j
  is_claimable-IsDue h = record {
    of_kind = ground (arith, kind_eq_iff j.kind kind);
    waits = ground (arith, is_queued_iff j.status);
    in_time = ground arith;
    free = ground arith;
  }

  pub IsDue-is_claimable : IsDue kind now locked j → is_claimable kind now locked j ≡ true
  IsDue-is_claimable d =
      let a = (kind_eq_iff j.kind kind).1 d.of_kind in
      let b = (is_queued_iff j.status).1 d.waits in
      let c = d.in_time in let e = d.free in ground arith

pub claims_before-Precedes : (a b : DurableJob) → claims_before a b ≡ true → Precedes a b
claims_before-Precedes a b h = ground arith
