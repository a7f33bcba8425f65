-- ===== src/Limiter.antt =====
-- `LoginRateLimiter` of backend/app/security.py, each method one step under its lock. The monotonic
-- clock and the windows are counted in one unit; a test of `now - window` is written as a sum.
pub mod Window
use imtegrale.Prelude.{
  ℕ, ◌+◌, ◌-◌, max, min, Bool, true, false, not, ◌&&◌, Option, none, some, List, [], ◌∷◌, ◌++◌,
  length, drop, ltb, leb, ◌==◌, if◌then◌else◌,
}
use imtegrale.Query.{find, delete}

-- A key and the instants of its accepted attempts, oldest first.
pub record Bucket : Type 0 where
  pub key : ℕ
  pub attempts : List ℕ

-- The state of a limiter; the buckets stand in the order of the OrderedDict, oldest use first.
pub record Limiter : Type 0 where
  pub limit : ℕ
  pub window_seconds : ℕ
  pub max_keys : ℕ
  pub buckets : List Bucket
  pub last_sweep : ℕ

-- `while attempts and attempts[0] <= now - window: attempts.popleft()`.
abbrev pub dropped : ℕ → ℕ → List ℕ → List ℕ
dropped now window [] = []
dropped now window (t ∷ rest) =
    let later = dropped now window rest in if leb (t + window) now then later else t ∷ rest

-- A key without attempts is forgotten.
abbrev pub keep_bucket : ℕ → List ℕ → List Bucket → List Bucket
keep_bucket key [] others = others
keep_bucket key (t ∷ ts) others = record { key = key; attempts = t ∷ ts } ∷ others

abbrev pub swept_buckets : ℕ → ℕ → List Bucket → List Bucket
swept_buckets now window [] = []
swept_buckets now window (b ∷ rest) =
    keep_bucket b.key (dropped now window b.attempts) (swept_buckets now window rest)

-- `_sweep`.
unfoldable pub sweep : ℕ → Limiter → Limiter
sweep now limiter =
    if ltb now (limiter.last_sweep + min 60 limiter.window_seconds)
    then limiter
    else record limiter {
      buckets = swept_buckets now limiter.window_seconds limiter.buckets;
      last_sweep = now;
    }

abbrev pub has_key : ℕ → Bucket → Bool
has_key key b = b.key == key

-- What `check` answers: it returns, or raises 429 with the seconds to wait.
pub data Verdict : Type 0 where
  allowed : Verdict
  too_many : ℕ → Verdict

-- `while len(self._attempts) >= self.max_keys: self._attempts.popitem(last=False)`; on an empty
-- dictionary, with `max_keys` zero, the source raises KeyError.
abbrev pub evicted : ℕ → List Bucket → List Bucket
evicted max_keys buckets = drop (length buckets + 1 - max_keys) buckets

abbrev head_or : ℕ → List ℕ → ℕ
head_or now [] = now
head_or now (t ∷ _) = t

-- The end of `check`, with the attempts of the key that are still in the window.
abbrev pub judged : ℕ → ℕ → Bool → List ℕ → List Bucket → Limiter → Verdict × Limiter
judged now key consume attempts others limiter =
    let with_attempts = λ (ts : List ℕ). record limiter {
      buckets = others ++ record { key = key; attempts = ts } ∷ [];
    } in
    if leb limiter.limit (length attempts)
    then (
      too_many (max 1 (head_or now attempts + limiter.window_seconds - now)),
      with_attempts attempts,
    )
    else (allowed, with_attempts (if consume then attempts ++ now ∷ [] else attempts))

-- `check`: `move_to_end` puts the bucket of the key last.
unfoldable pub check : ℕ → ℕ → Bool → Limiter → Verdict × Limiter
unfolding sweep
check now key consume limiter =
    let swept = sweep now limiter in
    elim (find (has_key key) swept.buckets) [
      | none ↦
          if not consume
          then (allowed, swept)
          else judged now key consume [] (evicted swept.max_keys swept.buckets) swept
      | some b ↦
          judged now key consume (dropped now swept.window_seconds b.attempts)
            (delete (has_key key) swept.buckets) swept
    ]

-- `reset`.
abbrev pub reset_key : ℕ → Limiter → Limiter
reset_key key limiter = record limiter { buckets = delete (has_key key) limiter.buckets }
