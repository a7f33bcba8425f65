-- ===== src/Limiter/Window.antt =====
-- The bounds that `LoginRateLimiter` of security.py keeps.
use imtegrale.Prelude.{
  ℕ, zero, suc, ◌+◌, ◌-◌, ◌≤◌, ◌<◌, ◌≡◌, min, ltb, All-member, inl, inr, Bool, true, false, not,
  some, List, [], ◌∷◌, ◌++◌, All, All-append, length, length-append, length-drop, drop, arith, leb,
  Bool-cases, Option-cases, if◌then◌else◌,
}
use imtegrale.Query.{find, delete}
use imtegrale.Query.Rows.{All-delete, find_sound}
use imtegrale.Limiter.{
  Bucket, Limiter, dropped, keep_bucket, swept_buckets, sweep, has_key, evicted, judged, check,
}

-- No key has more attempts than the limit, and no more keys are tracked than allowed.
pub record IsBounded (limiter : Limiter) : Type 0 where
  pub attempts : All (λ b. length b.attempts ≤ limiter.limit) limiter.buckets
  pub keys : length limiter.buckets ≤ limiter.max_keys

length-dropped : (now window : ℕ) (ts : List ℕ) → length (dropped now window ts) ≤ length ts
length-dropped now window [] = omega arith
length-dropped now window (t ∷ rest) = ground (arith, length-dropped now window rest)

All-drop {ℓ κ} : {A : Type ℓ} (P : A → Type κ) (n : ℕ) (xs : List A) → All P xs → All P (drop n xs)
All-drop P zero xs h = h
All-drop P (suc n) [] h = tt
All-drop P (suc n) (x ∷ xs) h = All-drop P n xs h.1

length-delete : (key : ℕ) (bs : List Bucket) → length (delete (has_key key) bs) ≤ length bs
length-delete key [] = omega arith
length-delete key (b ∷ rest) = ground (arith, length-delete key rest)

length-delete_found :
    (key : ℕ) (bs : List Bucket) {b : Bucket}
    → find (has_key key) bs ≡ some b
    → length (delete (has_key key) bs) + 1 ≤ length bs
length-delete_found key [] h = cc
length-delete_found key (x ∷ rest) {b} h = elim (Bool-cases (has_key key x)) [
  | inl e ↦ rw e (let r = length-delete key rest in omega (arith, r))
  | inr e ↦ rw e (let r = length-delete_found key rest {b = b} (rw e at h) in omega (arith, r))
]

module _ (limit : ℕ) where
  abbrev AllFew : List Bucket → Type 0
  AllFew = All (λ b. length b.attempts ≤ limit)

  keep_bucket-AllFew :
      (key : ℕ) (ts : List ℕ) (others : List Bucket)
      → length ts ≤ limit
      → AllFew others
      → AllFew (keep_bucket key ts others)
        × (length (keep_bucket key ts others) ≤ length others + 1)
  keep_bucket-AllFew key [] others few all = (all, omega arith)
  keep_bucket-AllFew key (t ∷ ts) others few all = ((few, all), omega arith)

  swept_bounded :
      (now window : ℕ) (bs : List Bucket)
      → AllFew bs
      → AllFew (swept_buckets now window bs) × (length (swept_buckets now window bs) ≤ length bs)
  swept_bounded now window [] h = (tt, omega arith)
  swept_bounded now window (b ∷ rest) h =
      let (all, count) = swept_bounded now window rest h.1 in
      let less = length-dropped now window b.attempts in
      let here = h.0 in
      let (all', count') =
        keep_bucket-AllFew b.key (dropped now window b.attempts) (swept_buckets now window rest)
          (omega (arith, less, here)) all in
      (all', omega (arith, count, count'))

module _ (limiter : Limiter) (key : ℕ) (others : List Bucket) where
  put_back-IsBounded :
      (ts : List ℕ)
      → length ts ≤ limiter.limit
      → All (λ b. length b.attempts ≤ limiter.limit) others
      → length others + 1 ≤ limiter.max_keys
      → IsBounded (record limiter { buckets = others ++ record { key = key; attempts = ts } ∷ [] })
  put_back-IsBounded ts few all room = record {
    attempts = All-append _ others _ all (few, tt);
    keys = omega (arith, room, length-append others (record { key = key; attempts = ts } ∷ []));
  }

  judged-IsBounded :
      (now : ℕ) (consume : Bool) (ts : List ℕ)
      → length ts ≤ limiter.limit
      → All (λ b. length b.attempts ≤ limiter.limit) others
      → length others + 1 ≤ limiter.max_keys
      → IsBounded (judged now key consume ts others limiter).1
  judged-IsBounded now consume ts few all room = elim (Bool-cases (leb limiter.limit (length ts))) [
    | inl e ↦ rw e (put_back-IsBounded ts few all room)
    | inr e ↦
        rw e (put_back-IsBounded (if consume then ts ++ now ∷ [] else ts) (more consume e) all room)
  ]
    where
      more :
          (c : Bool)
          → leb limiter.limit (length ts) ≡ false
          → length (if c then ts ++ now ∷ [] else ts) ≤ limiter.limit
      more true e = ground (arith, length-append ts (now ∷ []))
      more false e = few

sweep-IsBounded : (now : ℕ) (limiter : Limiter) → IsBounded limiter → IsBounded (sweep now limiter)
unfolding sweep
sweep-IsBounded now limiter h =
    elim (Bool-cases (ltb now (limiter.last_sweep + min 60 limiter.window_seconds))) [
      | inl e ↦ rw e h
      | inr e ↦
          let (all, few) =
            swept_bounded limiter.limit now limiter.window_seconds limiter.buckets h.attempts in
          let keys = h.keys in rw e (record { attempts = all; keys = omega (arith, few, keys) })
    ]

sweep_same :
    (now : ℕ) (limiter : Limiter)
    → ((sweep now limiter).limit ≡ limiter.limit)
      × ((sweep now limiter).max_keys ≡ limiter.max_keys)
unfolding sweep
sweep_same now limiter = ground arith

-- Whatever is asked and however it is answered, a check leaves no key with more accepted attempts
-- than the limit, and no more keys tracked than allowed, where at least one may be.
pub check-IsBounded :
    (now key : ℕ) (consume : Bool) (limiter : Limiter)
    → 0 < limiter.max_keys
    → IsBounded limiter
    → IsBounded (check now key consume limiter).1
unfolding check
check-IsBounded now key consume limiter some_key h =
    let swept = sweep now limiter in
    let b = sweep-IsBounded now limiter h in
    let same = (sweep_same now limiter).1 in
    elim (Option-cases (find (has_key key) swept.buckets)) [
      | inl e ↦
          rw (e, check)
            (elim (Bool-cases (not consume)) [
              | inl c ↦ rw c b
              | inr c ↦ rw c (
                  judged-IsBounded swept key (evicted swept.max_keys swept.buckets) now consume []
                    (omega arith) (All-drop _ _ swept.buckets b.attempts)
                    (let n =
                        length-drop (length swept.buckets + 1 - swept.max_keys) swept.buckets in
                      let keys = b.keys in omega (arith, n, keys, same, some_key)))
            ])
      | inr (bucket, e) ↦
          rw (e, check)
            (let (_, member) = find_sound (has_key key) swept.buckets e in
              let few : length bucket.attempts ≤ swept.limit =
                All-member (λ x. length x.attempts ≤ swept.limit) b.attempts member in
              let less = length-dropped now swept.window_seconds bucket.attempts in
              let gone = length-delete_found key swept.buckets e in
              let keys = b.keys in
              judged-IsBounded swept key (delete (has_key key) swept.buckets) now consume
                (dropped now swept.window_seconds bucket.attempts) (omega (arith, few, less))
                (All-delete _ _ swept.buckets b.attempts) (omega (arith, gone, keys)))
    ]
