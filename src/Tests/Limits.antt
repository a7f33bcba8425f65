-- ===== src/Tests/Limits.antt =====
-- The login limiter with two keys at most, one of them at its limit.
use imtegrale.Prelude.{◌≡◌, refl, true, [], ◌∷◌, arith}
use imtegrale.Limiter.{Limiter, too_many, check, sweep}
use imtegrale.Limiter.Window.{IsBounded, check-IsBounded}

abbrev limiter : Limiter
limiter = record {
  limit = 2;
  window_seconds = 900;
  max_keys = 2;
  buckets =
      record { key = 1; attempts = 10 ∷ 20 ∷ [] } ∷ record { key = 2; attempts = 5 ∷ [] } ∷ [];
  last_sweep = 0;
}

limiter-IsBounded : IsBounded limiter
limiter-IsBounded = record { attempts = (omega arith, (omega arith, tt)); keys = omega arith }

-- The third attempt on key 1 is refused until the first leaves the window.
third_refused : (check 30 1 true limiter).0 ≡ too_many 880
unfolding check sweep
third_refused = refl

check-IsBounded_example : IsBounded (check 30 3 true limiter).1
check-IsBounded_example = check-IsBounded 30 3 true limiter (omega arith) limiter-IsBounded
