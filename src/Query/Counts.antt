-- ===== src/Query/Counts.antt =====
-- How many rows pass a test, after other queries.
use imtegrale.Prelude.{
  ◌+◌, ◌≡◌, refl, Bool, ◌&&◌, List, [], ◌∷◌, ◌++◌, arith, length, if◌then◌else◌,
}
use imtegrale.Query.{select, update}

module _ {ℓ} {A : Type ℓ} (p : A → Bool) where
  pub count-append :
      (xs : List A) (x : A)
      → length (select p (xs ++ x ∷ [])) ≡ length (select p xs) + (if p x then 1 else 0)
  count-append [] x = ground arith
  count-append (y ∷ ys) x = ground (arith, count-append ys x)

  -- A test of selected rows.
  pub count-select :
      (q : A → Bool) (xs : List A)
      → length (select q (select p xs)) ≡ length (select (λ x. p x && q x) xs)
  count-select q [] = refl
  count-select q (x ∷ xs) = ground (arith, count-select q xs)

  -- An UPDATE of columns that the test does not read.
  pub count-update :
      (q : A → Bool) (f : A → A)
      → ((a : A) → p (f a) ≡ p a)
      → (xs : List A) → length (select p (update q f xs)) ≡ length (select p xs)
  count-update q f same [] = refl
  count-update q f same (x ∷ xs) = ground (arith, same x, count-update q f same xs)
