-- ===== src/Query/Selects.antt =====
-- Queries that do not reach the rows that a test selects.
use imtegrale.Prelude.{
  ◌≡◌, refl, ap, inl, inr, Bool, true, false, List, [], ◌∷◌, ◌++◌, arith, All, Bool-cases,
}
use imtegrale.Query.{select, update, delete}

module _ {ℓ} {A : Type ℓ} (p : A → Bool) where
  pub select-append_apart :
      (xs : List A) (x : A) → p x ≡ false → select p (xs ++ x ∷ []) ≡ select p xs
  select-append_apart [] x e = rw e refl
  select-append_apart (y ∷ ys) x e = ground (arith, select-append_apart ys x e)

  pub select-update_apart :
      (q : A → Bool) (f : A → A)
      → ((a : A) → q a ≡ true → (p a ≡ false) × (p (f a) ≡ false))
      → (xs : List A) → select p (update q f xs) ≡ select p xs
  select-update_apart q f apart [] = refl
  select-update_apart q f apart (x ∷ xs) = elim (Bool-cases (q x)) [
    | inl e ↦
        let (before, after) = apart x e in rw (e, before, after) (select-update_apart q f apart xs)
    | inr e ↦ rw e (ground (arith, select-update_apart q f apart xs))
  ]

  pub select-delete_apart :
      (q : A → Bool) (xs : List A)
      → All (λ a. p a ≡ true → q a ≡ false) xs
      → select p (delete q xs) ≡ select p xs
  select-delete_apart q [] h = refl
  select-delete_apart q (x ∷ xs) h = elim (Bool-cases (p x)) [
    | inl e ↦ rw (h.0 e, e) (ap (λ rest. x ∷ rest) (select-delete_apart q xs h.1))
    | inr e ↦ ground (arith, select-delete_apart q xs h.1)
  ]
