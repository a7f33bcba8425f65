-- ===== src/Query/Finds.antt =====
-- What a primary lookup finds after another query, by any test.
use imtegrale.Prelude.{
  ◌≡◌, refl, inl, inr, Bool, true, false, none, some, List, [], ◌∷◌, ◌++◌, arith, Bool-cases,
  if◌then◌else◌,
}
use imtegrale.Query.{update, delete, find}

module _ {ℓ} {A : Type ℓ} (p : A → Bool) where
  -- An UPDATE of rows that the lookup does not see, before and after.
  pub find-update_apart :
      (q : A → Bool) (f : A → A)
      → ((a : A) → q a ≡ true → (p a ≡ false) × (p (f a) ≡ false))
      → (xs : List A) → find p (update q f xs) ≡ find p xs
  find-update_apart q f apart [] = refl
  find-update_apart q f apart (x ∷ xs) = elim (Bool-cases (q x)) [
    | inl e ↦
        let (before, after) = apart x e in rw (e, before, after) (find-update_apart q f apart xs)
    | inr e ↦ rw e (ground (arith, find-update_apart q f apart xs))
  ]

  -- An UPDATE of the rows that the lookup sees.
  pub find-update_hit :
      (f : A → A)
      → ((a : A) → p a ≡ true → p (f a) ≡ true)
      → (xs : List A) {a : A} → find p xs ≡ some a
      → find p (update p f xs) ≡ some (f a)
  find-update_hit f keep [] h = cc
  find-update_hit f keep (x ∷ xs) {a} h = elim (Bool-cases (p x)) [
    | inl e ↦ let same : x ≡ a = ground arith in rw (e, keep x e, same) refl
    | inr e ↦ rw (e, e) (find-update_hit f keep xs {a = a} (ground arith))
  ]

  pub find-append_new :
      (xs : List A) (x : A) → find p xs ≡ none → p x ≡ true → find p (xs ++ x ∷ []) ≡ some x
  find-append_new [] x h e = rw e refl
  find-append_new (y ∷ ys) x h e = ground (arith, find-append_new ys x)

  pub find-append_apart : (xs : List A) (x : A) → p x ≡ false → find p (xs ++ x ∷ []) ≡ find p xs
  find-append_apart [] x e = rw e refl
  find-append_apart (y ∷ ys) x e = ground (arith, find-append_apart ys x e)

  -- A DELETE that spares the row found.
  pub find-delete :
      (q : A → Bool) (xs : List A) {a : A}
      → find p xs ≡ some a
      → q a ≡ false
      → find p (delete q xs) ≡ some a
  find-delete q [] h e = cc
  find-delete q (x ∷ xs) {a} h e = elim (Bool-cases (p x)) [
    | inl t ↦
        let same : x ≡ a = ground arith in
        let spared : q x ≡ false = rw same e in rw (spared, t) (rw same refl)
    | inr t ↦ let later = find-delete q xs {a = a} (ground arith) e in ground (arith, later)
  ]

module _ {ℓ} {A : Type ℓ} (p q : A → Bool) (f : A → A) (same : (a : A) → p (f a) ≡ p a) where
  -- An UPDATE of columns that the lookup does not read.
  pub find-update_same :
      (xs : List A) {a : A}
      → find p xs ≡ some a
      → find p (update q f xs) ≡ some (if q a then f a else a)
  find-update_same [] h = cc
  find-update_same (x ∷ xs) {a} h = elim (Bool-cases (p x)) [
    | inl e ↦
        let first : x ≡ a = ground arith in
        elim (Bool-cases (q x)) [
          | inl t ↦ let u : q a ≡ true = rw first at t in rw (t, same x, e, u, first) refl
          | inr t ↦ let u : q a ≡ false = rw first at t in rw (t, e, u, first) refl
        ]
    | inr e ↦
        let rest = find-update_same xs {a = a} (ground arith) in
        elim (Bool-cases (q x)) [ inl t ↦ rw (t, same x, e) rest | inr t ↦ rw (t, e) rest ]
  ]
