-- ===== src/Query/Rows.antt =====
-- What queries do to the rows of a table, one lemma for each kind of query.
use mathlib.Core.Bool.{false≢true}
use imtegrale.Prelude.{
  sym, ◌∙◌, ◌≡◌, refl, inl, inr, Bool, true, false, none, some, List, [], ◌∷◌, arith, All, Memᴰ,
  Bool-cases,
}
use imtegrale.Query.{select, update, delete, find, any}

module _ {ℓ κ} {A : Type ℓ} (P : A → Type κ) (p : A → Bool) where
  pub All-select : (xs : List A) → All P xs → All P (select p xs)
  All-select [] h = tt
  All-select (x ∷ xs) h = elim (Bool-cases (p x)) [
    | inl e ↦ rw e (h.0, All-select xs h.1)
    | inr e ↦ rw e (All-select xs h.1)
  ]

  pub All-delete : (xs : List A) → All P xs → All P (delete p xs)
  All-delete [] h = tt
  All-delete (x ∷ xs) h = elim (Bool-cases (p x)) [
    | inl e ↦ rw e (All-delete xs h.1)
    | inr e ↦ rw e (h.0, All-delete xs h.1)
  ]

  pub All-update :
      (f : A → A)
      → ((a : A) → p a ≡ true → P a → P (f a))
      → (xs : List A) → All P xs
      → All P (update p f xs)
  All-update f keep [] h = tt
  All-update f keep (x ∷ xs) h = elim (Bool-cases (p x)) [
    | inl e ↦ rw e (keep x e h.0, All-update f keep xs h.1)
    | inr e ↦ rw e (h.0, All-update f keep xs h.1)
  ]

module _ {ℓ κ ι} {A : Type ℓ} (P : A → Type κ) (Q : A → Type ι) where
  -- An UPDATE after which another predicate holds, of the rows it writes and of the others.
  pub All-update_to :
      (p : A → Bool) (f : A → A)
      → ((a : A) → p a ≡ true → P a → Q (f a))
      → ((a : A) → p a ≡ false → P a → Q a)
      → (xs : List A) → All P xs
      → All Q (update p f xs)
  All-update_to p f hit miss [] h = tt
  All-update_to p f hit miss (x ∷ xs) h = elim (Bool-cases (p x)) [
    | inl e ↦ rw e (hit x e h.0, All-update_to p f hit miss xs h.1)
    | inr e ↦ rw e (miss x e h.0, All-update_to p f hit miss xs h.1)
  ]

  pub All-imp : ((a : A) → P a → Q a) → (xs : List A) → All P xs → All Q xs
  All-imp f [] h = tt
  All-imp f (x ∷ xs) h = (f x h.0, All-imp f xs h.1)

  pub All-both : (xs : List A) → All P xs → All Q xs → All (λ a. P a × Q a) xs
  All-both [] h k = tt
  All-both (x ∷ xs) h k = ((h.0, k.0), All-both xs h.1 k.1)

module _ {ℓ} {A : Type ℓ} where
  tail_members : (x : A) (ys xs : List A) → All (λ a. Memᴰ a xs) ys → All (λ a. Memᴰ a (x ∷ xs)) ys
  tail_members x [] xs h = tt
  tail_members x (y ∷ ys) xs h = (Memᴰ.tail h.0, tail_members x ys xs h.1)

  -- Every row of a table stands in it.
  pub All-self : (xs : List A) → All (λ a. Memᴰ a xs) xs
  All-self [] = tt
  All-self (x ∷ xs) = (Memᴰ.head refl, tail_members x xs xs (All-self xs))

module _ {ℓ} {A : Type ℓ} (p : A → Bool) where
  -- Every selected row passes the test.
  pub select_passes : (xs : List A) → All (λ a. p a ≡ true) (select p xs)
  select_passes [] = tt
  select_passes (x ∷ xs) = elim (Bool-cases (p x)) [
    | inl e ↦ rw e (e, select_passes xs)
    | inr e ↦ rw e (select_passes xs)
  ]

  pub delete_fails : (xs : List A) → All (λ a. p a ≡ false) (delete p xs)
  delete_fails [] = tt
  delete_fails (x ∷ xs) = elim (Bool-cases (p x)) [
    | inl e ↦ rw e (delete_fails xs)
    | inr e ↦ rw e (e, delete_fails xs)
  ]

  -- What holds of the selected rows holds of the rows that pass the test.
  pub All-of_select {κ} :
      (Q : A → Type κ) (xs : List A) → All Q (select p xs) → All (λ a. p a ≡ true → Q a) xs
  All-of_select Q [] h = tt
  All-of_select Q (x ∷ xs) h = elim (Bool-cases (p x)) [
    | inl e ↦ let (q, rest) = rw e at h in ((λ _. q), All-of_select Q xs rest)
    | inr e ↦ ((λ t. absurd (false≢true (sym e ∙ t))), All-of_select Q xs (rw e at h))
  ]

  pub find_sound : (xs : List A) {a : A} → find p xs ≡ some a → (p a ≡ true) × Memᴰ a xs
  find_sound [] h = cc
  find_sound (x ∷ xs) {a} h = elim (Bool-cases (p x)) [
    | inl e ↦ let same : a ≡ x = ground arith in (rw same e, Memᴰ.head same)
    | inr e ↦ let (q, m) = find_sound xs {a = a} (ground arith) in (q, Memᴰ.tail m)
  ]

  pub find_absent : (xs : List A) → find p xs ≡ none → All (λ a. p a ≡ false) xs
  find_absent [] h = tt
  find_absent (x ∷ xs) h = elim (Bool-cases (p x)) [
    | inl e ↦ absurd (ground arith)
    | inr e ↦ (e, find_absent xs (ground arith))
  ]

  pub any_absent : (xs : List A) → any p xs ≡ false → All (λ a. p a ≡ false) xs
  any_absent [] h = tt
  any_absent (x ∷ xs) h = elim (Bool-cases (p x)) [
    | inl e ↦ absurd (ground arith)
    | inr e ↦ (e, any_absent xs (ground arith))
  ]

module _ {ℓ} {A : Type ℓ} (p q : A → Bool) (row : A) (unfit : p row ≡ false) where
  -- An UPDATE among rows that fail a test, to a row that fails it, does not change what the test
  -- selects.
  pub select-update :
      (xs : List A)
      → All (λ x. q x ≡ true → p x ≡ false) xs
      → select p (update q (λ _. row) xs) ≡ select p xs
  select-update [] h = refl
  select-update (x ∷ xs) h = elim (Bool-cases (q x)) [
    | inl e ↦ rw (e, unfit, h.0 e) (select-update xs h.1)
    | inr e ↦ rw (e, select-update xs h.1)
  ]

-- A row that passes the test is listed among the selected rows, by any column that they share.
pub any_of_select {ℓ} :
    {A : Type ℓ} (p : A → Bool) (same : A → A → Bool)
    → ((a : A) → same a a ≡ true)
    → (xs : List A) → All (λ a. p a ≡ true → any (λ s. same s a) (select p xs) ≡ true) xs
any_of_select p same refl_same [] = tt
any_of_select p same refl_same (x ∷ xs) = elim (Bool-cases (p x)) [
  | inl e ↦ (
    (λ _. rw (e, refl_same x)),
    All-imp _ _ (λ a h t. rw e (elim (Bool-cases (same x a)) [ inl s ↦ rw s | inr s ↦ rw s (h t) ]))
        xs (any_of_select p same refl_same xs),
  )
  | inr e ↦ (
    (λ t. absurd (false≢true (sym e ∙ t))),
    All-imp _ _ (λ a h t. rw e (h t)) xs (any_of_select p same refl_same xs),
  )
]

pub any_of_none {ℓ} :
    {A : Type ℓ} (p : A → Bool) (xs : List A) → All (λ a. p a ≡ false) xs → any p xs ≡ false
any_of_none p [] h = refl
any_of_none p (x ∷ xs) h = rw h.0 (any_of_none p xs h.1)
