-- ===== src/Query/Order.antt =====
-- `order_by` keeps the rows, and the first row of the result is the least by a total preorder.
use mathlib.Core.Path.{subst}
use imtegrale.Prelude.{
  ◌+◌, ◌≡◌, refl, ◌∙◌, inl, inr, Bool, true, false, some, List, [], ◌∷◌, arith, All, length,
  Bool-cases,
}
use imtegrale.Query.{first, select, order_by, insert_by}
use imtegrale.Query.Rows.{All-imp}

module _ {ℓ κ} {A : Type ℓ} (P : A → Type κ) (before : A → A → Bool) where
  All-insert_by : (x : A) (xs : List A) → P x → All P xs → All P (insert_by before x xs)
  All-insert_by x [] hx h = (hx, tt)
  All-insert_by x (y ∷ ys) hx h = elim (Bool-cases (before x y)) [
    | inl e ↦ rw e (hx, h)
    | inr e ↦ rw e (h.0, All-insert_by x ys hx h.1)
  ]

  pub All-order_by : (xs : List A) → All P xs → All P (order_by before xs)
  All-order_by [] h = tt
  All-order_by (x ∷ xs) h = All-insert_by x (order_by before xs) h.0 (All-order_by xs h.1)

  All-of_insert_by : (x : A) (xs : List A) → All P (insert_by before x xs) → P x × All P xs
  All-of_insert_by x [] h = (h.0, tt)
  All-of_insert_by x (y ∷ ys) h = elim (Bool-cases (before x y)) [
    | inl e ↦ rw e at h
    | inr e ↦
        let (hy, rest) = rw e at h in let (hx, hs) = All-of_insert_by x ys rest in (hx, (hy, hs))
  ]

  -- What holds of every sorted row holds of every row.
  pub All-of_order_by : (xs : List A) → All P (order_by before xs) → All P xs
  All-of_order_by [] h = tt
  All-of_order_by (x ∷ xs) h =
      let (hx, rest) = All-of_insert_by x (order_by before xs) h in (hx, All-of_order_by xs rest)

module _ {ℓ} {A : Type ℓ} (before : A → A → Bool) where
  length-insert_by : (x : A) (xs : List A) → length (insert_by before x xs) ≡ length xs + 1
  length-insert_by x [] = omega arith
  length-insert_by x (y ∷ ys) = ground (arith, length-insert_by x ys)

  pub length-order_by : (xs : List A) → length (order_by before xs) ≡ length xs
  length-order_by [] = refl
  length-order_by (x ∷ xs) =
      omega (arith, length-insert_by x (order_by before xs), length-order_by xs)

-- A total preorder, given as a Boolean comparison.
pub record IsTotalPreorder {ℓ} {A : Type ℓ} (before : A → A → Bool) : Type ℓ where
  pub total : (x y : A) → before x y ≡ false → before y x ≡ true
  pub trans : (x y z : A) → before x y ≡ true → before y z ≡ true → before x z ≡ true

module _ {ℓ} {A : Type ℓ} (before : A → A → Bool) (order : IsTotalPreorder before) where
  refl_of_total : (x : A) → before x x ≡ true
  refl_of_total x = elim (Bool-cases (before x x)) [ inl e ↦ e | inr e ↦ order.total x x e ]

  abbrev pub IsSorted : List A → Type ℓ
  IsSorted [] = Unit
  IsSorted (x ∷ xs) = All (λ z. before x z ≡ true) xs × IsSorted xs

  insert_by-IsSorted : (x : A) (xs : List A) → IsSorted xs → IsSorted (insert_by before x xs)
  insert_by-IsSorted x [] h = (tt, tt)
  insert_by-IsSorted x (y ∷ ys) h = elim (Bool-cases (before x y)) [
    | inl e ↦ rw e ((e, All-imp _ _ (λ z q. order.trans x y z e q) ys h.0), h)
    | inr e ↦ rw e (
      All-insert_by (λ z. before y z ≡ true) before x ys (order.total x y e) h.0,
      insert_by-IsSorted x ys h.1,
    )
  ]

  pub order_by-IsSorted : (xs : List A) → IsSorted (order_by before xs)
  order_by-IsSorted [] = tt
  order_by-IsSorted (x ∷ xs) = insert_by-IsSorted x (order_by before xs) (order_by-IsSorted xs)

  least_of_sorted :
      (y : A) (xs : List A) → IsSorted xs → first xs ≡ some y → All (λ z. before y z ≡ true) xs
  least_of_sorted y [] s h = tt
  least_of_sorted y (x ∷ xs) s h =
      let same : x ≡ y = ground arith in
      subst (λ w. All (λ z. before w z ≡ true) (x ∷ xs)) same (refl_of_total x, s.0)

  -- The first of the sorted rows stands before every row, or level with it.
  pub first-order_by :
      (y : A) (xs : List A) → first (order_by before xs) ≡ some y → All (λ z. before y z ≡ true) xs
  first-order_by y xs h =
      All-of_order_by (λ z. before y z ≡ true) before xs
        (least_of_sorted y (order_by before xs) (order_by-IsSorted xs) h)

module _ {ℓ} {A : Type ℓ} (p : A → Bool) (before : A → A → Bool) where
  count-insert_by :
      (x : A) (xs : List A) → length (select p (insert_by before x xs)) ≡ length (select p (x ∷ xs))
  count-insert_by x [] = refl
  count-insert_by x (y ∷ ys) = ground (arith, count-insert_by x ys)

  -- Sorting does not change how many rows pass a test.
  pub count-order_by : (xs : List A) → length (select p (order_by before xs)) ≡ length (select p xs)
  count-order_by [] = refl
  count-order_by (x ∷ xs) =
      count-insert_by x (order_by before xs) ∙ ground (arith, count-order_by xs)
