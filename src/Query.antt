-- ===== src/Query.antt =====
-- A database table is a list of rows. A SELECT, UPDATE or DELETE of the source is one of these
-- functions over it: `.where(p)` is `select p`, `.order_by` sorts, `.limit` and `.offset` are
-- `take` and `drop`, and assignments to the columns of selected rows are `update`.
pub mod Rows
pub mod Order
pub mod Keys
pub mod Counts
pub mod Finds
pub mod Selects
use imtegrale.Prelude.{Bool, true, false, Option, none, some, List, [], ◌∷◌, if◌then◌else◌}

module _ {ℓ} {A : Type ℓ} where
  abbrev pub select : (A → Bool) → List A → List A
  select p [] = []
  select p (x ∷ xs) = let rest = select p xs in if p x then x ∷ rest else rest

  -- `db.scalar(select(...))`: the first row, or None.
  abbrev pub first : List A → Option A
  first [] = none
  first (x ∷ _) = some x

  abbrev pub update : (A → Bool) → (A → A) → List A → List A
  update p f [] = []
  update p f (x ∷ xs) = (if p x then f x else x) ∷ update p f xs

  abbrev pub delete : (A → Bool) → List A → List A
  delete p [] = []
  delete p (x ∷ xs) = let rest = delete p xs in if p x then rest else x ∷ rest

  abbrev pub find : (A → Bool) → List A → Option A
  find p [] = none
  find p (x ∷ xs) = let rest = find p xs in if p x then some x else rest

  abbrev pub any : (A → Bool) → List A → Bool
  any p [] = false
  any p (x ∷ xs) = let rest = any p xs in if p x then true else rest

  abbrev insert_by : (A → A → Bool) → A → List A → List A
  insert_by before x [] = x ∷ []
  insert_by before x (y ∷ ys) =
      let rest = insert_by before x ys in if before x y then x ∷ y ∷ ys else y ∷ rest

  -- `.order_by(...)` by the comparison "stands before or level"; rows that are level keep the
  -- order of the table.
  abbrev pub order_by : (A → A → Bool) → List A → List A
  order_by before [] = []
  order_by before (x ∷ xs) = insert_by before x (order_by before xs)
