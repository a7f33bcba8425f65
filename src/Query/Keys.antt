-- ===== src/Query/Keys.antt =====
-- A unique numeric column: a primary key.
use imtegrale.Prelude.{
  ap, refl, true, false, none, some, arith, ◌==◌, ℕ, ◌≡◌, ◌≢◌, sym, ◌∙◌, inl, inr, Bool, List, [],
  ◌∷◌, ◌++◌, All, Memᴰ, All-member, Bool-cases,
}
use imtegrale.Query.{update, delete, find}
use imtegrale.Query.Rows.{All-delete}

module _ {ℓ} {A : Type ℓ} (key : A → ℕ) where
  abbrev pub IsUnique : List A → Type 0
  IsUnique [] = Unit
  IsUnique (x ∷ xs) = All (λ y. key y ≢ key x) xs × IsUnique xs

  -- Rows of a table with one key are one row.
  pub eq_of_key :
      {a b : A} {xs : List A} → IsUnique xs → Memᴰ a xs → Memᴰ b xs → key a ≡ key b → a ≡ b
  eq_of_key u (Memᴰ.head p) (Memᴰ.head q) e = p ∙ sym q
  eq_of_key u (Memᴰ.head p) (Memᴰ.tail n) e =
      absurd (All-member (λ y. key y ≢ _) u.0 n (sym e ∙ (λ i. key (p i))))
  eq_of_key u (Memᴰ.tail m) (Memᴰ.head q) e =
      absurd (All-member (λ y. key y ≢ _) u.0 m (e ∙ (λ i. key (q i))))
  eq_of_key u (Memᴰ.tail m) (Memᴰ.tail n) e = eq_of_key u.1 m n e

  fresh-append :
      (k : ℕ) (xs ys : List A)
      → All (λ y. key y ≢ k) xs
      → All (λ y. key y ≢ k) ys
      → All (λ y. key y ≢ k) (xs ++ ys)
  fresh-append k [] ys h g = g
  fresh-append k (x ∷ xs) ys h g = (h.0, fresh-append k xs ys h.1 g)

  -- An INSERT at the end of a row whose key is new.
  pub append-IsUnique :
      (xs : List A) (a : A) → IsUnique xs → All (λ y. key y ≢ key a) xs → IsUnique (xs ++ a ∷ [])
  append-IsUnique [] a u f = (tt, tt)
  append-IsUnique (x ∷ xs) a u f =
      (fresh-append (key x) xs (a ∷ []) u.0 ((λ e. f.0 (sym e)), tt), append-IsUnique xs a u.1 f.1)

  pub delete-IsUnique : (p : A → Bool) (xs : List A) → IsUnique xs → IsUnique (delete p xs)
  delete-IsUnique p [] u = tt
  delete-IsUnique p (x ∷ xs) u = elim (Bool-cases (p x)) [
    | inl e ↦ rw e (delete-IsUnique p xs u.1)
    | inr e ↦ rw e (All-delete (λ y. key y ≢ key x) p xs u.0, delete-IsUnique p xs u.1)
  ]

  module _ (p : A → Bool) (f : A → A) (same : (a : A) → p a ≡ true → key (f a) ≡ key a) where
    update_keys :
        (k : ℕ) (xs : List A) → All (λ y. key y ≢ k) xs → All (λ y. key y ≢ k) (update p f xs)
    update_keys k [] h = tt
    update_keys k (x ∷ xs) h = elim (Bool-cases (p x)) [
      | inl e ↦ rw e ((λ q. h.0 (sym (same x e) ∙ q)), update_keys k xs h.1)
      | inr e ↦ rw e (h.0, update_keys k xs h.1)
    ]

    -- An UPDATE that leaves the key column alone.
    pub update-IsUnique : (xs : List A) → IsUnique xs → IsUnique (update p f xs)
    update-IsUnique [] u = tt
    update-IsUnique (x ∷ xs) u = elim (Bool-cases (p x)) [
      | inl e ↦ rw e (rw (same x e) (update_keys (key x) xs u.0), update-IsUnique xs u.1)
      | inr e ↦ rw e (update_keys (key x) xs u.0, update-IsUnique xs u.1)
    ]

  absent_key : (k : ℕ) (xs : List A) → All (λ y. key y ≢ k) xs → find (λ y. key y == k) xs ≡ none
  absent_key k [] h = refl
  absent_key k (x ∷ xs) h = ground (arith, absent_key k xs h.1)

  -- A row of the table is found by its key.
  pub find_of_member :
      {a : A} {xs : List A} → IsUnique xs → Memᴰ a xs → find (λ y. key y == key a) xs ≡ some a
  find_of_member {a} u (Memᴰ.head {x = x} e) =
      rw
        (let k : key x ≡ key a = ap key (sym e) in
          let t : (key x == key a) ≡ true = ground arith in t)
        (ap some (sym e))
  find_of_member {a} u (Memᴰ.tail {x = x} {xs = xs} m) =
      let other : key a ≢ key x = All-member (λ y. key y ≢ key x) u.0 m in
      let t : (key x == key a) ≡ false = ground arith in rw t (find_of_member u.1 m)

  module _ (r : ℕ) (row : A) (keyed : key row ≡ r) where
    -- Replacing the row of one key changes what is found under that key only.
    pub find-update_ne :
        (k : ℕ) (xs : List A)
        → k ≢ r
        → find (λ y. key y == k) (update (λ y. key y == r) (λ _. row) xs)
          ≡ find (λ y. key y == k) xs
    find-update_ne k [] h = refl
    find-update_ne k (x ∷ xs) h = ground (arith, find-update_ne k xs h)

    pub find-update_self :
        (xs : List A) {a : A}
        → find (λ y. key y == r) xs ≡ some a
        → find (λ y. key y == r) (update (λ y. key y == r) (λ _. row) xs) ≡ some row
    find-update_self [] h = cc
    find-update_self (x ∷ xs) {a} h = ground (arith, find-update_self xs {a = a})
