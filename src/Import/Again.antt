-- ===== src/Import/Again.antt =====
-- Importing the same entries a second time.
use imtegrale.Prelude.{
  ℕ, ◌≡◌, refl, ◌∙◌, inl, inr, Bool, false, not, ◌&&◌, List, [], ◌∷◌, arith, All, Bool-cases, ◌==◌,
}
use imtegrale.Query.{select, any}
use imtegrale.Query.Rows.{All-imp}
use imtegrale.Query.Keys.{IsUnique}
use imtegrale.Models.{Account}
use imtegrale.Import.{Texts, Note, State, is_pass_note}
use imtegrale.Import.Entries.{Values}
use imtegrale.Import.Apply.{
  Progress, has_code, import_note, import_entry, import_each, import_values, finish_import, start,
  is_gone,
}
use imtegrale.Import.Loop.{Shows-is_current, IsShown, IsStocked, each-keys}
use imtegrale.Import.Mirror.{IsListed, import_values-mirrors}
use Prim.Native.String.{String}

-- What the loop has written.
abbrev pub Untouched : Progress → Progress → Type 0
Untouched p q = (q.notes ≡ p.notes) × (q.inserted ≡ p.inserted) × (q.changed ≡ p.changed)

module _ (texts : Texts) (account now : ℕ) where
  note-Untouched :
      (v : Values) (p : Progress) → IsShown account p.notes v → import_note account now v p ≡ p
  unfolding import_note
  note-Untouched v p (n, found, shows) =
      rw (found, import_note) (rw (Shows-is_current v n shows) refl)

  entry-Untouched :
      (v : Values) (p : Progress)
      → IsShown account p.notes v
      → Untouched p (import_entry texts account now v p)
  unfolding import_entry
  entry-Untouched v p h =
      rw (note-Untouched v p h) (elim (Bool-cases (has_code v.code p.known_ue_codes)) [
        | inl e ↦ rw e (refl, refl, refl)
        | inr e ↦ rw e (refl, refl, refl)
      ])

  -- Entries that are all shown write nothing.
  each-Untouched :
      (vs : List Values) (p : Progress)
      → All (IsShown account p.notes) vs
      → Untouched p (import_each texts account now vs p)
  unfolding import_each
  each-Untouched [] p h = (refl, refl, refl)
  each-Untouched (v ∷ vs) p h =
      let (notes, inserted, changed) = entry-Untouched v p h.0 in
      let (a, b, c) = each-Untouched vs (import_entry texts account now v p) (rw notes h.1) in
      (a ∙ notes, b ∙ inserted, c ∙ changed)

select_none : (p : Note → Bool) (xs : List Note) → All (λ n. p n ≡ false) xs → select p xs ≡ []
select_none p [] h = refl
select_none p (x ∷ xs) h = rw h.0 (select_none p xs h.1)

module _ (texts : Texts) (actor : String) (initial : Bool) (now : ℕ) (account : Account)
    (vs : List Values) where
  nothing_gone :
      (s : State)
      → All (IsShown account.id s.notes) vs
      → All (IsListed account.id (λ k. any (λ v. v.key == k) vs)) s.notes
      → let p = import_each texts account.id now vs (start account.id s) in
        select (is_gone account.id p.active_keys) p.notes ≡ []
  nothing_gone s shown listed =
      let p = start account.id s in
      let q = import_each texts account.id now vs p in
      let (notes, _, _) = each-Untouched texts account.id now vs p shown in
      rw notes (
        select_none (is_gone account.id q.active_keys) s.notes (
          All-imp (IsListed account.id (λ k. any (λ v. v.key == k) vs))
            (λ n. is_gone account.id q.active_keys n ≡ false)
            (λ n l.
              let keys = each-keys account.id now texts n.source_key vs p in
              elim (Bool-cases (is_pass_note account.id n && not n.archived)) [
                | inl e ↦ let k = l e in ground (arith, keys, k)
                | inr e ↦ ground (arith, e)
              ])
            s.notes listed))

  -- Over a state that shows the entries already, an import reports no change.
  idle_import :
      (s : State)
      → All (IsShown account.id s.notes) vs
      → All (IsListed account.id (λ k. any (λ v. v.key == k) vs)) s.notes
      → let summary = (import_values texts actor initial now account vs s).0 in
        (summary.inserted ≡ [])
        × (summary.updated ≡ 0)
        × (summary.archived ≡ 0)
        × (summary.changed ≡ false)
  unfolding import_values finish_import
  idle_import s shown listed =
      let (_, inserted, changed) =
        each-Untouched texts account.id now vs (start account.id s) shown in
      let gone = nothing_gone s shown listed in
      rw (inserted, changed, gone) (refl, refl, refl, refl)

-- An import of the entries of the import before, whoever asks and whenever, reports no change, when
-- the identifiers of the notes were unique and the keys of the entries are distinct.
pub import_values-idempotent :
    (texts : Texts) (actor later : String) (initial again : Bool) (now moment : ℕ)
    (account : Account) (vs : List Values) (s : State)
    → IsStocked s.next_note_id s.notes
    → IsUnique (λ v. v.key) vs
    → let after = (import_values texts actor initial now account vs s).1 in
      let summary = (import_values texts later again moment account vs after).0 in
      (summary.inserted ≡ [])
      × (summary.updated ≡ 0)
      × (summary.archived ≡ 0)
      × (summary.changed ≡ false)
import_values-idempotent texts actor later initial again now moment account vs s h distinct =
    let after = (import_values texts actor initial now account vs s).1 in
    let (shown, listed) = import_values-mirrors texts now account vs s actor initial h distinct in
    idle_import texts later again moment account vs after shown listed
