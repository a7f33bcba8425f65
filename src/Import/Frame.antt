-- ===== src/Import/Frame.antt =====
-- The notes that an import does not concern.
use imtegrale.Prelude.{
  ℕ, ◌≡◌, refl, ◌∙◌, inl, inr, Bool, true, false, not, List, [], ◌∷◌, arith, Memᴰ, Bool-cases,
  Option-cases, ◌==◌,
}
use imtegrale.Query.{select, find, any}
use imtegrale.Query.Rows.{All-imp, All-self}
use imtegrale.Query.Keys.{IsUnique}
use imtegrale.Query.Selects.{select-append_apart, select-update_apart, select-delete_apart}
use imtegrale.Models.{Account}
use imtegrale.Import.{Texts, Note, State, is_pass_note, is_keyed}
use imtegrale.Import.Entries.{Values}
use imtegrale.Import.Apply.{
  Progress, is_current, refreshed, import_note, import_entry, import_each, import_values, start,
  is_gone, archive_gone, delete_stale, stale_archived,
}
use imtegrale.Import.Loop.{IsStocked, entry-notes}
use imtegrale.Import.Mirror.{not_stale, notes_after, archived-IsUnique}
use Prim.Native.String.{String}

-- The notes of other accounts and of other sources.
abbrev pub is_other : ℕ → Note → Bool
is_other account n = not (is_pass_note account n)

module _ (texts : Texts) (account now : ℕ) where
  note-others :
      (v : Values) (p : Progress)
      → select (is_other account) (import_note account now v p).notes
        ≡ select (is_other account) p.notes
  unfolding import_note
  note-others v p = elim (Option-cases (find (is_keyed account v.key) p.notes)) [
    | inl e ↦ rw (e, import_note) (select-append_apart (is_other account) p.notes _ (ground arith))
    | inr (n, e) ↦ elim (Bool-cases (is_current v n)) [
      | inl t ↦ rw (e, import_note) (rw t refl)
      | inr t ↦
          rw (e, import_note)
            (rw t (
              select-update_apart (is_other account) (is_keyed account v.key) (refreshed now v)
                (λ a h. (ground (arith, h), ground (arith, h))) p.notes))
    ]
  ]

  each-others :
      (vs : List Values) (p : Progress)
      → select (is_other account) (import_each texts account now vs p).notes
        ≡ select (is_other account) p.notes
  unfolding import_each
  each-others [] p = refl
  each-others (v ∷ vs) p =
      each-others vs (import_entry texts account now v p) ∙ rw entry-notes (note-others v p)

archive-others :
    (account now : ℕ) (keys : List ℕ) (notes : List Note)
    → select (is_other account) (archive_gone account now keys notes)
      ≡ select (is_other account) notes
unfolding archive_gone
archive-others account now keys notes =
    select-update_apart (is_other account) (is_gone account keys) _
      (λ a h. (ground (arith, h), ground (arith, h))) notes

delete-others :
    (account : ℕ) (notes : List Note)
    → IsUnique (λ n. n.id) notes
    → select (is_other account) (delete_stale account notes) ≡ select (is_other account) notes
unfolding delete_stale
delete-others account notes u = select-delete_apart (is_other account) _ notes (
    All-imp (λ n. Memᴰ n notes)
      (λ n.
        is_other account n ≡ true → any (λ s. s.id == n.id) (stale_archived account notes) ≡ false)
      (λ n m other. not_stale account notes n u m (ground (arith, other))) notes (All-self notes))

-- Over notes with unique identifiers, the notes of other accounts and of other sources are the
-- same, in the same order, after an import.
pub import_values-keeps_others :
    (texts : Texts) (actor : String) (initial : Bool) (now : ℕ) (account : Account)
    (vs : List Values) (s : State)
    → IsStocked s.next_note_id s.notes
    → select (is_other account.id) (import_values texts actor initial now account vs s).1.notes
      ≡ select (is_other account.id) s.notes
import_values-keeps_others texts actor initial now account vs s h = rw notes_after (
    delete-others account.id _ (archived-IsUnique texts now account vs s h)
    ∙ archive-others account.id now _ _
    ∙ each-others texts account.id now vs (start account.id s))
