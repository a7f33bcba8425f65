-- ===== src/Import/Outcome.antt =====
-- The answers of apply_pass_entries: an error before any write, or an import.
use imtegrale.Prelude.{
  ℕ, ◌+◌, ◌≡◌, refl, inl, inr, Bool, List, map, All, Bool-cases, Option-cases, ltb, length, ◌==◌,
}
use imtegrale.Query.{any}
use imtegrale.Query.Keys.{IsUnique}
use imtegrale.Models.{Account}
use imtegrale.Import.{Texts, Floats, PassEntry, State}
use imtegrale.Import.Entries.{Values, values_of, validate_pass_entries}
use imtegrale.Import.Apply.{
  Imported, fetch_error, imported, distinct_codes, missing_codes, start, apply_pass_entries,
}
use imtegrale.Import.Loop.{IsShown, IsStocked}
use imtegrale.Import.Mirror.{IsListed, import_values-mirrors}
use Prim.Native.String.{String}

-- An answer and the state with it: nothing was written, or every entry is shown and every other
-- PASS note of the account is archived.
abbrev pub IsMirrored : ℕ → List Values → State → Imported → State → Type 0
IsMirrored account vs before (fetch_error message) after = after ≡ before
IsMirrored account vs before (imported summary) after =
    All (IsShown account after.notes) vs
    × All (IsListed account (λ k. any (λ v. v.key == k) vs)) after.notes

-- Over notes with unique identifiers, and entries with distinct keys, either PASS's answer is
-- refused and nothing is written, or under the key of each entry stands a note that shows its
-- values and is not archived, and every other PASS note of the account is archived.
pub apply_pass_entries-IsMirrored :
    {F : Type 0} (texts : Texts) (floats : Floats F) (actor : String) (initial : Bool) (now : ℕ)
    (account : Account) (entries : List (PassEntry F)) (s : State)
    → IsStocked s.next_note_id s.notes
    → IsUnique (λ v. v.key) (map (values_of texts floats) entries)
    → let (answer, after) = apply_pass_entries texts floats actor initial now account entries s in
      IsMirrored account.id (map (values_of texts floats) entries) s answer after
unfolding apply_pass_entries
apply_pass_entries-IsMirrored texts floats actor initial now account entries s h distinct =
    let vs = map (values_of texts floats) entries in
    let known = (start account.id s).known_ue_codes in
    elim (Option-cases (validate_pass_entries texts floats entries)) [
      | inr (message, e) ↦ rw (e, apply_pass_entries) refl
      | inl e ↦ elim (Bool-cases (ltb 256 (length (distinct_codes vs)))) [
        | inl many ↦ rw (e, apply_pass_entries) (rw many refl)
        | inr few ↦
            elim (Bool-cases
              (ltb 256 (length known + length (missing_codes known (distinct_codes vs))))) [
                | inl over ↦ rw (e, apply_pass_entries) (rw (few, over) refl)
                | inr within ↦
                    rw (e, apply_pass_entries)
                      (rw (few, within)
                        (import_values-mirrors texts now account vs s actor initial h distinct))
              ]
      ]
    ]
