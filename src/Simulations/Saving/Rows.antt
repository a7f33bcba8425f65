-- ===== src/Simulations/Saving/Rows.antt =====
-- The entries that the items of a save leave, one for each.
use imtegrale.Prelude.{
  ℕ, ◌+◌, ◌≡◌, refl, sym, ap, ◌∙◌, inl, inr, Bool, true, false, not, none, some, List, [], ◌∷◌,
  arith, All, Memᴰ, ◌==◌, ==_iff, Bool-cases, Option-cases, if-cases,
}
use imtegrale.Query.{find, any}
use imtegrale.Query.Rows.{find_sound, any_absent, All-imp}
use imtegrale.Simulations.{Values, Entry, is_imported}
use imtegrale.Simulations.Editing.{
  EntryInput, supplied_ids, has_unknown, is_known, upper_code, manual_entry, written_entry,
  entry_for, written_entries,
}

-- The values that an item asks for.
abbrev pub asked_values : (ℕ → ℕ) → EntryInput → Values
asked_values upper item = record item.values { ue_code = upper_code upper item.values.ue_code }

-- The entry that an item leaves at a position: the values asked for; if it names an entry, that
-- entry, with its identifier, origin and baseline; if it names none, a new one that is not imported.
pub record IsWritten (upper : ℕ → ℕ) (existing : List Entry) (item : EntryInput) (position : ℕ)
    (after : Entry) : Type 0 where
  pub shows : after.now ≡ asked_values upper item
  pub placed : after.position ≡ position
  pub same :
      (id : ℕ)
      → item.id ≡ some id
      → (before : Entry) × Memᴰ before existing
        × (before.id ≡ id)
        × (after.id ≡ id)
        × (is_imported after ≡ is_imported before)
        × (after.source_ue_code ≡ before.source_ue_code)
        × (after.base ≡ before.base)
  pub added : item.id ≡ none → is_imported after ≡ false

-- One entry for each item, in order, at the positions from `position` on.
pub data Writes (upper : ℕ → ℕ) (existing : List Entry)
    : ℕ → List EntryInput → List Entry → Type 0 where
  written_all : {position : ℕ} → Writes upper existing position [] []
  writes :
      {position : ℕ} {item : EntryInput} {after : Entry} {rest : List EntryInput}
      {entries : List Entry}
      → IsWritten upper existing item position after
      → Writes upper existing (position + 1) rest entries
      → Writes upper existing position (item ∷ rest) (after ∷ entries)

module _ (upper : ℕ → ℕ) (item : EntryInput) (position : ℕ) (entry : Entry) where
  -- The round writes the values and the position, and at most the status besides.
  written_entry-keeps :
      let after = written_entry upper item position entry in
      (after.now ≡ asked_values upper item)
      × (after.position ≡ position)
      × (after.id ≡ entry.id)
      × (is_imported after ≡ is_imported entry)
      × (after.source_ue_code ≡ entry.source_ue_code)
      × (after.base ≡ entry.base)
  unfolding written_entry
  written_entry-keeps =
      if-cases
        (λ (after : Entry).
          (after.now ≡ asked_values upper item)
          × (after.position ≡ position)
          × (after.id ≡ entry.id)
          × (is_imported after ≡ is_imported entry)
          × (after.source_ue_code ≡ entry.source_ue_code)
          × (after.base ≡ entry.base))
        _ (λ _. (refl, refl, refl, refl, refl, refl)) (λ _. (refl, refl, refl, refl, refl, refl))

any_found :
    (p : Entry → Bool) (entries : List Entry)
    → any p entries ≡ true
    → (before : Entry) × (find p entries ≡ some before)
any_found p [] h = cc
any_found p (entry ∷ rest) h = elim (Bool-cases (p entry)) [
  | inl e ↦ (entry, rw e refl)
  | inr e ↦ let (before, found) = any_found p rest (rw e at h) in (before, rw e found)
]

-- Every identifier that the request names is an entry's.
abbrev pub AreKnown : List Entry → List EntryInput → Type 0
AreKnown existing items = All (λ id. is_known existing id ≡ true) (supplied_ids items)

pub has_unknown-AreKnown :
    (existing : List Entry) (items : List EntryInput)
    → has_unknown existing items ≡ false
    → AreKnown existing items
has_unknown-AreKnown existing items h =
    All-imp _ _ (λ id k. ground arith) (supplied_ids items)
      (any_absent (λ id. not (is_known existing id)) (supplied_ids items) h)

module _ (upper lineage fresh : ℕ → ℕ) (existing : List Entry) where
  added-IsWritten :
      (item : EntryInput) (position : ℕ)
      → item.id ≡ none
      → IsWritten upper existing item position
          (written_entry upper item position (entry_for lineage (fresh position) existing item))
  added-IsWritten item position e =
      let entry = entry_for lineage (fresh position) existing item in
      let new : entry ≡ manual_entry lineage (fresh position) = rw (e, entry_for) refl in
      let (shows, placed, _, imported, _, _) = written_entry-keeps upper item position entry in
      record {
        shows = shows;
        placed = placed;
        same = λ id k. absurd (let bad : none ≡ some id = sym e ∙ k in cc);
        added = λ _. imported ∙ ap is_imported new;
      }

  named-IsWritten :
      (item : EntryInput) (position id : ℕ)
      → item.id ≡ some id
      → is_known existing id ≡ true
      → IsWritten upper existing item position
          (written_entry upper item position (entry_for lineage (fresh position) existing item))
  named-IsWritten item position id e known =
      let (before, found) = any_found (λ x. x.id == id) existing known in
      let (keyed, member) = find_sound (λ x. x.id == id) existing found in
      let entry = entry_for lineage (fresh position) existing item in
      let old : entry ≡ before = rw (e, entry_for) (rw found refl) in
      let (shows, placed, ids, imported, coded, based) =
        written_entry-keeps upper item position entry in
      let named : before.id ≡ id = (==_iff before.id id).0 keyed in
      record {
        shows = shows;
        placed = placed;
        same = λ other k.
            let one : id ≡ other = ground (arith, sym e ∙ k) in
            (
              before,
              member,
              named ∙ one,
              ids ∙ ap (λ x. x.id) old ∙ named ∙ one,
              imported ∙ ap is_imported old,
              coded ∙ ap (λ x. x.source_ue_code) old,
              based ∙ ap (λ x. x.base) old,
            );
        added = λ k. absurd (let bad : none ≡ some id = sym k ∙ e in cc);
      }

  pub written_entries-Writes :
      (items : List EntryInput) (position : ℕ)
      → AreKnown existing items
      → Writes upper existing position items
          (written_entries upper lineage fresh existing position items)
  unfolding written_entries
  written_entries-Writes [] position known = written_all
  written_entries-Writes (item ∷ rest) position known = elim (Option-cases item.id) [
    | inl e ↦
        writes (added-IsWritten item position e)
          (written_entries-Writes rest (position + 1) (rw e at known))
    | inr (id, e) ↦
        let all : (is_known existing id ≡ true) × AreKnown existing rest = rw e at known in
        writes (named-IsWritten item position id e all.0)
          (written_entries-Writes rest (position + 1) all.1)
  ]
