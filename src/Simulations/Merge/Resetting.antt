-- ===== src/Simulations/Merge/Resetting.antt =====
-- The entries before and after a reset.
use imtegrale.Prelude.{◌≡◌, ◌≢◌, refl, ap, inl, inr, true, false, List, [], ◌∷◌, map, Bool-cases}
use imtegrale.Query.{select}
use imtegrale.Simulations.{
  Entry, SourceStatus, current, conflict, unavailable, is_imported, settled, reset_entry,
}

-- What a reset makes of an imported entry: the entry with its baseline as its values; a row that is
-- no longer available stays marked, any other is current.
pub record IsReset (before after : Entry) : Type 0 where
  pub same :
      (after.id ≡ before.id)
      × (after.lineage_key ≡ before.lineage_key)
      × (after.source_ue_code ≡ before.source_ue_code)
      × (after.position ≡ before.position)
  pub baseline_kept : after.base ≡ before.base
  pub restored : after.now ≡ before.base
  pub stays_unavailable : before.source_status ≡ unavailable → after.source_status ≡ unavailable
  pub becomes_current : before.source_status ≢ unavailable → after.source_status ≡ current

-- The entries before and after a reset, in order: an imported one is kept, one that the student
-- added is dropped.
pub data Resets : List Entry → List Entry → Type 0 where
  finished : Resets [] []
  dropped :
      {before : Entry} {rest rest' : List Entry}
      → is_imported before ≡ false
      → Resets rest rest'
      → Resets (before ∷ rest) rest'
  kept :
      {before after : Entry} {rest rest' : List Entry}
      → is_imported before ≡ true
      → IsReset before after
      → Resets rest rest'
      → Resets (before ∷ rest) (after ∷ rest')

settled_current : (status : SourceStatus) → status ≢ unavailable → settled status ≡ current
settled_current current h = refl
settled_current conflict h = refl
settled_current unavailable h = absurd (h refl)

reset_entry-IsReset : (entry : Entry) → IsReset entry (reset_entry entry)
reset_entry-IsReset entry = record {
  same = (refl, refl, refl, refl);
  baseline_kept = refl;
  restored = refl;
  stays_unavailable = λ h. ap settled h;
  becomes_current = settled_current entry.source_status;
}

pub reset_entries-Resets :
    (entries : List Entry) → Resets entries (map reset_entry (select is_imported entries))
reset_entries-Resets [] = finished
reset_entries-Resets (entry ∷ rest) = elim (Bool-cases (is_imported entry)) [
  | inl e ↦ rw e (kept e (reset_entry-IsReset entry) (reset_entries-Resets rest))
  | inr e ↦ rw e (dropped e (reset_entries-Resets rest))
]
