-- ===== src/Simulations/Merge.antt =====
-- `rebase_scenario` of simulations.py as a three-way merge: the baseline is the common ancestor,
-- the student's values one side and the academic data the other.
pub mod Equality
pub mod Imported
pub mod Resetting
use imtegrale.Prelude.{
  ◌+◌, ◌<◌, ◌≤◌, ◌≡◌, ◌≢◌, refl, ap, ◌∙◌, true, false, not, ◌&&◌, some, List, [], ◌∷◌, map, All,
  Memᴰ, if◌then◌else◌,
}
use imtegrale.Query.{select, delete}
use imtegrale.Query.Rows.{select_passes}
use imtegrale.Simulations.{
  Values, Grade, Entry, Row, SourceStatus, current, conflict, unavailable, values_eq, is_imported,
  is_modified, settled, reset_entry, has_code, grade_eq, opt_eq,
}
use imtegrale.Simulations.Scenario.{Scenario, reset_of}
use imtegrale.Simulations.Merge.Equality.{values_eq_refl}
use imtegrale.Simulations.Merge.Resetting.{Resets, reset_entries-Resets}

-- The merge of one entry with its row: an entry that the student left alone follows the data, one
-- that the student changed keeps the student's values, and the conflict is marked exactly if both
-- sides moved. The baseline is the data's.
pub record IsMerged (row : Row) (before after : Entry) : Type 0 where
  pub based : after.base ≡ row.values
  pub follows : values_eq before.now before.base ≡ true → after.now ≡ row.values
  pub keeps : values_eq before.now before.base ≡ false → after.now ≡ before.now
  pub marked : after.source_status ≡ (
      if not (values_eq before.now before.base) && not (values_eq row.values before.base)
      then conflict
      else current)
  pub same : (after.id ≡ before.id) × (after.lineage_key ≡ before.lineage_key)

-- What a rebase makes of an entry, given the rows that are still available, and the rows that it
-- leaves: an entry that the student added is left alone; an imported one is merged with the row of
-- its code, which is used up; without such a row it is marked unavailable and keeps its values.
pub data IsRebased (rows : List Row) (before : Entry) : Entry → List Row → Type 0 where
  added : is_imported before ≡ false → IsRebased rows before before rows
  merged :
      (row : Row) (after : Entry)
      → is_imported before ≡ true
      → Memᴰ row rows
      → before.source_ue_code ≡ some row.source_ue_code
      → IsMerged row before after
      → IsRebased rows before after (delete (has_code row.source_ue_code) rows)
  gone :
      is_imported before ≡ true
      → All (λ row. before.source_ue_code ≢ some row.source_ue_code) rows
      → IsRebased rows before (record before { source_status = unavailable }) rows

-- The entries before and after, one after the other.
pub data Rebases : List Row → List Entry → List Entry → List Row → Type 0 where
  none_left : {rows : List Row} → Rebases rows [] [] rows
  next :
      {rows between left : List Row} {before after : Entry} {rest rest' : List Entry}
      → IsRebased rows before after between
      → Rebases between rest rest' left
      → Rebases rows (before ∷ rest) (after ∷ rest') left

-- An entry at its baseline, without an open conflict.
pub record IsPristine (entry : Entry) : Type 0 where
  pub from_source : is_imported entry ≡ true
  pub unmodified : is_modified entry ≡ false
  pub restored : entry.now ≡ entry.base
  pub no_conflict : entry.source_status ≢ conflict

settled_lem : (status : SourceStatus) → settled status ≢ conflict
settled_lem current h = cc
settled_lem conflict h = cc
settled_lem unavailable h = cc

settled_twice : (status : SourceStatus) → settled (settled status) ≡ settled status
settled_twice current = refl
settled_twice conflict = refl
settled_twice unavailable = refl

reset_entry-IsPristine : (entry : Entry) → is_imported entry ≡ true → IsPristine (reset_entry entry)
reset_entry-IsPristine entry h = record {
  from_source = h;
  unmodified = let e = values_eq_refl entry.base in rw (h, e) refl;
  restored = refl;
  no_conflict = settled_lem entry.source_status;
}

reset_all :
    (entries : List Entry)
    → All (λ entry. is_imported entry ≡ true) entries
    → All IsPristine (map reset_entry entries)
reset_all [] h = tt
reset_all (entry ∷ rest) h = (reset_entry-IsPristine entry h.0, reset_all rest h.1)

reset_again :
    (entries : List Entry)
    → All (λ entry. is_imported entry ≡ true) entries
    → map reset_entry (select is_imported (map reset_entry entries)) ≡ map reset_entry entries
reset_again [] h = refl
reset_again (entry ∷ rest) h = rw h.0 (
    let tail = reset_again rest h.1 in
    let same = settled_twice entry.source_status in
    ap
      (λ status.
        record (reset_entry entry) { source_status = status }
        ∷ map reset_entry (select is_imported (map reset_entry rest)))
      same
    ∙ ap (λ tail. reset_entry entry ∷ tail) tail)

-- A reset keeps exactly the imported entries, in order, each with its baseline as its values, and
-- drops those that the student added. What is left is unmodified and none in conflict; a second
-- reset changes no entry.
pub reset_restores :
    (s : Scenario)
    → Resets s.entries (reset_of s).entries
      × All IsPristine (reset_of s).entries
      × ((reset_of (reset_of s)).entries ≡ (reset_of s).entries)
reset_restores s = (
  reset_entries-Resets s.entries,
  reset_all _ (select_passes is_imported s.entries),
  reset_again _ (select_passes is_imported s.entries),
)
