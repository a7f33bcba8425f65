-- ===== src/Simulations.antt =====
-- GPA simulations: backend/app/services/simulations.py. Texts that are only compared (codes,
-- titles, semesters) are numbers, and the empty text is `none`, as a NULL is; credits are counted
-- in hundredths, the scale of their column, so `_as_decimal` is the identity.
pub mod Scenario
pub mod Editing
pub mod Merge
pub mod Versions
pub mod Saving
pub mod Aggregate
use imtegrale.Prelude.{
  ℕ, ◌+◌, max, Bool, true, false, not, ◌&&◌, Option, none, some, List, [], ◌∷◌, ◌++◌, ◌==◌,
  if◌then◌else◌, holds, is_some_of,
}
use imtegrale.Query.{find, delete}

pub data Grade : Type 0 where
  a b c d e fx f : Grade

-- What a student edits in a row, and what the academic data say of it.
pub record Values : Type 0 where
  pub semester : Option ℕ
  pub ue_code : Option ℕ
  pub title : Option ℕ
  pub credits_ects : Option ℕ
  pub grade : Option Grade

pub data Origin : Type 0 where
  imported simulated : Origin

pub data SourceStatus : Type 0 where
  current conflict unavailable : SourceStatus

-- A row of `SimulationEntry`, but for its times of creation and change.
pub record Entry : Type 0 where
  pub id : ℕ
  pub lineage_key : ℕ
  pub source_ue_code : Option ℕ
  pub origin : Origin
  pub source_status : SourceStatus
  pub now : Values
  pub base : Values
  pub base_grade_source : Option ℕ
  pub source_observed_at : Option ℕ
  pub position : ℕ

-- A row of the academic data, as `_academic_source` reads them.
pub record Row : Type 0 where
  pub source_ue_code : ℕ
  pub values : Values
  pub grade_source : Option ℕ
  pub observed_at : ℕ

pub record Source : Type 0 where
  pub revision : ℕ
  pub captured_at : ℕ
  pub rows : List Row

abbrev pub opt_eq : Option ℕ → Option ℕ → Bool
opt_eq none none = true
opt_eq (some m) (some n) = m == n
opt_eq _ _ = false

abbrev grade_number : Grade → ℕ
grade_number a = 0
grade_number b = 1
grade_number c = 2
grade_number d = 3
grade_number e = 4
grade_number fx = 5
grade_number f = 6

abbrev pub grade_eq : Option Grade → Option Grade → Bool
grade_eq none none = true
grade_eq (some g) (some h) = grade_number g == grade_number h
grade_eq _ _ = false

-- Equality of the tuples of `_current`, `_baseline` and `_row_values`.
abbrev pub values_eq : Values → Values → Bool
values_eq v w =
    opt_eq v.semester w.semester
    && opt_eq v.ue_code w.ue_code
    && opt_eq v.title w.title
    && opt_eq v.credits_ects w.credits_ects
    && grade_eq v.grade w.grade

abbrev pub is_imported : Entry → Bool
is_imported entry = elim entry.origin [ imported ↦ true | simulated ↦ false ]

-- `_is_modified`.
abbrev pub is_modified : Entry → Bool
is_modified entry = is_imported entry && not (values_eq entry.now entry.base)

-- `_apply_baseline`.
abbrev pub apply_baseline : Row → Entry → Entry
apply_baseline row entry = record entry {
  base = row.values;
  base_grade_source = row.grade_source;
  source_observed_at = some row.observed_at;
}

-- `_imported_entry`; `lineage` is the key "source:" and the code.
abbrev pub imported_entry : (ℕ → ℕ) → ℕ → Row → ℕ → Entry
imported_entry lineage id row position = record {
  id = id;
  lineage_key = lineage row.source_ue_code;
  source_ue_code = some row.source_ue_code;
  origin = imported;
  source_status = current;
  now = row.values;
  base = row.values;
  base_grade_source = row.grade_source;
  source_observed_at = some row.observed_at;
  position = position;
}

-- One round of the loop of `rebase_scenario`, for an entry whose row is there.
unfoldable pub rebase_entry : Row → Entry → Entry
rebase_entry row entry =
    let was_modified = not (values_eq entry.now entry.base) in
    let source_changed = not (values_eq row.values entry.base) in
    let kept = if was_modified then entry else record entry { now = row.values } in
    record (apply_baseline row kept) {
      source_status = if was_modified && source_changed then conflict else current;
    }

abbrev pub row_of : Entry → List Row → Option Row
row_of entry rows = find (λ row. is_some_of row.source_ue_code entry.source_ue_code) rows

abbrev pub has_code : ℕ → Row → Bool
has_code code row = row.source_ue_code == code

-- The round, with `available.pop(code)`.
abbrev pub rebase_one : Entry → List Row → Entry × List Row
rebase_one entry available =
    if is_imported entry
    then elim (row_of entry available) [
      | none ↦ (record entry { source_status = unavailable }, available)
      | some row ↦ (rebase_entry row entry, delete (has_code row.source_ue_code) available)
    ]
    else (entry, available)

unfoldable pub rebase_entries : List Entry → List Row → List Entry × List Row
unfolding rebase_entry
rebase_entries [] available = ([], available)
rebase_entries (entry ∷ rest) available =
    let (entry', left) = rebase_one entry available in
    let (rest', left') = rebase_entries rest left in (entry' ∷ rest', left')

-- `max(entry.position, default=-1) + 1`.
unfoldable pub next_position : List Entry → ℕ
next_position [] = 0
next_position (entry ∷ rest) = max (entry.position + 1) (next_position rest)

-- The rows left over become new entries, at the positions from `position` on.
unfoldable pub import_rows : (ℕ → ℕ) → (ℕ → ℕ) → List Row → ℕ → List Entry
import_rows lineage fresh [] position = []
import_rows lineage fresh (row ∷ rest) position =
    imported_entry lineage (fresh position) row position
    ∷ import_rows lineage fresh rest (position + 1)

-- The entries after `rebase_scenario`.
unfoldable pub rebased : (ℕ → ℕ) → (ℕ → ℕ) → List Row → List Entry → List Entry
unfolding rebase_entries
rebased lineage fresh rows entries =
    let (entries', available) = rebase_entries entries rows in
    entries' ++ import_rows lineage fresh available (next_position entries')

abbrev pub settled : SourceStatus → SourceStatus
settled unavailable = unavailable
settled _ = current

-- `reset_scenario`, on the entries.
abbrev pub reset_entry : Entry → Entry
reset_entry entry = record entry { now = entry.base; source_status = settled entry.source_status }

-- `resolve_conflict`, on the entry: `from_source` when the resolution is "source".
abbrev pub resolved_entry : Bool → Entry → Entry
resolved_entry from_source entry =
    let chosen = if from_source then record entry { now = entry.base } else entry in
    record chosen { source_status = current }
