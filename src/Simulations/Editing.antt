-- ===== src/Simulations/Editing.antt =====
-- `save_scenario` and `duplicate_scenario` of simulations.py. Identifiers that they create, and the
-- texts that they compute (an upper-case code, the key of an entry, the name of a copy), are
-- arguments.
use imtegrale.Prelude.{
  ℕ, ◌+◌, Bool, true, false, not, ◌&&◌, ◌||◌, Option, none, some, List, [], ◌∷◌, ◌++◌, length, ltb,
  leb, ◌==◌, if◌then◌else◌,
}
use imtegrale.Query.{find, any, order_by}
use imtegrale.Models.{count}
use imtegrale.Events.{record_event}
use imtegrale.Simulations.{
  Values, Entry, SourceStatus, current, is_imported, values_eq, simulated, unavailable,
}
use imtegrale.Simulations.Scenario.{
  Scenario, State, Answer, saved, limit_reached, entry_not_found, duplicate_entry, is_full,
  with_version, commit,
}
use Prim.Native.String.{String}

-- `MAX_SIMULATION_ENTRIES_PER_SCENARIO` of limits.py.
abbrev pub max_simulation_entries : ℕ
max_simulation_entries = 120

-- `SimulationEntryInput`.
pub record EntryInput : Type 0 where
  pub id : Option ℕ
  pub values : Values

abbrev pub supplied_ids : List EntryInput → List ℕ
supplied_ids [] = []
supplied_ids (item ∷ rest) = elim item.id [
  | none ↦ supplied_ids rest
  | some id ↦ id ∷ supplied_ids rest
]

-- `len(supplied_ids) != len(set(supplied_ids))`.
unfoldable pub has_duplicates : List ℕ → Bool
has_duplicates [] = false
has_duplicates (id ∷ rest) = any (λ other. other == id) rest || has_duplicates rest

abbrev pub is_known : List Entry → ℕ → Bool
is_known entries id = any (λ e. e.id == id) entries

-- `set(supplied_ids) - set(existing)`.
abbrev pub has_unknown : List Entry → List EntryInput → Bool
has_unknown entries items = any (λ id. not (is_known entries id)) (supplied_ids items)

abbrev pub no_values : Values
no_values = record {
  semester = none;
  ue_code = none;
  title = none;
  credits_ects = none;
  grade = none;
}

-- The new `SimulationEntry` of an item that no entry stands for.
abbrev pub manual_entry : (ℕ → ℕ) → ℕ → Entry
manual_entry lineage id = record {
  id = id;
  lineage_key = lineage id;
  source_ue_code = none;
  origin = simulated;
  source_status = current;
  now = no_values;
  base = no_values;
  base_grade_source = none;
  source_observed_at = none;
  position = 0;
}

abbrev pub upper_code : (ℕ → ℕ) → Option ℕ → Option ℕ
upper_code upper none = none
upper_code upper (some code) = some (upper code)

abbrev pub is_available : SourceStatus → Bool
is_available unavailable = false
is_available _ = true

abbrev pub or_copy : Option ℕ → ℕ → ℕ
or_copy none copied = copied
or_copy (some given) copied = given

-- The round of the loop for one item.
unfoldable pub written_entry : (ℕ → ℕ) → EntryInput → ℕ → Entry → Entry
written_entry upper item position entry =
    let values = record item.values { ue_code = upper_code upper item.values.ue_code } in
    let edited = record entry { now = values; position = position } in
    if is_imported edited && is_available edited.source_status && values_eq edited.now edited.base
    then record edited { source_status = current }
    else edited

-- `existing.get(item.id) if item.id else None`, or else a new entry.
abbrev pub entry_for : (ℕ → ℕ) → ℕ → List Entry → EntryInput → Entry
entry_for lineage id existing item = elim item.id [
  | none ↦ manual_entry lineage id
  | some known ↦ elim (find (λ e. e.id == known) existing) [
    | none ↦ manual_entry lineage id
    | some entry ↦ entry
  ]
]

-- The entries after the loop, in the order of their positions; an entry that no item names is gone.
unfoldable pub written_entries :
    (ℕ → ℕ) → (ℕ → ℕ) → (ℕ → ℕ) → List Entry → ℕ → List EntryInput → List Entry
unfolding written_entry
written_entries upper lineage fresh existing position [] = []
written_entries upper lineage fresh existing position (item ∷ rest) =
    written_entry upper item position (entry_for lineage (fresh position) existing item)
    ∷ written_entries upper lineage fresh existing (position + 1) rest

abbrev pub written_of : (ℕ → ℕ) → (ℕ → ℕ) → (ℕ → ℕ) → ℕ → List EntryInput → Scenario → Scenario
written_of upper lineage fresh name items s = record s {
  name = name;
  entries = written_entries upper lineage fresh s.entries 0 items;
}

-- `save_scenario`, from the version test on.
unfoldable pub save_write :
    (ℕ → ℕ) → (ℕ → ℕ) → (ℕ → ℕ) → ℕ → ℕ → List EntryInput → State → Scenario → Answer × State
save_write upper lineage fresh now name items state s =
    if has_duplicates (supplied_ids items)
    then (duplicate_entry, state)
    else if has_unknown s.entries items
    then (entry_not_found, state)
    else commit now (λ db. db) (written_of upper lineage fresh name items s) state

-- `save_scenario`.
unfoldable pub save_scenario :
    (ℕ → ℕ) → (ℕ → ℕ) → (ℕ → ℕ) → ℕ → ℕ → ℕ → ℕ → ℕ → List EntryInput → State → Answer × State
unfolding with_version save_write
save_scenario upper lineage fresh now account_id scenario_id version name items state =
    if ltb max_simulation_entries (length items)
    then (limit_reached, state)
    else with_version account_id scenario_id version state
        (save_write upper lineage fresh now name items state)

abbrev pub by_position : Entry → Entry → Bool
by_position a b = leb a.position b.position

-- A copied entry is a new row.
unfoldable pub copied_entries : (ℕ → ℕ) → ℕ → List Entry → List Entry
copied_entries fresh n [] = []
copied_entries fresh n (entry ∷ rest) =
    record entry { id = fresh n } ∷ copied_entries fresh (n + 1) rest

abbrev pub copy_of : (ℕ → ℕ) → ℕ → ℕ → ℕ → Scenario → Scenario
copy_of fresh now id name s = record {
  id = id;
  account_id = s.account_id;
  is_gpa = true;
  name = name;
  from_academic = s.from_academic;
  source_revision = s.source_revision;
  source_captured_at = s.source_captured_at;
  version = 1;
  updated_at = now;
  entries = copied_entries fresh 0 (order_by by_position s.entries);
}

-- `duplicate_scenario`: `id` is the new identifier, `name` the name given and `copy_name` the one
-- made from the original's.
unfoldable pub duplicate_scenario :
    (ℕ → ℕ) → (ℕ → ℕ) → ℕ → ℕ → ℕ → ℕ → ℕ → Option ℕ → String → State → Answer × State
unfolding with_version copied_entries
duplicate_scenario copy_name fresh now id account_id scenario_id version name actor state =
    if is_full account_id state.scenarios
    then (limit_reached, state)
    else with_version account_id scenario_id version state (λ s.
      let copy = copy_of fresh now id (or_copy name (copy_name s.name)) s in
      (
        saved copy,
        record {
          scenarios = state.scenarios ++ copy ∷ [];
          db =
              record_event account_id "simulation:duplicated"
                (count "scenario_id" id ∷ count "source_scenario_id" s.id ∷ []) actor state.db;
        },
      ))
