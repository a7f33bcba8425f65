-- ===== src/Simulations/Scenario.antt =====
-- The operations on scenarios of backend/app/services/simulations.py, each one transaction on the
-- table of scenarios and the journal. A scenario is locked when it is read, so no other
-- transaction changes it in between.
use imtegrale.Prelude.{
  ℕ, ◌+◌, Bool, true, ◌&&◌, Option, none, some, List, [], ◌∷◌, ◌++◌, map, length, leb, ◌==◌,
  if◌then◌else◌,
}
use imtegrale.Query.{select, find, update, delete}
use imtegrale.Models.{Db, count}
use imtegrale.Events.{record_event}
use imtegrale.Simulations.{
  Entry, Source, is_imported, import_rows, rebased, reset_entry, resolved_entry,
}
use Prim.Native.String.{String}

-- A row of `SimulationScenario` with its entries; `is_gpa` is the test of its kind.
pub record Scenario : Type 0 where
  pub id : ℕ
  pub account_id : ℕ
  pub is_gpa : Bool
  pub name : ℕ
  pub from_academic : Bool
  pub source_revision : Option ℕ
  pub source_captured_at : Option ℕ
  pub version : ℕ
  pub updated_at : ℕ
  pub entries : List Entry

pub record State : Type 0 where
  pub scenarios : List Scenario
  pub db : Db

-- How an operation ends: with the scenario, or by raising.
pub data Answer : Type 0 where
  saved : Scenario → Answer
  deleted not_found limit_reached entry_not_found duplicate_entry : Answer
  version_conflict : ℕ → Answer

-- `MAX_SIMULATION_SCENARIOS_PER_ACCOUNT` of limits.py.
abbrev pub max_simulation_scenarios : ℕ
max_simulation_scenarios = 5

abbrev pub is_of : ℕ → Scenario → Bool
is_of account_id s = s.account_id == account_id && s.is_gpa

-- `_scenario`.
abbrev pub find_scenario : ℕ → ℕ → List Scenario → Option Scenario
find_scenario account_id scenario_id = find (λ s. s.id == scenario_id && is_of account_id s)

-- `_ensure_capacity`.
abbrev pub is_full : ℕ → List Scenario → Bool
is_full account_id scenarios =
    leb max_simulation_scenarios (length (select (is_of account_id) scenarios))

abbrev pub set_scenario : Scenario → List Scenario → List Scenario
set_scenario s = update (λ x. x.id == s.id) (λ _. s)

abbrev pub told : ℕ → String → ℕ → String → Db → Db
told account_id kind scenario_id actor =
    record_event account_id kind (count "scenario_id" scenario_id ∷ []) actor

-- The read of a scenario and the test of its version that the operations share; `write` is the rest
-- of the operation, with the scenario that it writes, if it does not raise.
unfoldable pub with_version : ℕ → ℕ → ℕ → State → (Scenario → Answer × State) → Answer × State
with_version account_id scenario_id version state write =
    elim (find_scenario account_id scenario_id state.scenarios) [
      | none ↦ (not_found, state)
      | some s ↦ if s.version == version then write s else (version_conflict s.version, state)
    ]

-- `scenario.version += 1`, `updated_at`, and the commit.
abbrev pub commit : ℕ → (Db → Db) → Scenario → State → Answer × State
commit now journal s state =
    let next = record s { version = s.version + 1; updated_at = now } in
    (saved next, record { scenarios = set_scenario next state.scenarios; db = journal state.db })

-- What `reset_scenario`, `rebase_scenario` and `resolve_conflict` write, but for the version.
abbrev pub reset_of : Scenario → Scenario
reset_of s = record s { entries = map reset_entry (select is_imported s.entries) }

abbrev pub rebased_of : (ℕ → ℕ) → (ℕ → ℕ) → Source → Scenario → Scenario
rebased_of lineage fresh source s = record s {
  entries = rebased lineage fresh source.rows s.entries;
  source_revision = some source.revision;
  source_captured_at = some source.captured_at;
}

abbrev pub resolved_of : ℕ → Bool → Scenario → Scenario
resolved_of entry_id from_source s = record s {
  entries = update (λ x. x.id == entry_id) (resolved_entry from_source) s.entries;
}

-- `reset_scenario`.
unfoldable pub reset_scenario : ℕ → ℕ → ℕ → ℕ → String → State → Answer × State
unfolding with_version
reset_scenario now account_id scenario_id version actor state =
    with_version account_id scenario_id version state
      (λ s. commit now (told account_id "simulation:reset" s.id actor) (reset_of s) state)

-- `rebase_scenario`: `source` is what `_academic_source` reads, `lineage` builds the key of an
-- imported entry and `fresh` gives the identifier of the entry at a position.
unfoldable pub rebase_scenario :
    (ℕ → ℕ) → (ℕ → ℕ) → Source → ℕ → ℕ → ℕ → ℕ → String → State → Answer × State
unfolding with_version
rebase_scenario lineage fresh source now account_id scenario_id version actor state =
    with_version account_id scenario_id version state (λ s.
      commit now (told account_id "simulation:rebased" s.id actor)
        (rebased_of lineage fresh source s) state)

-- `resolve_conflict`, from the entry on.
abbrev pub resolve_write : ℕ → ℕ → Bool → State → Scenario → Answer × State
resolve_write now entry_id from_source state s = elim (find (λ e. e.id == entry_id) s.entries) [
  | none ↦ (entry_not_found, state)
  | some e ↦
      if is_imported e
      then commit now (λ db. db) (resolved_of entry_id from_source s) state
      else (entry_not_found, state)
]

-- `resolve_conflict`.
unfoldable pub resolve_conflict : ℕ → ℕ → ℕ → ℕ → ℕ → Bool → State → Answer × State
unfolding with_version
resolve_conflict now account_id scenario_id entry_id version from_source state =
    with_version account_id scenario_id version state (resolve_write now entry_id from_source state)

-- `delete_scenario`.
unfoldable pub delete_scenario : ℕ → ℕ → ℕ → String → State → Answer × State
unfolding with_version
delete_scenario account_id scenario_id version actor state =
    with_version account_id scenario_id version state (λ s. (
      deleted,
      record {
        scenarios = delete (λ x. x.id == s.id) state.scenarios;
        db = told account_id "simulation:deleted" s.id actor state.db;
      },
    ))

-- `create_scenario`; `id` is the new identifier. The account's row is locked from the count on.
unfoldable pub create_scenario :
    (ℕ → ℕ) → (ℕ → ℕ) → Source → ℕ → ℕ → ℕ → ℕ → Bool → String → State → Answer × State
create_scenario lineage fresh source now id account_id name import_current actor state =
    if is_full account_id state.scenarios
    then (limit_reached, state)
    else (let s : Scenario = record {
      id = id;
      account_id = account_id;
      is_gpa = true;
      name = name;
      from_academic = import_current;
      source_revision = if import_current then some source.revision else none;
      source_captured_at = if import_current then some source.captured_at else none;
      version = 1;
      updated_at = now;
      entries = if import_current then import_rows lineage fresh source.rows 0 else [];
    } in
        (
          saved s,
          record {
            scenarios = state.scenarios ++ s ∷ [];
            db =
                record_event account_id "simulation:created"
                  (count "scenario_id" id ∷ count "imported" (if import_current then 1 else 0) ∷ [])
                  actor state.db;
          },
        ))
