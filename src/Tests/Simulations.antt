-- ===== src/Tests/Simulations.antt =====
-- The theorems on simulations, on a scenario with one row that the student changed, one left alone
-- and one added, while the academic data moved.
use imtegrale.Prelude.{
  ℕ, ◌+◌, ◌⊎◌, ◌≡◌, refl, true, Option, none, some, List, [], ◌∷◌, All, ◌≤◌, length,
}
use imtegrale.Simulations.{Values, Grade, Entry, Row, Source, Origin, SourceStatus}
use imtegrale.Simulations.Scenario.{
  Scenario, State, saved, version_conflict, limit_reached, with_version, reset_scenario, reset_of,
  told,
}
use imtegrale.Simulations.Versions.{
  Request, reset, save, edit, answer, IsOverLimit, run, second_writer_refused,
}
use imtegrale.Simulations.Merge.Resetting.{Resets}
use imtegrale.Simulations.Merge.{IsPristine, reset_restores}
use imtegrale.Simulations.Aggregate.{tally, no_totals, gpa_of, aggregate_bounds}
use imtegrale.Simulations.Editing.{EntryInput, save_scenario}
use imtegrale.Simulations.Saving.{Saves, save_scenario-Saves}
use imtegrale.Tests.Samples.{db}

abbrev graded : Grade → Values
graded grade = record {
  semester = some 5;
  ue_code = some 1;
  title = some 1;
  credits_ects = some 400;
  grade = some grade;
}

abbrev entry : ℕ → Option ℕ → Origin → Grade → Grade → Entry
entry id ue origin now base = record {
  id = id;
  lineage_key = id;
  source_ue_code = ue;
  origin = origin;
  source_status = SourceStatus.current;
  now = graded now;
  base = graded base;
  base_grade_source = none;
  source_observed_at = none;
  position = id;
}

abbrev row : ℕ → Grade → Row
row code grade = record {
  source_ue_code = code;
  values = graded grade;
  grade_source = none;
  observed_at = 7;
}

-- Both sides moved in UE 1, the data alone in UE 2; UE 3 is new.
abbrev entries : List Entry
entries =
    entry 0 (some 1) Origin.imported Grade.a Grade.c
    ∷ entry 1 (some 2) Origin.imported Grade.b Grade.b
    ∷ entry 2 none Origin.simulated Grade.a Grade.a
    ∷ []

abbrev rows : List Row
rows = row 1 Grade.b ∷ row 2 Grade.d ∷ row 3 Grade.e ∷ []

abbrev lineage : ℕ → ℕ
lineage code = code + 100

abbrev fresh : ℕ → ℕ
fresh position = position + 50

abbrev scenario : Scenario
scenario = record {
  id = 40;
  account_id = 1;
  is_gpa = true;
  name = 0;
  from_academic = true;
  source_revision = some 6;
  source_captured_at = some 6;
  version = 3;
  updated_at = 0;
  entries = entries;
}

reset_restores_example :
    Resets scenario.entries (reset_of scenario).entries
    × All IsPristine (reset_of scenario).entries
    × ((reset_of (reset_of scenario)).entries ≡ (reset_of scenario).entries)
reset_restores_example = reset_restores scenario

abbrev state : State
state = record { scenarios = scenario ∷ []; db = db }

abbrev source : Source
source = record { revision = 8; captured_at = 7; rows = rows }

abbrev after_reset : Scenario
after_reset = record (reset_of scenario) { version = 4; updated_at = 9 }

abbrev next_state : State
next_state = record { scenarios = after_reset ∷ []; db = told 1 "simulation:reset" 40 "owner" db }

reset_saves : run reset 9 1 40 3 "owner" state ≡ (saved after_reset, next_state)
unfolding run reset_scenario with_version
reset_saves = refl

-- Another tab saves the scenario without its first row.
abbrev other_tab : Request
other_tab =
    edit (save (λ c. c) lineage fresh 0 (record { id = some 1; values = graded Grade.b } ∷ []))

second_writer_refused_example :
    (answer other_tab 11 1 40 3 "other tab" next_state ≡ (version_conflict 4, next_state))
    ⊎ (IsOverLimit other_tab 1 next_state
        × (answer other_tab 11 1 40 3 "other tab" next_state ≡ (limit_reached, next_state)))
second_writer_refused_example =
    second_writer_refused reset other_tab 9 11 1 40 3 "owner" "other tab" state next_state
      after_reset reset_saves

-- The second row with another grade, and a new one.
abbrev items : List EntryInput
items =
    record { id = some 1; values = graded Grade.a }
    ∷ record { id = none; values = graded Grade.e }
    ∷ []

save_scenario-Saves_example :
    let r = save_scenario (λ c. c) lineage fresh 9 1 40 3 7 items state in
    Saves (λ c. c) 1 40 3 7 items state r.0 r.1
save_scenario-Saves_example = save_scenario-Saves (λ c. c) 1 40 3 7 items state lineage fresh 9

aggregate_bounds_example :
    ((tally no_totals entries).graded_count + (tally no_totals entries).pending_count
      ≡ length entries)
    × ((g : ℕ) → gpa_of (tally no_totals entries) ≡ some g → g ≤ 400)
aggregate_bounds_example = aggregate_bounds entries

-- Two rows of grade A and one of B, of four credits each: 3.93.
gpa_here : gpa_of (tally no_totals entries) ≡ some 393
unfolding gpa_of tally
gpa_here = refl
