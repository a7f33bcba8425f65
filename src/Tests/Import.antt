-- ===== src/Tests/Import.antt =====
-- An import of two marks over a table with a mark that PASS no longer shows and a note of another account.
use imtegrale.Prelude.{
  ℕ, ◌≡◌, true, false, none, List, [], ◌∷◌, arith, map, leb, ◌*◌, if◌then◌else◌,
}
use imtegrale.Query.{select}
use imtegrale.Query.Keys.{IsUnique}
use imtegrale.Tests.Samples.{account}
use imtegrale.Import.{Texts, Floats, PassEntry, Note, State}
use imtegrale.Import.Entries.{values_of, Values}
use imtegrale.Import.Apply.{import_values, apply_pass_entries}
use imtegrale.Import.Loop.{IsStocked}
use imtegrale.Import.Again.{import_values-idempotent}
use imtegrale.Import.Frame.{is_other, import_values-keeps_others}
use imtegrale.Import.Outcome.{IsMirrored, apply_pass_entries-IsMirrored}
use Prim.Native.String.{count}
use text.Mathlib.Text.{◌==◌ as str_eq}

-- Texts that are clean already; a digest that is enough for the two keys here.
abbrev texts : Texts
texts = record {
  clean = λ s. s;
  upper = λ s. s;
  casefold = λ s. s;
  characters = count;
  first_digit = λ s. "3";
  digest = λ s. if str_eq s "INF101|Exam|1|normal" then 11 else 12;
}

-- Scores in hundredths stand for floats.
abbrev floats : Floats ℕ
floats = record {
  of_nat = λ n. n * 100;
  at_most = leb;
  is_finite = λ _. true;
  general = λ _. "1";
  score_decimal = λ x. x;
  coefficient_decimal = λ x. x * 10;
}

abbrev entries : List (PassEntry ℕ)
entries =
    record {
      ue_code = "INF101";
      label = "Exam";
      score = 1_450;
      coefficient = 100;
      is_resit = false;
    }
    ∷ record { ue_code = "MAT101"; label = "Test"; score = 900; coefficient = 100; is_resit = true }
    ∷ []

abbrev note : ℕ → ℕ → ℕ → Note
note id account_id key = record {
  id = id;
  account_id = account_id;
  source = "pass";
  source_key = key;
  ue_code = "INF101";
  raw_label = "Exam";
  raw_score = 1_200;
  raw_coefficient = 1_000;
  raw_is_resit = false;
  label_override = none;
  score_override = none;
  coefficient_override = none;
  is_resit_override = none;
  updated_at = 0;
  archived = false;
  hidden_by_user = false;
}

abbrev before : State
before = record {
  db = record {
    accounts = account 1 ∷ [];
    requests = [];
    jobs = [];
    outbox = [];
    events = [];
    next_event_id = 1;
  };
  notes = note 1 1 11 ∷ note 2 1 99 ∷ note 3 2 11 ∷ [];
  next_note_id = 4;
  ue_settings = [];
  dates = record { last_successful_sync_at = none; last_note_change_at = none };
}

abbrev entry_values : List Values
entry_values = map (values_of texts floats) entries

before-IsStocked : IsStocked before.next_note_id before.notes
before-IsStocked = ground arith

entries-IsUnique : IsUnique (λ v. v.key) entry_values
entries-IsUnique = ground arith

apply_pass_entries-IsMirrored_example :
    let (answer, after) =
      apply_pass_entries texts floats "owner" false 50 (account 1) entries before in
    IsMirrored 1 entry_values before answer after
apply_pass_entries-IsMirrored_example =
    apply_pass_entries-IsMirrored texts floats "owner" false 50 (account 1) entries before
      before-IsStocked entries-IsUnique

import_values-idempotent_example :
    let after = (import_values texts "owner" false 50 (account 1) entry_values before).1 in
    let summary = (import_values texts "automatic" false 90 (account 1) entry_values after).0 in
    (summary.inserted ≡ [])
    × (summary.updated ≡ 0)
    × (summary.archived ≡ 0)
    × (summary.changed ≡ false)
import_values-idempotent_example =
    import_values-idempotent texts "owner" "automatic" false false 50 90 (account 1) entry_values
      before before-IsStocked entries-IsUnique

import_values-keeps_others_example :
    select
      (is_other 1)
      (import_values texts "owner" false 50 (account 1) entry_values before).1.notes
    ≡ note 3 2 11 ∷ []
import_values-keeps_others_example =
    import_values-keeps_others texts "owner" false 50 (account 1) entry_values before
      before-IsStocked
