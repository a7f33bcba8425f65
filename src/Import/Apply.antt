-- ===== src/Import/Apply.antt =====
-- `apply_pass_entries` of sync.py: the loop over the entries, the notes that are gone, the journal.
use imtegrale.Prelude.{
  ℕ, ◌+◌, Bool, true, false, not, ◌&&◌, ◌||◌, none, some, List, [], ◌∷◌, ◌++◌, leb, ltb, ◌==◌,
  if◌then◌else◌, length, drop, map,
}
use imtegrale.Query.{select, update, delete, find, any, order_by}
use imtegrale.Models.{Db, Account, Detail, count, words, hundredths}
use imtegrale.Events.{record_event}
use imtegrale.Store.{set_account}
use imtegrale.Import.{
  Texts, Floats, PassEntry, Note, UeSetting, State, is_pass_note, is_keyed, bool_eq,
}
use imtegrale.Import.Entries.{Values, values_of, validate_pass_entries, ue_year}
use Prim.Native.String.{String}
use text.Mathlib.Text.{◌==◌ as str_eq}

-- What the loop over the entries has built: the tables, the sets of keys and codes, the notes
-- inserted and the number of notes changed.
pub record Progress : Type 0 where
  pub notes : List Note
  pub next_note_id : ℕ
  pub ue_settings : List UeSetting
  pub known_ue_codes : List String
  pub active_keys : List ℕ
  pub inserted : List ℕ
  pub changed : ℕ

abbrev pub has_code : String → List String → Bool
has_code code = any (λ c. str_eq c code)

abbrev pub has_key : ℕ → List ℕ → Bool
has_key key = any (λ k. k == key)

abbrev pub new_note : ℕ → ℕ → ℕ → Values → Note
new_note account_id id now v = record {
  id = id;
  account_id = account_id;
  source = "pass";
  source_key = v.key;
  ue_code = v.code;
  raw_label = v.label;
  raw_score = v.score;
  raw_coefficient = v.coefficient;
  raw_is_resit = v.is_resit;
  label_override = none;
  score_override = none;
  coefficient_override = none;
  is_resit_override = none;
  updated_at = now;
  archived = false;
  hidden_by_user = false;
}

-- `values == current`.
abbrev pub is_current : Values → Note → Bool
is_current v n =
    str_eq v.code n.ue_code
    && str_eq v.label n.raw_label
    && v.score == n.raw_score
    && v.coefficient == n.raw_coefficient
    && bool_eq v.is_resit n.raw_is_resit
    && not n.archived

abbrev pub refreshed : ℕ → Values → Note → Note
refreshed now v n = record n {
  ue_code = v.code;
  raw_label = v.label;
  raw_score = v.score;
  raw_coefficient = v.coefficient;
  raw_is_resit = v.is_resit;
  archived = false;
  updated_at = now;
}

-- The note of one entry is inserted, or refreshed when a value differs.
unfoldable pub import_note : ℕ → ℕ → Values → Progress → Progress
import_note account_id now v p = elim (find (is_keyed account_id v.key) p.notes) [
  | none ↦ record p {
    notes = p.notes ++ new_note account_id p.next_note_id now v ∷ [];
    next_note_id = p.next_note_id + 1;
    inserted = p.inserted ++ p.next_note_id ∷ [];
  }
  | some note ↦ if is_current v note then p else record p {
    notes = update (is_keyed account_id v.key) (refreshed now v) p.notes;
    changed = p.changed + 1;
  }
]

-- One round of the loop.
unfoldable pub import_entry : Texts → ℕ → ℕ → Values → Progress → Progress
unfolding import_note
import_entry texts account_id now v p =
    let done = import_note account_id now v p in
    let keyed = record done {
      active_keys =
          if has_key v.key p.active_keys then p.active_keys else p.active_keys ++ v.key ∷ [];
    } in
    if has_code v.code p.known_ue_codes then keyed else record keyed {
      ue_settings =
          p.ue_settings
          ++ record { account_id = account_id; code = v.code; year = ue_year texts v.code } ∷ [];
      known_ue_codes = v.code ∷ p.known_ue_codes;
    }

unfoldable pub import_each : Texts → ℕ → ℕ → List Values → Progress → Progress
unfolding import_entry
import_each texts account_id now [] p = p
import_each texts account_id now (v ∷ rest) p =
    import_each texts account_id now rest (import_entry texts account_id now v p)

-- The notes that PASS no longer shows.
abbrev pub is_gone : ℕ → List ℕ → Note → Bool
is_gone account_id active_keys n =
    is_pass_note account_id n && not n.archived && not (has_key n.source_key active_keys)

unfoldable pub archive_gone : ℕ → ℕ → List ℕ → List Note → List Note
archive_gone account_id now active_keys =
    update (is_gone account_id active_keys) (λ n. record n { archived = true; updated_at = now })

-- `.order_by(Note.updated_at.desc(), Note.id.desc())`.
abbrev newest_first : Note → Note → Bool
newest_first a b = ltb b.updated_at a.updated_at || (a.updated_at == b.updated_at && leb b.id a.id)

abbrev pub is_archived_note : ℕ → Note → Bool
is_archived_note account_id n = is_pass_note account_id n && n.archived

abbrev pub stale_archived : ℕ → List Note → List Note
stale_archived account_id notes =
    drop 1_000 (order_by newest_first (select (is_archived_note account_id) notes))

unfoldable pub delete_stale : ℕ → List Note → List Note
delete_stale account_id notes =
    delete (λ n. any (λ s. s.id == n.id) (stale_archived account_id notes)) notes

-- The events of the notes inserted, from the rows as they stand.
abbrev note_details : Note → List Detail
note_details n =
    count "note_id" n.id
    ∷ words "ue_code" n.ue_code
    ∷ words "label" n.raw_label
    ∷ hundredths "score" n.raw_score
    ∷ []

abbrev pub record_inserted : ℕ → String → List Note → List ℕ → Db → Db
record_inserted account_id actor notes [] db = db
record_inserted account_id actor notes (id ∷ rest) db =
    record_inserted account_id actor notes rest (elim (find (λ n. n.id == id) notes) [
      | none ↦ db
      | some n ↦ record_event account_id "note:new" (note_details n) actor db
    ])

pub record Summary : Type 0 where
  pub total : ℕ
  pub inserted : List ℕ
  pub updated : ℕ
  pub archived : ℕ
  pub changed : Bool

abbrev codes : List UeSetting → List String
codes [] = []
codes (u ∷ us) = u.code ∷ codes us

abbrev pub distinct_codes : List Values → List String
distinct_codes [] = []
distinct_codes (v ∷ rest) =
    let later = distinct_codes rest in if has_code v.code later then later else v.code ∷ later

abbrev pub missing_codes : List String → List String → List String
missing_codes known [] = []
missing_codes known (c ∷ rest) =
    let later = missing_codes known rest in if has_code c known then later else c ∷ later

abbrev pub start : ℕ → State → Progress
start account_id s = record {
  notes = s.notes;
  next_note_id = s.next_note_id;
  ue_settings = s.ue_settings;
  known_ue_codes = codes (select (λ u. u.account_id == account_id) s.ue_settings);
  active_keys = [];
  inserted = [];
  changed = 0;
}

-- From the loop on, once the limits hold: the notes, the journal and the account.
unfoldable pub finish_import : String → Bool → ℕ → Account → Progress → State → Summary × State
unfolding archive_gone delete_stale
finish_import actor initial_import now account p s =
    let gone = select (is_gone account.id p.active_keys) p.notes in
    let archived = archive_gone account.id now p.active_keys p.notes in
    let kept = delete_stale account.id archived in
    let summary : Summary = record {
      total = length p.active_keys;
      inserted = p.inserted;
      updated = p.changed;
      archived = length gone;
      changed = not (length p.inserted == 0) || not (p.changed == 0) || not (length gone == 0);
    } in
    let noted =
      if initial_import then s.db else record_inserted account.id actor archived p.inserted s.db in
    let told =
      record_event account.id "sync:completed"
        (count "total" summary.total
          ∷ count "inserted" (length p.inserted)
          ∷ count "updated" p.changed
          ∷ count "archived" (length gone)
          ∷ [])
        actor noted in
    (
      summary,
      record {
        db = record told {
          accounts =
              set_account account.id
                (record account {
                  last_sync_at = some now;
                  last_sync_status = "success";
                  last_sync_error = none;
                })
                told.accounts;
        };
        notes = kept;
        next_note_id = p.next_note_id;
        ue_settings = p.ue_settings;
        dates = record {
          last_successful_sync_at = some now;
          last_note_change_at = if summary.changed then some now else s.dates.last_note_change_at;
        };
      },
    )

unfoldable pub import_values :
    Texts → String → Bool → ℕ → Account → List Values → State → Summary × State
unfolding import_each finish_import
import_values texts actor initial_import now account values s =
    finish_import actor initial_import now account
      (import_each texts account.id now values (start account.id s)) s

-- An ImtFetchError, or the summary.
pub data Imported : Type 0 where
  fetch_error : String → Imported
  imported : Summary → Imported

unfoldable pub apply_pass_entries :
    {F : Type 0}
    → Texts
    → Floats F
    → String
    → Bool
    → ℕ
    → Account
    → List (PassEntry F)
    → State
    → Imported × State
unfolding import_values validate_pass_entries
apply_pass_entries texts floats actor initial_import now account entries s =
    elim (validate_pass_entries texts floats entries) [
      | some message ↦ (fetch_error message, s)
      | none ↦
          let values = map (values_of texts floats) entries in
          let incoming = distinct_codes values in
          let known = (start account.id s).known_ue_codes in
          if ltb 256 (length incoming)
          then (fetch_error "PASS a fourni trop d'UE distinctes", s)
          else if ltb 256 (length known + length (missing_codes known incoming))
          then (fetch_error "La limite d'UE du compte serait dépassée", s)
          else (let (summary, t) = import_values texts actor initial_import now account values s in
              (imported summary, t))
    ]
