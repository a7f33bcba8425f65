-- ===== src/Import/Entries.antt =====
-- `validate_pass_entries` and `pass_source_key` of sync.py, and the values of an entry.
use imtegrale.Prelude.{
  ℕ, Bool, not, ◌&&◌, ◌||◌, Option, none, some, List, [], ◌∷◌, ltb, ◌==◌, if◌then◌else◌, length,
}
use imtegrale.Import.{Texts, Floats, PassEntry}
use Prim.Native.String.{String, ◌++◌ as ◌+++◌}

-- The values of an entry as a note stores them, with the key of the note.
pub record Values : Type 0 where
  pub key : ℕ
  pub code : String
  pub label : String
  pub score : ℕ
  pub coefficient : ℕ
  pub is_resit : Bool

-- `ue_code` of calculations.py.
abbrev pub ue_code : Texts → String → String
ue_code texts value = texts.upper (texts.clean value)

abbrev pub ue_year : Texts → String → String
ue_year texts code = texts.first_digit (ue_code texts code)

module _ {F : Type 0} (texts : Texts) (floats : Floats F) where
  abbrev pub pass_source_key : PassEntry F → ℕ
  pass_source_key entry = texts.digest (
      ue_code texts entry.ue_code
      +++ "|"
      +++ texts.casefold (texts.clean entry.label)
      +++ "|"
      +++ floats.general entry.coefficient
      +++ "|"
      +++ (if entry.is_resit then "resit" else "normal"))

  abbrev pub values_of : PassEntry F → Values
  values_of entry = record {
    key = pass_source_key entry;
    code = ue_code texts entry.ue_code;
    label = texts.clean entry.label;
    score = floats.score_decimal entry.score;
    coefficient = floats.coefficient_decimal entry.coefficient;
    is_resit = entry.is_resit;
  }

  -- The message of the first ImtFetchError that an entry raises.
  abbrev entry_error : PassEntry F → Option String
  entry_error entry =
      let code = texts.characters (ue_code texts entry.ue_code) in
      let label = texts.characters (texts.clean entry.label) in
      if code == 0 || ltb 32 code
      then some "PASS a fourni un code UE invalide"
      else if label == 0 || ltb 240 label
      then some "PASS a fourni un libellé de note invalide"
      else if not (floats.is_finite entry.score)
          || not (
              floats.at_most (floats.of_nat 0) entry.score
              && floats.at_most entry.score (floats.of_nat 20))
      then some "PASS a fourni une note invalide"
      else if not (floats.is_finite entry.coefficient)
          || floats.at_most entry.coefficient (floats.of_nat 0)
          || not (floats.at_most entry.coefficient (floats.of_nat 100))
      then some "PASS a fourni un coefficient invalide"
      else none

  abbrev first_error : List (PassEntry F) → Option String
  first_error [] = none
  first_error (entry ∷ rest) = elim (entry_error entry) [
    | some message ↦ some message
    | none ↦ first_error rest
  ]

  unfoldable pub validate_pass_entries : List (PassEntry F) → Option String
  validate_pass_entries entries =
      if ltb 2_000 (length entries) then some "PASS a fourni trop de notes" else first_error entries
