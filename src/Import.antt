-- ===== src/Import.antt =====
-- The import of marks from PASS: apply_pass_entries of backend/app/services/sync.py. What Python's
-- texts and floats do is a parameter; scores are stored in hundredths, coefficients in thousandths.
pub mod Entries
pub mod Apply
pub mod Loop
pub mod Mirror
pub mod Again
pub mod Frame
pub mod Outcome
use imtegrale.Prelude.{ℕ, Bool, true, false, not, ◌&&◌, Option, none, some, List, [], ◌∷◌, ◌==◌}
use imtegrale.Models.{Db, Account}
use Prim.Native.String.{String}
use text.Mathlib.Text.{◌==◌ as str_eq}

-- `" ".join(value.split())`, `upper`, `casefold`, `len`, the first digit that a search finds, and
-- the first 32 characters of a SHA-256 digest, as a number.
pub record Texts : Type 0 where
  pub clean : String → String
  pub upper : String → String
  pub casefold : String → String
  pub characters : String → ℕ
  pub first_digit : String → String
  pub digest : String → ℕ

-- The floats: comparisons, `math.isfinite`, the format `g`, `score_decimal` in hundredths and
-- `coefficient_decimal` in thousandths.
pub record Floats (F : Type 0) : Type 0 where
  pub of_nat : ℕ → F
  pub at_most : F → F → Bool
  pub is_finite : F → Bool
  pub general : F → String
  pub score_decimal : F → ℕ
  pub coefficient_decimal : F → ℕ

-- `PassEntry` of imt.py.
pub record PassEntry (F : Type 0) : Type 0 where
  pub ue_code : String
  pub label : String
  pub score : F
  pub coefficient : F
  pub is_resit : Bool

-- A row of `Note`, without the instant of its detection.
pub record Note : Type 0 where
  pub id : ℕ
  pub account_id : ℕ
  pub source : String
  pub source_key : ℕ
  pub ue_code : String
  pub raw_label : String
  pub raw_score : ℕ
  pub raw_coefficient : ℕ
  pub raw_is_resit : Bool
  pub label_override : Option String
  pub score_override : Option ℕ
  pub coefficient_override : Option ℕ
  pub is_resit_override : Option Bool
  pub updated_at : ℕ
  pub archived : Bool
  pub hidden_by_user : Bool

-- The columns of `UeSetting` that an import of marks writes.
pub record UeSetting : Type 0 where
  pub account_id : ℕ
  pub code : String
  pub year : String

-- The columns of `Account` that an import writes and no other modelled operation reads.
pub record ImportDates : Type 0 where
  pub last_successful_sync_at : Option ℕ
  pub last_note_change_at : Option ℕ

pub record State : Type 0 where
  pub db : Db
  pub notes : List Note
  -- The identifier of the next new note; no row has it or a later one.
  pub next_note_id : ℕ
  pub ue_settings : List UeSetting
  pub dates : ImportDates

-- The PASS notes of an account.
abbrev pub is_pass_note : ℕ → Note → Bool
is_pass_note account_id n = n.account_id == account_id && str_eq n.source "pass"

-- The note that `existing` holds under a key; the columns account, source and key are unique.
abbrev pub is_keyed : ℕ → ℕ → Note → Bool
is_keyed account_id key n = is_pass_note account_id n && n.source_key == key

abbrev pub bool_eq : Bool → Bool → Bool
bool_eq true b = b
bool_eq false b = not b
