-- ===== src/Simulations/Merge/Imported.antt =====
-- The entries that a rebase adds: one for each row left over, at the next free positions.
use imtegrale.Prelude.{ℕ, ◌+◌, ◌<◌, ◌≤◌, ◌≡◌, refl, true, some, List, [], ◌∷◌, arith, All}
use imtegrale.Query.Rows.{All-imp}
use imtegrale.Simulations.{Entry, Row, current, is_imported, import_rows, next_position}

-- The entry that a row of the academic data becomes at a position.
pub record IsImport (row : Row) (position : ℕ) (entry : Entry) : Type 0 where
  pub from_source : is_imported entry ≡ true
  pub coded : entry.source_ue_code ≡ some row.source_ue_code
  pub shows : (entry.now ≡ row.values) × (entry.base ≡ row.values)
  pub graded : entry.base_grade_source ≡ row.grade_source
  pub settled_now : entry.source_status ≡ current
  pub placed : entry.position ≡ position

-- One entry for each row, in order, at the positions from `position` on.
pub data Imports : List Row → ℕ → List Entry → Type 0 where
  done : {position : ℕ} → Imports [] position []
  imports :
      {row : Row} {position : ℕ} {entry : Entry} {rows : List Row} {entries : List Entry}
      → IsImport row position entry
      → Imports rows (position + 1) entries
      → Imports (row ∷ rows) position (entry ∷ entries)

-- The first position after those of the entries.
pub record IsNextFree (entries : List Entry) (position : ℕ) : Type 0 where
  pub after_all : All (λ entry. entry.position < position) entries
  pub least : (n : ℕ) → All (λ entry. entry.position < n) entries → position ≤ n

pub import_rows-Imports :
    (lineage fresh : ℕ → ℕ) (rows : List Row) (position : ℕ)
    → Imports rows position (import_rows lineage fresh rows position)
unfolding import_rows
import_rows-Imports lineage fresh [] position = done
import_rows-Imports lineage fresh (row ∷ rest) position =
    imports
      (record {
        from_source = refl;
        coded = refl;
        shows = (refl, refl);
        graded = refl;
        settled_now = refl;
        placed = refl;
      })
      (import_rows-Imports lineage fresh rest (position + 1))

pub next_position-IsNextFree : (entries : List Entry) → IsNextFree entries (next_position entries)
unfolding next_position
next_position-IsNextFree [] = record { after_all = tt; least = λ n h. omega arith }
next_position-IsNextFree (entry ∷ rest) =
    let tail = next_position-IsNextFree rest in
    record {
      after_all = (
        ground arith,
        All-imp (λ e. e.position < next_position rest) _ (λ e h. ground (arith, h)) rest
            tail.after_all,
      );
      least = λ n h. let below = h.0 in let more = tail.least n h.1 in ground (arith, below, more);
    }
