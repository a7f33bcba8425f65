-- ===== src/Simulations/Saving.antt =====
-- How `save_scenario` ends, and what it stores: the items of the request, one entry for each.
pub mod Rows
use imtegrale.Prelude.{
  ℕ, ◌+◌, ◌≤◌, ◌<◌, ◌≡◌, ◌≢◌, refl, sym, ap, ◌∙◌, inl, inr, Bool, true, false, not, none, some,
  List, [], ◌∷◌, length, ltb, arith, All, All-member, Memᴰ, ◌==◌, ==_iff, Bool-cases, Option-cases,
  if-cases,
}
use imtegrale.Query.{find, any}
use imtegrale.Query.Rows.{find_sound, any_absent, All-imp}
use imtegrale.Simulations.{Values, Entry, is_imported}
use imtegrale.Simulations.Scenario.{
  Scenario, State, Answer, saved, not_found, version_conflict, set_scenario, with_version,
  limit_reached, duplicate_entry, entry_not_found, find_scenario,
}
use imtegrale.Query.Keys.{IsUnique}
use imtegrale.Simulations.Editing.{
  EntryInput, max_simulation_entries, supplied_ids, has_duplicates, has_unknown, is_known,
  upper_code, manual_entry, written_entry, entry_for, written_entries, save_write, save_scenario,
}
use imtegrale.Simulations.Saving.Rows.{Writes, has_unknown-AreKnown, written_entries-Writes}

any_member :
    (p : ℕ → Bool) (ids : List ℕ) → any p ids ≡ true → (id : ℕ) × Memᴰ id ids × (p id ≡ true)
any_member p [] h = cc
any_member p (id ∷ rest) h = elim (Bool-cases (p id)) [
  | inl e ↦ (id, Memᴰ.head refl, e)
  | inr e ↦ let (other, m, holds) = any_member p rest (rw e at h) in (other, Memᴰ.tail m, holds)
]

distinct_of : (ids : List ℕ) → has_duplicates ids ≡ false → IsUnique (λ id. id) ids
unfolding has_duplicates
distinct_of [] h = tt
distinct_of (id ∷ rest) h =
    let absent : any (λ other. other == id) rest ≡ false = ground arith in
    let tail : has_duplicates rest ≡ false = ground arith in
    (
      All-imp (λ other. (other == id) ≡ false) (λ other. other ≢ id)
          (λ other k e. ground (arith, k, e)) rest (any_absent (λ other. other == id) rest absent),
      distinct_of rest tail,
    )

repeated_of : (ids : List ℕ) → has_duplicates ids ≡ true → IsUnique (λ id. id) ids → ⊥
unfolding has_duplicates
repeated_of [] h u = cc
repeated_of (id ∷ rest) h u = elim (Bool-cases (any (λ other. other == id) rest)) [
  | inl e ↦
      let (other, m, same) = any_member (λ other. other == id) rest e in
      All-member (λ other. other ≢ id) u.0 m ((==_iff other id).0 same)
  | inr e ↦ repeated_of rest (rw e at h) u.1
]

unknown_of :
    (existing : List Entry) (items : List EntryInput)
    → has_unknown existing items ≡ true
    → (id : ℕ) × Memᴰ id (supplied_ids items) × All (λ e. e.id ≢ id) existing
unknown_of existing items h =
    let (id, m, unknown) = any_member (λ id. not (is_known existing id)) (supplied_ids items) h in
    (
      id,
      m,
      All-imp (λ e. (e.id == id) ≡ false) (λ e. e.id ≢ id) (λ e k same. ground (arith, k, same))
          existing (any_absent (λ e. e.id == id) existing (ground arith)),
    )

-- What a save stores: exactly the items, in order, under the name given and one version on.
pub record HasWritten (upper : ℕ → ℕ) (name : ℕ) (items : List EntryInput) (before after : Scenario)
    : Type 0 where
  pub same : (after.id ≡ before.id) × (after.account_id ≡ before.account_id)
  pub named : after.name ≡ name
  pub bumped : after.version ≡ before.version + 1
  pub stored : Writes upper before.entries 0 items after.entries

module _ (upper : ℕ → ℕ) (account_id scenario_id version name : ℕ) (items : List EntryInput)
    (state : State) where
  -- How a save ends, with what each end needs.
  pub data Saves : Answer → State → Type 0 where
    too_many : 120 < length items → Saves limit_reached state
    absent :
        length items ≤ 120
        → find_scenario account_id scenario_id state.scenarios ≡ none
        → Saves not_found state
    stale :
        (s : Scenario)
        → length items ≤ 120
        → find_scenario account_id scenario_id state.scenarios ≡ some s
        → s.version ≢ version
        → Saves (version_conflict s.version) state
    repeated : (IsUnique (λ id. id) (supplied_ids items) → ⊥) → Saves duplicate_entry state
    unknown :
        (s : Scenario) (id : ℕ)
        → find_scenario account_id scenario_id state.scenarios ≡ some s
        → Memᴰ id (supplied_ids items)
        → All (λ e. e.id ≢ id) s.entries
        → Saves entry_not_found state
    stores :
        (s t : Scenario)
        → length items ≤ 120
        → find_scenario account_id scenario_id state.scenarios ≡ some s
        → s.version ≡ version
        → IsUnique (λ id. id) (supplied_ids items)
        → HasWritten upper name items s t
        → Saves (saved t) (record state { scenarios = set_scenario t state.scenarios })

  module _ (lineage fresh : ℕ → ℕ) (now : ℕ) where
    abbrev Ends : Answer × State → Type 0
    Ends r = Saves r.0 r.1

    save_write-Saves :
        (s : Scenario)
        → length items ≤ 120
        → find_scenario account_id scenario_id state.scenarios ≡ some s
        → s.version ≡ version
        → Ends (save_write upper lineage fresh now name items state s)
    unfolding save_write
    save_write-Saves s small found at =
        if-cases Ends (has_duplicates (supplied_ids items))
          (λ twice. repeated (repeated_of (supplied_ids items) twice))
          (λ once.
            if-cases Ends (has_unknown s.entries items)
              (λ missing.
                let (id, m, gone) = unknown_of s.entries items missing in unknown s id found m gone)
              (λ known. stores s _ small found at (distinct_of (supplied_ids items) once) (record {
                same = (refl, refl);
                named = refl;
                bumped = refl;
                stored =
                    written_entries-Writes upper lineage fresh s.entries items 0
                      (has_unknown-AreKnown s.entries items known);
              })))

    -- How a save ends: it is refused, without a change, for more than 120 items, for an absent
    -- scenario, for another version than the one given, for an identifier that is named twice or
    -- that no entry has; else it stores exactly the items, in order, under the name given and one
    -- version on: an item that names an entry changes that entry's values and keeps its identifier,
    -- origin and baseline, an item that names none adds an entry that is not imported, and an entry
    -- that no item names is gone.
    pub save_scenario-Saves :
        let r =
          save_scenario upper lineage fresh now account_id scenario_id version name items state in
        Saves r.0 r.1
    unfolding save_scenario with_version
    save_scenario-Saves =
        if-cases Ends (ltb max_simulation_entries (length items)) (λ many. too_many (ground arith))
          (λ few.
            let small : length items ≤ 120 = ground arith in
            elim (Option-cases (find_scenario account_id scenario_id state.scenarios)) [
              | inl e ↦ rw (e, with_version) (absent small e)
              | inr (s, e) ↦
                  rw (e, with_version)
                    (if-cases Ends (s.version == version)
                      (λ at. save_write-Saves s small e ((==_iff s.version version).0 at))
                      (λ other. stale s small e (λ same. ground (arith, other, same))))
            ])
