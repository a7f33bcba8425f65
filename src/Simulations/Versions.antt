-- ===== src/Simulations/Versions.antt =====
-- The version number of a scenario in simulations.py as an optimistic lock, and the limit on the
-- scenarios of an account.
pub mod Lock
use imtegrale.Prelude.{
  ℕ, ◌+◌, ◌<◌, ◌≤◌, ◌⊎◌, length, ltb, if-cases, ◌≡◌, refl, sym, ap, ◌∙◌, inl, inr, Bool, true,
  false, ◌&&◌, Option, none, some, List, [], ◌∷◌, ◌==◌, arith, Bool-cases, Option-cases,
}
use imtegrale.Query.{find, select}
use imtegrale.Models.{Db}
use imtegrale.Simulations.{Source, is_imported}
use imtegrale.Simulations.Scenario.{
  Scenario, State, Answer, saved, deleted, version_conflict, not_found, entry_not_found,
  find_scenario, limit_reached, duplicate_entry, is_full, is_of, set_scenario, told, reset_of,
  rebased_of, resolved_of, resolve_write, with_version, commit, reset_scenario, rebase_scenario,
  resolve_conflict, delete_scenario,
}
use imtegrale.Simulations.Editing.{
  EntryInput, max_simulation_entries, supplied_ids, has_duplicates, has_unknown, written_of,
  save_write, save_scenario, duplicate_scenario,
}
use Prim.Native.String.{String}
use imtegrale.Simulations.Versions.Lock.{find-replaced, with_version_stale, with_version_saved}

-- The operations that change a scenario, each with the version that its client has seen.
pub data Edit : Type 0 where
  reset delete : Edit
  rebase : (ℕ → ℕ) → (ℕ → ℕ) → Source → Edit
  resolve : ℕ → Bool → Edit
  save : (ℕ → ℕ) → (ℕ → ℕ) → (ℕ → ℕ) → ℕ → List EntryInput → Edit

unfoldable pub run : Edit → ℕ → ℕ → ℕ → ℕ → String → State → Answer × State
run reset now account_id scenario_id version actor =
    reset_scenario now account_id scenario_id version actor
run delete now account_id scenario_id version actor =
    delete_scenario account_id scenario_id version actor
run (rebase lineage fresh source) now account_id scenario_id version actor =
    rebase_scenario lineage fresh source now account_id scenario_id version actor
run (resolve entry_id from_source) now account_id scenario_id version actor =
    resolve_conflict now account_id scenario_id entry_id version from_source
run (save upper lineage fresh name items) now account_id scenario_id version actor =
    save_scenario upper lineage fresh now account_id scenario_id version name items

-- All operations that carry a version: a copy carries one too, and changes another scenario.
pub data Request : Type 0 where
  edit : Edit → Request
  duplicate : (ℕ → ℕ) → (ℕ → ℕ) → ℕ → Option ℕ → Request

unfoldable pub answer : Request → ℕ → ℕ → ℕ → ℕ → String → State → Answer × State
unfolding run
answer (edit e) now account_id scenario_id version actor =
    run e now account_id scenario_id version actor
answer (duplicate copy_name fresh id name) now account_id scenario_id version actor =
    duplicate_scenario copy_name fresh now id account_id scenario_id version name actor

-- The request breaks a limit, which is tested before its version is: too many entries, or no room
-- for another scenario.
abbrev pub IsOverLimit : Request → ℕ → State → Type 0
IsOverLimit (edit (save upper lineage fresh name items)) account_id state = 120 < length items
IsOverLimit (duplicate copy_name fresh id name) account_id state =
    5 ≤ length (select (is_of account_id) state.scenarios)
IsOverLimit _ account_id state = ⊥

-- A request with a version other than the scenario's changes nothing: it ends in the conflict,
-- unless it breaks a limit and is refused for that.
abbrev IsRefused : Request → ℕ → ℕ → ℕ → ℕ → String → State → ℕ → Type 0
IsRefused request now account_id scenario_id version actor state held =
    (answer request now account_id scenario_id version actor state ≡ (version_conflict held, state))
    ⊎ (IsOverLimit request account_id state
        × (answer request now account_id scenario_id version actor state ≡ (limit_reached, state)))

pub stale-IsRefused :
    (request : Request) (now account_id scenario_id version : ℕ) (actor : String) (state : State)
    (s : Scenario)
    → find_scenario account_id scenario_id state.scenarios ≡ some s
    → (s.version == version) ≡ false
    → IsRefused request now account_id scenario_id version actor state s.version
unfolding answer run reset_scenario delete_scenario rebase_scenario resolve_conflict save_scenario
    duplicate_scenario
stale-IsRefused (edit reset) now account scenario version actor state s h k =
    inl (with_version_stale account scenario version state s _ h k)
stale-IsRefused (edit delete) now account scenario version actor state s h k =
    inl (with_version_stale account scenario version state s _ h k)
stale-IsRefused (edit (rebase _ _ _)) now account scenario version actor state s h k =
    inl (with_version_stale account scenario version state s _ h k)
stale-IsRefused (edit (resolve _ _)) now account scenario version actor state s h k =
    inl (with_version_stale account scenario version state s _ h k)
stale-IsRefused (edit (save upper lineage fresh name items)) now account scenario version actor
      state s h k =
    elim (Bool-cases (ltb max_simulation_entries (length items))) [
      | inl many ↦ rw many (inr (ground arith, refl))
      | inr few ↦ rw few (inl (with_version_stale account scenario version state s _ h k))
    ]
stale-IsRefused (duplicate copy_name fresh id name) now account scenario version actor state s h k =
    elim (Bool-cases (is_full account state.scenarios)) [
      | inl full ↦ rw full (inr (ground arith, refl))
      | inr room ↦ rw room (inl (with_version_stale account scenario version state s _ h k))
    ]

module _ (account_id scenario_id version : ℕ) (state : State) where
  abbrev is_it : Scenario → Bool
  is_it x = x.id == scenario_id && is_of account_id x

  find_holds : (xs : List Scenario) (s : Scenario) → find is_it xs ≡ some s → is_it s ≡ true
  find_holds [] s h = cc
  find_holds (x ∷ xs) s h = elim (Bool-cases (is_it x)) [
    | inl e ↦
        let head : some x ≡ some s = rw e at h in let same : x ≡ s = ground arith in rw (← same) e
    | inr e ↦ find_holds xs s (rw e at h)
  ]

  -- What a successful write leaves: the scenario that it returned, one version on.
  abbrev HasSaved : Scenario → State → Type 0
  HasSaved t next =
      (find_scenario account_id scenario_id next.scenarios ≡ some t) × (t.version ≡ version + 1)

  commit-HasSaved :
      (now : ℕ) (journal : Db → Db) (s s' t : Scenario) (next : State)
      → find_scenario account_id scenario_id state.scenarios ≡ some s
      → s.version ≡ version
      → is_it s' ≡ is_it s
      → s'.id ≡ s.id
      → s'.version ≡ s.version
      → commit now journal s' state ≡ (saved t, next)
      → HasSaved t next
  commit-HasSaved now journal s s' t next h v p i w done =
      let row = record s' { version = s'.version + 1; updated_at = now } in
      let stored : set_scenario row state.scenarios ≡ next.scenarios =
        ap (λ r. r.1.scenarios) done in
      let told : saved row ≡ saved t = ap (λ r. r.0) done in
      let same : row ≡ t = ground arith in
      let here : find is_it (set_scenario row state.scenarios) ≡ some row =
        find-replaced is_it s row state.scenarios h i (p ∙ find_holds state.scenarios s h) in
      (
        ap (find is_it) (sym stored) ∙ here ∙ ap some same,
        ap (λ x. x.version) (sym same) ∙ ap (λ n. n + 1) (w ∙ v),
      )

  resolve-HasSaved :
      (now entry_id : ℕ) (from_source : Bool) (s t : Scenario) (next : State)
      → find_scenario account_id scenario_id state.scenarios ≡ some s
      → s.version ≡ version
      → resolve_write now entry_id from_source state s ≡ (saved t, next)
      → HasSaved t next
  resolve-HasSaved now entry_id from_source s t next e v h =
      elim (Option-cases (find (λ x. x.id == entry_id) s.entries)) [
        | inl k ↦ absurd (
            let done : resolve_write now entry_id from_source state s ≡ (entry_not_found, state) =
              rw (k, resolve_write) refl in
            let bad : entry_not_found ≡ saved t = ap (λ r. r.0) (sym done ∙ h) in cc)
        | inr (x, k) ↦ elim (Bool-cases (is_imported x)) [
          | inl m ↦
              let done : resolve_write now entry_id from_source state s
                  ≡ commit now (λ db. db) (resolved_of entry_id from_source s) state =
                rw (k, resolve_write) (rw m refl) in
              commit-HasSaved now (λ db. db) s (resolved_of entry_id from_source s) t next e v refl
                refl refl (sym done ∙ h)
          | inr m ↦ absurd (
              let done : resolve_write now entry_id from_source state s ≡ (entry_not_found, state) =
                rw (k, resolve_write) (rw m refl) in
              let bad : entry_not_found ≡ saved t = ap (λ r. r.0) (sym done ∙ h) in cc)
        ]
      ]

  save-HasSaved :
      (upper lineage fresh : ℕ → ℕ) (now name : ℕ) (items : List EntryInput) (s t : Scenario)
      (next : State)
      → find_scenario account_id scenario_id state.scenarios ≡ some s
      → s.version ≡ version
      → save_write upper lineage fresh now name items state s ≡ (saved t, next)
      → HasSaved t next
  unfolding save_write
  save-HasSaved upper lineage fresh now name items s t next e v =
      let P : Answer × State → Type 0 = λ r. r ≡ (saved t, next) → HasSaved t next in
      if-cases P (has_duplicates (supplied_ids items))
        (λ _ h. absurd (let bad : duplicate_entry ≡ saved t = ap (λ r. r.0) h in cc))
        (λ _.
          if-cases P (has_unknown s.entries items)
            (λ _ h. absurd (let bad : entry_not_found ≡ saved t = ap (λ r. r.0) h in cc))
            (λ _ h.
              commit-HasSaved now (λ db. db) s (written_of upper lineage fresh name items s) t next
                e v refl refl refl h))

  run-HasSaved :
      (edit : Edit) (now : ℕ) (actor : String) (t : Scenario) (next : State)
      → run edit now account_id scenario_id version actor state ≡ (saved t, next)
      → HasSaved t next
  unfolding run reset_scenario delete_scenario rebase_scenario resolve_conflict save_scenario
  run-HasSaved reset now actor t next h =
      let (s, e, v, done) = with_version_saved account_id scenario_id version state _ t next h in
      commit-HasSaved now (told account_id "simulation:reset" s.id actor) s (reset_of s) t next e v
        refl refl refl done
  run-HasSaved (rebase lineage fresh source) now actor t next h =
      let (s, e, v, done) = with_version_saved account_id scenario_id version state _ t next h in
      commit-HasSaved now (told account_id "simulation:rebased" s.id actor) s
        (rebased_of lineage fresh source s) t next e v refl refl refl done
  run-HasSaved delete now actor t next h =
      let (s, e, v, done) = with_version_saved account_id scenario_id version state _ t next h in
      let bad : deleted ≡ saved t = ap (λ r. r.0) done in cc
  run-HasSaved (resolve entry_id from_source) now actor t next h =
      let (s, e, v, done) = with_version_saved account_id scenario_id version state _ t next h in
      resolve-HasSaved now entry_id from_source s t next e v done
  run-HasSaved (save upper lineage fresh name items) now actor t next saves =
      let P : Answer × State → Type 0 = λ r. r ≡ (saved t, next) → HasSaved t next in
      if-cases P (ltb max_simulation_entries (length items))
        (λ _ h. absurd (let bad : limit_reached ≡ saved t = ap (λ r. r.0) h in cc))
        (λ _ h.
          let (s, e, v, done) =
            with_version_saved account_id scenario_id version state _ t next h in
          save-HasSaved upper lineage fresh now name items s t next e v done)
        saves

-- Of two clients that have seen the same version, the second is refused and changes nothing: once
-- a reset, a rebase, the resolution of a conflict or a save has succeeded, every request (these, a
-- deletion or a duplication) with the version that it was given ends in a conflict that tells the
-- new version, or in the refusal of a save of too many entries or of a copy for which there is no
-- room.
pub second_writer_refused :
    (first : Edit) (second : Request) (now later account_id scenario_id version : ℕ)
    (actor other : String) (state next : State) (t : Scenario)
    → run first now account_id scenario_id version actor state ≡ (saved t, next)
    → (answer second later account_id scenario_id version other next
        ≡ (version_conflict (version + 1), next))
      ⊎ (IsOverLimit second account_id next
          × (answer second later account_id scenario_id version other next ≡ (limit_reached, next)))
second_writer_refused first second now later account_id scenario_id version actor other state next t
      h =
    let (here, bumped) =
      run-HasSaved account_id scenario_id version state first now actor t next h in
    rw bumped at (
      stale-IsRefused second later account_id scenario_id version other next t here
        (let b = bumped in ground arith))
