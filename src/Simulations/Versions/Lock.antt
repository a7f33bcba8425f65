-- ===== src/Simulations/Versions/Lock.antt =====
-- The version test that the operations share: what it refuses and what it lets through.
use imtegrale.Prelude.{
  ℕ, ◌≡◌, refl, sym, ap, ◌∙◌, inl, inr, Bool, true, false, Option, none, some, List, [], ◌∷◌, ◌==◌,
  arith, Bool-cases, Option-cases,
}
use imtegrale.Query.{find}
use imtegrale.Simulations.Scenario.{
  Scenario, State, Answer, saved, version_conflict, not_found, find_scenario, set_scenario,
  with_version,
}

-- A row that replaces the one found is found in its place.
pub find-replaced :
    (p : Scenario → Bool) (s t : Scenario) (xs : List Scenario)
    → find p xs ≡ some s
    → t.id ≡ s.id
    → p t ≡ true
    → find p (set_scenario t xs) ≡ some t
find-replaced p s t [] h e k = cc
find-replaced p s t (x ∷ xs) h e k = elim (Bool-cases (x.id == t.id)) [
  | inl q ↦ rw (q, k) refl
  | inr q ↦ elim (Bool-cases (p x)) [
    | inl r ↦ absurd (
        let found : some x ≡ some s = rw r at h in
        let same : x ≡ s = ground arith in let ids = ap (λ y. y.id) same in ground (arith, ids))
    | inr r ↦
        let rest : find p xs ≡ some s = rw r at h in rw (q, r) (find-replaced p s t xs rest e k)
  ]
]

module _ (account_id scenario_id version : ℕ) (state : State) where
  abbrev found : Option Scenario
  found = find_scenario account_id scenario_id state.scenarios

  pub with_version_stale :
      (s : Scenario) (write : Scenario → Answer × State)
      → found ≡ some s
      → (s.version == version) ≡ false
      → with_version account_id scenario_id version state write
        ≡ (version_conflict s.version, state)
  unfolding with_version
  with_version_stale s write h k = rw (h, with_version) (rw k refl)

  with_version_fresh :
      (s : Scenario) (write : Scenario → Answer × State)
      → found ≡ some s
      → (s.version == version) ≡ true
      → with_version account_id scenario_id version state write ≡ write s
  unfolding with_version
  with_version_fresh s write h k = rw (h, with_version) (rw k refl)

  with_version_absent :
      (write : Scenario → Answer × State)
      → found ≡ none
      → with_version account_id scenario_id version state write ≡ (not_found, state)
  unfolding with_version
  with_version_absent write h = rw (h, with_version) refl

  -- Only a write to the scenario, at its version, saves.
  pub with_version_saved :
      (write : Scenario → Answer × State) (t : Scenario) (next : State)
      → with_version account_id scenario_id version state write ≡ (saved t, next)
      → (s : Scenario) × (found ≡ some s) × (s.version ≡ version) × (write s ≡ (saved t, next))
  with_version_saved write t next h = elim (Option-cases found) [
    | inl e ↦ absurd (
        let bad : not_found ≡ saved t = ap (λ r. r.0) (sym (with_version_absent write e) ∙ h) in cc)
    | inr (s, e) ↦ elim (Bool-cases (s.version == version)) [
      | inl k ↦ (s, e, ground arith, sym (with_version_fresh s write e k) ∙ h)
      | inr k ↦ absurd (
          let bad : version_conflict s.version ≡ saved t =
            ap (λ r. r.0) (sym (with_version_stale s write e k) ∙ h) in
          cc)
    ]
  ]
