-- ===== src/Simulations/Aggregate.antt =====
-- `_aggregate` of simulations.py without the table by semester and the texts of the warnings:
-- credits and grade points are counted in hundredths, and the quotient is rounded half up. The
-- quotient of the source carries 28 digits before it is rounded, here it is exact.
use native.Mathlib.Nat.{div-lt_iff_lt-mul}
use imtegrale.Prelude.{
  ℕ, ◌+◌, ◌*◌, ◌/◌, ◌≤◌, ◌<◌, ◌≡◌, refl, inl, inr, Bool, true, false, not, ◌||◌, Option, none, some,
  List, [], ◌∷◌, length, arith, ltb, ◌==◌, if◌then◌else◌, is_none, Bool-cases, Option-cases, ap,
}
use imtegrale.Query.{select}
use imtegrale.Simulations.{Entry, Values, Grade, a, b, c, d, e, fx, f}

-- `GRADE_POINTS`, with the scale of calculations.py.
abbrev pub grade_points : Grade → ℕ
grade_points a = 400
grade_points b = 380
grade_points c = 350
grade_points d = 300
grade_points e = 250
grade_points fx = 0
grade_points f = 0

pub record Totals : Type 0 where
  pub total_points : ℕ
  pub included_credits : ℕ
  pub entered_credits : ℕ
  pub graded_count : ℕ
  pub pending_count : ℕ
  pub missing_ects_count : ℕ

abbrev pub no_totals : Totals
no_totals = record {
  total_points = 0;
  included_credits = 0;
  entered_credits = 0;
  graded_count = 0;
  pending_count = 0;
  missing_ects_count = 0;
}

abbrev or_zero : Option ℕ → ℕ
or_zero none = 0
or_zero (some n) = n

-- One round of the loop.
abbrev pub counted : Totals → Values → Totals
counted t v =
    let entered = record t { entered_credits = t.entered_credits + or_zero v.credits_ects } in
    elim v.grade [
      | none ↦ record entered { pending_count = t.pending_count + 1 }
      | some grade ↦ elim v.credits_ects [
        | none ↦ record entered {
          graded_count = t.graded_count + 1;
          missing_ects_count = t.missing_ects_count + 1;
        }
        | some credits ↦ record entered {
          graded_count = t.graded_count + 1;
          total_points = t.total_points + grade_points grade * credits;
          included_credits = t.included_credits + credits;
        }
      ]
    ]

unfoldable pub tally : Totals → List Entry → Totals
tally t [] = t
tally t (entry ∷ rest) = tally (counted t entry.now) rest

-- `_rounded(total_points / included_credits) if included_credits else None`.
unfoldable pub gpa_of : Totals → Option ℕ
gpa_of t =
    if t.included_credits == 0
    then none
    else some ((2 * t.total_points + t.included_credits) / (2 * t.included_credits))

pub data Status : Type 0 where
  empty ready partial : Status

abbrev pub status_of : Totals → List Entry → Status
status_of t [] = empty
status_of t (_ ∷ _) =
    if ltb 0 t.pending_count || ltb 0 t.missing_ects_count || t.included_credits == 0
    then partial
    else ready

points_most : (g : Grade) (k : ℕ) → grade_points g * k ≤ 400 * k
points_most a k = omega arith
points_most b k = omega arith
points_most c k = omega arith
points_most d k = omega arith
points_most e k = omega arith
points_most fx k = omega arith
points_most f k = omega arith

counted_lem :
    (t : Totals) (v : Values)
    → ((counted t v).graded_count + (counted t v).pending_count
        ≡ t.graded_count + t.pending_count + 1)
      × (t.total_points ≤ 400 * t.included_credits
          → (counted t v).total_points ≤ 400 * (counted t v).included_credits)
counted_lem t v = go v.grade v.credits_ects refl refl
  where
    go :
        (g : Option Grade) (k : Option ℕ)
        → v.grade ≡ g
        → v.credits_ects ≡ k
        → ((counted t v).graded_count + (counted t v).pending_count
            ≡ t.graded_count + t.pending_count + 1)
          × (t.total_points ≤ 400 * t.included_credits
              → (counted t v).total_points ≤ 400 * (counted t v).included_credits)
    go none k p q = rw p (omega arith, λ h. h)
    go (some g) none p q = rw (p, q) (omega arith, λ h. h)
    go (some g) (some k) p q = rw (p, q) (omega arith, λ h. omega (arith, h, points_most g k))

tally_counts :
    (t : Totals) (entries : List Entry)
    → (tally t entries).graded_count + (tally t entries).pending_count
      ≡ t.graded_count + t.pending_count + length entries
unfolding tally
tally_counts t [] = omega arith
tally_counts t (entry ∷ rest) =
    let now = (counted_lem t entry.now).0 in
    omega (arith, tally_counts (counted t entry.now) rest, now)

tally_most :
    (t : Totals) (entries : List Entry)
    → t.total_points ≤ 400 * t.included_credits
    → (tally t entries).total_points ≤ 400 * (tally t entries).included_credits
unfolding tally
tally_most t [] h = h
tally_most t (entry ∷ rest) h =
    tally_most (counted t entry.now) rest ((counted_lem t entry.now).1 h)

gpa_most :
    (t : Totals) (g : ℕ) → t.total_points ≤ 400 * t.included_credits → gpa_of t ≡ some g → g ≤ 400
unfolding gpa_of
gpa_most t g h found = elim (Bool-cases (t.included_credits == 0)) [
  | inl z ↦ absurd (let no : none ≡ some g = rw z at found in cc)
  | inr z ↦
      let value : some ((2 * t.total_points + t.included_credits) / (2 * t.included_credits))
          ≡ some g =
        rw z at found in
      let positive : 0 < 2 * t.included_credits = ground arith in
      let below : (2 * t.total_points + t.included_credits) / (2 * t.included_credits) < 401 =
        (div-lt_iff_lt-mul positive).1 (omega (arith, h, positive)) in
      ground (arith, below)
]

-- Every simulation is counted completely: each row is graded or pending, and the GPA, where it is
-- defined, lies between 0 and 4.
pub aggregate_bounds :
    (entries : List Entry)
    → ((tally no_totals entries).graded_count + (tally no_totals entries).pending_count
        ≡ length entries)
      × ((g : ℕ) → gpa_of (tally no_totals entries) ≡ some g → g ≤ 400)
aggregate_bounds entries = (
  omega (arith, tally_counts no_totals entries),
  λ g h. gpa_most (tally no_totals entries) g (tally_most no_totals entries (omega arith)) h,
)

abbrev pub is_graded : Entry → Bool
is_graded entry = not (is_none entry.now.grade)

abbrev AgreesWith : Totals → Totals → Type 0
AgreesWith t u = (t.total_points ≡ u.total_points) × (t.included_credits ≡ u.included_credits)

counted-AgreesWith :
    (t u : Totals) (v : Values) → AgreesWith t u → AgreesWith (counted t v) (counted u v)
counted-AgreesWith t u v (p, q) = elim (Option-cases v.grade) [
  | inl n ↦ rw n (p, q)
  | inr (g, m) ↦ elim (Option-cases v.credits_ects) [
    | inl n ↦ rw (m, n) (p, q)
    | inr (k, n) ↦ rw (m, n) (ap (λ x. x + grade_points g * k) p, ap (λ x. x + k) q)
  ]
]

counted_pending :
    (t u : Totals) (v : Values) → v.grade ≡ none → AgreesWith t u → AgreesWith (counted t v) u
counted_pending t u v n h = rw n h

tally-select :
    (entries : List Entry) (t u : Totals)
    → AgreesWith t u
    → AgreesWith (tally t entries) (tally u (select is_graded entries))
unfolding tally
tally-select [] t u h = h
tally-select (entry ∷ rest) t u h = elim (Option-cases entry.now.grade) [
  | inl n ↦
      let left_out : is_graded entry ≡ false = ap (λ g. not (is_none g)) n in
      rw left_out (tally-select rest (counted t entry.now) u (counted_pending t u entry.now n h))
  | inr (g, m) ↦
      let kept : is_graded entry ≡ true = ap (λ g. not (is_none g)) m in
      rw kept (
        tally-select rest (counted t entry.now) (counted u entry.now)
          (counted-AgreesWith t u entry.now h))
]

-- Pending rows never count as zero: the GPA is the same without them.
pub gpa-ignores_pending :
    (entries : List Entry)
    → gpa_of (tally no_totals entries) ≡ gpa_of (tally no_totals (select is_graded entries))
unfolding gpa_of
gpa-ignores_pending entries =
    let same = tally-select entries no_totals no_totals (refl, refl) in rw (same.0, same.1) refl
