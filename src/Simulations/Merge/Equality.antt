-- ===== src/Simulations/Merge/Equality.antt =====
-- The equality tests of simulations.py hold of equal values.
use imtegrale.Prelude.{ℕ, ◌≡◌, refl, true, Option, none, some, arith}
use imtegrale.Simulations.{Values, Grade, values_eq, grade_eq, opt_eq}

opt_eq_refl : (m : Option ℕ) → opt_eq m m ≡ true
opt_eq_refl none = refl
opt_eq_refl (some m) = ground arith

grade_eq_refl : (g : Option Grade) → grade_eq g g ≡ true
grade_eq_refl none = refl
grade_eq_refl (some g) = ground arith

pub values_eq_refl : (v : Values) → values_eq v v ≡ true
values_eq_refl v =
    let s = opt_eq_refl v.semester in
    let u = opt_eq_refl v.ue_code in
    let t = opt_eq_refl v.title in
    let k = opt_eq_refl v.credits_ects in let g = grade_eq_refl v.grade in ground arith
