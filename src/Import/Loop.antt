-- ===== src/Import/Loop.antt =====
-- What the loop of apply_pass_entries does to the notes and to the set of keys.
use imtegrale.Prelude.{
  ℕ, ◌+◌, ◌≡◌, ◌≢◌, ◌<◌, refl, sym, ◌∙◌, inl, inr, true, false, ◌||◌, some, List, [], ◌∷◌, ◌++◌,
  arith, All, All-append, Bool-cases, Option-cases, ◌==◌, if◌then◌else◌, ==_iff,
}
use imtegrale.Query.{find, any}
use imtegrale.Query.Rows.{All-update, All-imp}
use imtegrale.Query.Keys.{IsUnique, append-IsUnique, update-IsUnique}
use imtegrale.Query.Finds.{find-update_apart, find-update_hit, find-append_new, find-append_apart}
use imtegrale.Import.{Texts, Note, is_keyed}
use imtegrale.Import.Entries.{Values}
use imtegrale.Import.Apply.{
  Progress, is_current, refreshed, new_note, import_note, import_entry, import_each, has_key,
}
use text.Mathlib.TextEquality.{eq_iff}
use text.Mathlib.TextPositions.{eq_refl}

-- A note that shows the values of an entry.
pub record Shows (v : Values) (n : Note) : Type 0 where
  pub code : n.ue_code ≡ v.code
  pub label : n.raw_label ≡ v.label
  pub score : n.raw_score ≡ v.score
  pub coefficient : n.raw_coefficient ≡ v.coefficient
  pub is_resit : n.raw_is_resit ≡ v.is_resit
  pub live : n.archived ≡ false

-- The comparison of the code tells whether a note shows the values.
pub is_current-Shows : (v : Values) (n : Note) → is_current v n ≡ true → Shows v n
is_current-Shows v n h = record {
  code = sym ((eq_iff v.code n.ue_code).0 (ground arith));
  label = sym ((eq_iff v.label n.raw_label).0 (ground arith));
  score = ground arith;
  coefficient = ground arith;
  is_resit = ground arith;
  live = ground arith;
}

pub Shows-is_current : (v : Values) (n : Note) → Shows v n → is_current v n ≡ true
Shows-is_current v n s =
    rw (s.code, s.label, s.score, s.coefficient, s.is_resit, s.live, eq_refl, eq_refl)
      (ground arith)

-- The note of a key is in the table and shows the values.
abbrev pub IsShown : ℕ → List Note → Values → Type 0
IsShown account notes v = (n : Note) × (find (is_keyed account v.key) notes ≡ some n) × Shows v n

has_key-append : (k j : ℕ) (ks : List ℕ) → has_key k (ks ++ j ∷ []) ≡ (j == k || has_key k ks)
has_key-append k j [] = ground arith
has_key-append k j (x ∷ xs) = ground (arith, has_key-append k j xs)

-- A set of keys with one more.
key_added :
    (k j : ℕ) (ks : List ℕ)
    → has_key k (if has_key j ks then ks else ks ++ j ∷ []) ≡ (j == k || has_key k ks)
key_added k j ks = elim (Bool-cases (has_key j ks)) [
  | inl e ↦ rw e (elim (Bool-cases (j == k)) [
    | inl same ↦ rw same (rw ((==_iff j k).0 same) at e)
    | inr other ↦ rw other refl
  ])
  | inr e ↦ rw e (has_key-append k j ks)
]

-- The identifiers of the notes are unique and below the next one.
abbrev pub IsStocked : ℕ → List Note → Type 0
IsStocked next notes = IsUnique (λ n. n.id) notes × All (λ n. n.id < next) notes

module _ (account now : ℕ) where
  new_note-Shows : (id : ℕ) (v : Values) → Shows v (new_note account id now v)
  new_note-Shows id v = record {
    code = refl;
    label = refl;
    score = refl;
    coefficient = refl;
    is_resit = refl;
    live = refl;
  }

  refreshed-Shows : (v : Values) (n : Note) → Shows v (refreshed now v n)
  refreshed-Shows v n = record {
    code = refl;
    label = refl;
    score = refl;
    coefficient = refl;
    is_resit = refl;
    live = refl;
  }

  other_key :
      (k : ℕ) (v : Values) (n : Note)
      → v.key ≢ k
      → is_keyed account v.key n ≡ true
      → (is_keyed account k n ≡ false) × (is_keyed account k (refreshed now v n) ≡ false)
  other_key k v n apart h = ground arith

  pub import_note-apart :
      (k : ℕ) (v : Values) (p : Progress)
      → v.key ≢ k
      → find (is_keyed account k) (import_note account now v p).notes
        ≡ find (is_keyed account k) p.notes
  unfolding import_note
  import_note-apart k v p apart = elim (Option-cases (find (is_keyed account v.key) p.notes)) [
    | inl e ↦ rw (e, import_note) (find-append_apart _ p.notes _ (ground arith))
    | inr (n, e) ↦ elim (Bool-cases (is_current v n)) [
      | inl t ↦ rw (e, import_note) (rw t refl)
      | inr t ↦
          rw (e, import_note)
            (rw t (
              find-update_apart (is_keyed account k) (is_keyed account v.key) (refreshed now v)
                (λ a h. other_key k v a apart h) p.notes))
    ]
  ]

  pub import_note-IsShown :
      (v : Values) (p : Progress) → IsShown account (import_note account now v p).notes v
  unfolding import_note
  import_note-IsShown v p = elim (Option-cases (find (is_keyed account v.key) p.notes)) [
    | inl e ↦
        rw (e, import_note)
          (
            new_note account p.next_note_id now v,
            find-append_new (is_keyed account v.key) p.notes _ e (ground arith),
            new_note-Shows p.next_note_id v,
          )
    | inr (n, e) ↦ elim (Bool-cases (is_current v n)) [
      | inl t ↦ rw (e, import_note) (rw t (n, e, is_current-Shows v n t))
      | inr t ↦
          rw (e, import_note)
            (rw t (
              refreshed now v n,
              find-update_hit (is_keyed account v.key) (refreshed now v) (λ x h. h) p.notes e,
              refreshed-Shows v n,
            ))
    ]
  ]

  module _ (texts : Texts) where
    pub entry-notes :
        (v : Values) (p : Progress)
        → (import_entry texts account now v p).notes ≡ (import_note account now v p).notes
    unfolding import_entry
    entry-notes v p = ground arith

    active-entry :
        (v : Values) (p : Progress)
        → (import_entry texts account now v p).active_keys
          ≡ (if has_key v.key p.active_keys then p.active_keys else p.active_keys ++ v.key ∷ [])
    unfolding import_entry
    active-entry v p = ground arith

    entry-keys :
        (k : ℕ) (v : Values) (p : Progress)
        → has_key k (import_entry texts account now v p).active_keys
          ≡ (v.key == k || has_key k p.active_keys)
    entry-keys k v p = rw (active-entry v p) (key_added k v.key p.active_keys)

    each-apart :
        (k : ℕ) (vs : List Values) (p : Progress)
        → All (λ v. v.key ≢ k) vs
        → find (is_keyed account k) (import_each texts account now vs p).notes
          ≡ find (is_keyed account k) p.notes
    unfolding import_each
    each-apart k [] p h = refl
    each-apart k (v ∷ vs) p h =
        each-apart k vs (import_entry texts account now v p) h.1
        ∙ rw entry-notes (import_note-apart k v p h.0)

    -- Every entry is shown after the loop, when no two entries share a key.
    pub each-IsShown :
        (vs : List Values) (p : Progress)
        → IsUnique (λ v. v.key) vs
        → All (IsShown account (import_each texts account now vs p).notes) vs
    unfolding import_each
    each-IsShown [] p u = tt
    each-IsShown (v ∷ vs) p u =
        let (n, found, shows) = import_note-IsShown v p in
        let kept = each-apart v.key vs (import_entry texts account now v p) u.0 in
        (
          (n, kept ∙ rw entry-notes found, shows),
          each-IsShown vs (import_entry texts account now v p) u.1,
        )

    -- The keys are those of the entries.
    pub each-keys :
        (k : ℕ) (vs : List Values) (p : Progress)
        → has_key k (import_each texts account now vs p).active_keys
          ≡ (any (λ v. v.key == k) vs || has_key k p.active_keys)
    unfolding import_each
    each-keys k [] p = refl
    each-keys k (v ∷ vs) p =
        each-keys k vs (import_entry texts account now v p) ∙ rw (entry-keys k v p) (ground arith)

  import_note-IsStocked :
      (v : Values) (p : Progress)
      → IsStocked p.next_note_id p.notes
      → IsStocked (import_note account now v p).next_note_id (import_note account now v p).notes
  unfolding import_note
  import_note-IsStocked v p h = elim (Option-cases (find (is_keyed account v.key) p.notes)) [
    | inl e ↦
        rw (e, import_note)
          (
            append-IsUnique (λ n. n.id) p.notes _ h.0
                (All-imp (λ n. n.id < p.next_note_id) (λ n. n.id ≢ p.next_note_id)
                  (λ n l q. omega (arith, l, q)) p.notes h.1),
            All-append (λ n. n.id < p.next_note_id + 1) p.notes _
                (All-imp (λ n. n.id < p.next_note_id) (λ n. n.id < p.next_note_id + 1)
                  (λ n l. omega (arith, l)) p.notes h.1)
                (omega arith, tt),
          )
    | inr (n, e) ↦ elim (Bool-cases (is_current v n)) [
      | inl t ↦ rw (e, import_note) (rw t h)
      | inr t ↦
          rw (e, import_note)
            (rw t (
              update-IsUnique (λ n. n.id) (is_keyed account v.key) (refreshed now v) (λ a _. refl)
                  p.notes h.0,
              All-update (λ n. n.id < p.next_note_id) (is_keyed account v.key) (refreshed now v)
                  (λ a _ l. l) p.notes h.1,
            ))
    ]
  ]

  entry-next :
      (texts : Texts) (v : Values) (p : Progress)
      → (import_entry texts account now v p).next_note_id
        ≡ (import_note account now v p).next_note_id
  unfolding import_entry
  entry-next texts v p = ground arith

  pub each-IsStocked :
      (texts : Texts) (vs : List Values) (p : Progress)
      → IsStocked p.next_note_id p.notes
      → IsStocked
          (import_each texts account now vs p).next_note_id
          (import_each texts account now vs p).notes
  unfolding import_each
  each-IsStocked texts [] p h = h
  each-IsStocked texts (v ∷ vs) p h =
      each-IsStocked texts vs (import_entry texts account now v p)
        (rw (entry-next, entry-notes) (import_note-IsStocked v p h))
