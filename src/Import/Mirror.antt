-- ===== src/Import/Mirror.antt =====
-- After an import the account shows exactly what PASS shows.
use imtegrale.Prelude.{
  ℕ, ◌≡◌, refl, sym, ◌∙◌, ap, inl, inr, Bool, true, false, not, ◌&&◌, some, List, arith, All,
  All-drop, Memᴰ, Bool-cases, ◌==◌, ==_iff,
}
use imtegrale.Query.{find, any, select}
use imtegrale.Query.Rows.{
  All-update_to, All-imp, All-both, any_of_none, All-self, All-delete, All-select, select_passes,
  find_sound,
}
use imtegrale.Query.Order.{All-order_by}
use imtegrale.Query.Keys.{IsUnique, eq_of_key, update-IsUnique}
use imtegrale.Query.Finds.{find-update_apart, find-delete}
use imtegrale.Models.{Account}
use imtegrale.Import.{Texts, Note, State, is_pass_note, is_keyed}
use imtegrale.Import.Entries.{Values}
use imtegrale.Import.Apply.{
  Progress, has_key, import_each, import_values, finish_import, start, is_gone, archive_gone,
  delete_stale, stale_archived, is_archived_note,
}
use imtegrale.Import.Loop.{IsShown, IsStocked, each-IsShown, each-keys, each-IsStocked}
use Prim.Native.String.{String}

-- A PASS note of the account that is not archived has one of these keys.
abbrev pub IsListed : ℕ → (ℕ → Bool) → Note → Type 0
IsListed account keys n = is_pass_note account n && not n.archived ≡ true → keys n.source_key ≡ true

module _ (account now : ℕ) (keys : List ℕ) where
  gone_other :
      (k : ℕ) (n : Note)
      → has_key k keys ≡ true
      → is_gone account keys n ≡ true
      → is_keyed account k n ≡ false
  gone_other k n active gone = elim (Bool-cases (n.source_key == k)) [
    | inl e ↦ absurd (let a = rw (sym ((==_iff n.source_key k).0 e)) at active in ground (arith, a))
    | inr e ↦ rw e (ground arith)
  ]

  archive_find :
      (k : ℕ) (notes : List Note)
      → has_key k keys ≡ true
      → find (is_keyed account k) (archive_gone account now keys notes)
        ≡ find (is_keyed account k) notes
  unfolding archive_gone
  archive_find k notes active =
      find-update_apart (is_keyed account k) (is_gone account keys) _
        (λ a h. let e = gone_other k a active h in (e, e)) notes

  archive-IsListed :
      (notes : List Note)
      → All (IsListed account (λ k. has_key k keys)) (archive_gone account now keys notes)
  unfolding archive_gone
  archive-IsListed notes =
      All-update_to (λ n. Memᴰ n notes) (IsListed account (λ k. has_key k keys))
        (is_gone account keys) _ (λ a h _ t. ground (arith, t)) (λ a h _ t. ground (arith, h, t))
        notes (All-self notes)

-- Notes that a test tells apart have different identifiers.
spared :
    (p : Note → Bool) {notes : List Note} (s n : Note)
    → IsUnique (λ n. n.id) notes
    → Memᴰ s notes × (p s ≡ true)
    → Memᴰ n notes
    → p n ≡ false
    → (s.id == n.id) ≡ false
spared p s n u h m fails = elim (Bool-cases (s.id == n.id)) [
  | inl e ↦
      let same : p s ≡ p n = ap p (eq_of_key (λ n. n.id) u h.0 m ((==_iff s.id n.id).0 e)) in
      absurd (ground (arith, same, h.1, fails))
  | inr e ↦ e
]

module _ (account : ℕ) (notes : List Note) where
  stale-members :
      All (λ s. Memᴰ s notes × (is_archived_note account s ≡ true)) (stale_archived account notes)
  stale-members =
      let test = is_archived_note account in
      All-drop _ 1_000 _ (
        All-order_by (λ s. Memᴰ s notes × (test s ≡ true)) _ (select test notes)
          (All-both (λ s. Memᴰ s notes) (λ s. test s ≡ true) (select test notes)
            (All-select (λ s. Memᴰ s notes) test notes (All-self notes))
            (select_passes test notes)))

  -- A note that is not an archived PASS note of the account is not pruned.
  pub not_stale :
      (n : Note)
      → IsUnique (λ n. n.id) notes
      → Memᴰ n notes
      → is_archived_note account n ≡ false
      → any (λ s. s.id == n.id) (stale_archived account notes) ≡ false
  not_stale n u m fails =
      any_of_none (λ s. s.id == n.id) (stale_archived account notes)
        (All-imp (λ s. Memᴰ s notes × (is_archived_note account s ≡ true))
          (λ s. (s.id == n.id) ≡ false) (λ s h. spared (is_archived_note account) s n u h m fails)
          (stale_archived account notes) stale-members)

  -- Pruning spares every note that is not archived.
  delete_find :
      (k : ℕ) (n : Note)
      → IsUnique (λ n. n.id) notes
      → find (is_keyed account k) notes ≡ some n
      → n.archived ≡ false
      → find (is_keyed account k) (delete_stale account notes) ≡ some n
  unfolding delete_stale
  delete_find k n u found live =
      let (_, m) = find_sound (is_keyed account k) notes found in
      find-delete (is_keyed account k) _ notes found (not_stale n u m (ground (arith, live)))

delete-IsListed :
    (account : ℕ) (keys : ℕ → Bool) (notes : List Note)
    → All (IsListed account keys) notes
    → All (IsListed account keys) (delete_stale account notes)
unfolding delete_stale
delete-IsListed account keys notes h = All-delete (IsListed account keys) _ notes h

any_member : {v : Values} {vs : List Values} → Memᴰ v vs → any (λ w. w.key == v.key) vs ≡ true
any_member {v} (Memᴰ.head {x = w} e) =
    let same : (w.key == v.key) ≡ true = (==_iff w.key v.key).1 (ap (λ w. w.key) (sym e)) in
    rw same refl
any_member (Memᴰ.tail m) = ground (arith, any_member m)

module _ (texts : Texts) (now : ℕ) (account : Account) (vs : List Values) (s : State) where
  abbrev pub progress : Progress
  progress = import_each texts account.id now vs (start account.id s)

  key_active : (k : ℕ) → has_key k progress.active_keys ≡ any (λ v. v.key == k) vs
  key_active k = each-keys account.id now texts k vs (start account.id s) ∙ ground arith

  pub notes_after :
      (actor : String) (initial : Bool)
      → (import_values texts actor initial now account vs s).1.notes
        ≡ delete_stale account.id (archive_gone account.id now progress.active_keys progress.notes)
  unfolding import_values finish_import
  notes_after actor initial = refl

  pub archived-IsUnique :
      IsStocked s.next_note_id s.notes
      → IsUnique (λ n. n.id) (archive_gone account.id now progress.active_keys progress.notes)
  unfolding archive_gone
  archived-IsUnique h =
      update-IsUnique (λ n. n.id) (is_gone account.id progress.active_keys) _ (λ _ _. refl)
        progress.notes (each-IsStocked account.id now texts vs (start account.id s) h).0

  kept-IsShown :
      (v : Values)
      → IsStocked s.next_note_id s.notes
      → Memᴰ v vs
      → IsShown account.id progress.notes v
      → IsShown account.id
          (delete_stale account.id
            (archive_gone account.id now progress.active_keys progress.notes))
          v
  kept-IsShown v h m (n, found, shows) =
      let archived =
        archive_find account.id now progress.active_keys v.key progress.notes
          (key_active v.key ∙ any_member m) in
      (
        n,
        delete_find account.id _ v.key n (archived-IsUnique h) (archived ∙ found) shows.live,
        shows,
      )

  -- Over notes with unique identifiers, and entries with distinct keys, an import leaves under the
  -- key of each entry a note that shows its values, not archived, and archives every other PASS
  -- note of the account.
  pub import_values-mirrors :
      (actor : String) (initial : Bool)
      → IsStocked s.next_note_id s.notes
      → IsUnique (λ v. v.key) vs
      → let after = (import_values texts actor initial now account vs s).1.notes in
        All (IsShown account.id after) vs
        × All (IsListed account.id (λ k. any (λ v. v.key == k) vs)) after
  import_values-mirrors actor initial h distinct = rw notes_after (
    All-imp (λ v. Memᴰ v vs × IsShown account.id progress.notes v) _
        (λ v m. kept-IsShown v h m.0 m.1) vs
        (All-both (λ v. Memᴰ v vs) (IsShown account.id progress.notes) vs (All-self vs)
          (each-IsShown account.id now texts vs (start account.id s) distinct)),
    All-imp (IsListed account.id (λ k. has_key k progress.active_keys)) _
        (λ n l t. sym (key_active n.source_key) ∙ l t) _
        (delete-IsListed account.id (λ k. has_key k progress.active_keys) _
          (archive-IsListed account.id now progress.active_keys progress.notes)),
  )
