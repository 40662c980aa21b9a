-- ===== src/Dashboard/Element/Order.antt =====
-- The sorting of references in GridElement (dashboard.entity.ts), and how often it keeps a room.
use schulcloud_server.Prelude.{
  ℕ, suc, ◌+◌, List, [], ◌∷◌, ◌++◌, ◌≡◌, refl, arith, if◌then◌else◌, get_elem?, some, zero,
}
use schulcloud_server.Dashboard.Element.{
  Learnroom, Metadata, same_room, insert_sorted, sort_onto, sort_references, remove_at, GridElement,
  add_references, set_group_name,
}

abbrev pub count : List Learnroom → Learnroom → ℕ
count [] r = 0
count (x ∷ xs) r = if same_room x r then suc (count xs r) else count xs r

pub count-append :
    (xs ys : List Learnroom) (r : Learnroom) → count (xs ++ ys) r ≡ count xs r + count ys r
count-append [] ys r = omega arith
count-append (x ∷ xs) ys r = ground (arith, count-append xs ys r)

pub count-remove_at :
    (xs : List Learnroom) (i : ℕ) (x r : Learnroom)
    → get_elem? xs i ≡ some x
    → count (remove_at xs i) r + count (x ∷ []) r ≡ count xs r
count-remove_at [] i x r h = cc
count-remove_at (y ∷ ys) zero x r h = ground arith
count-remove_at (y ∷ ys) (suc i) x r h = ground (arith, count-remove_at ys i x r h)

module _ (meta : ℕ → Metadata) where
  count-insert_sorted :
      (x : Learnroom) (xs : List Learnroom) (r : Learnroom)
      → count (insert_sorted meta x xs) r ≡ count (x ∷ xs) r
  count-insert_sorted x [] r = refl
  count-insert_sorted x (y ∷ ys) r = ground (arith, count-insert_sorted x ys r)

  count-sort_onto :
      (sorted xs : List Learnroom) (r : Learnroom)
      → count (sort_onto meta sorted xs) r ≡ count sorted r + count xs r
  count-sort_onto sorted [] r = omega arith
  count-sort_onto sorted (x ∷ xs) r =
      ground
        (arith, count-sort_onto (insert_sorted meta x sorted) xs r, count-insert_sorted x sorted r)

  pub count-sort_references :
      (xs : List Learnroom) (r : Learnroom) → count (sort_references meta xs) r ≡ count xs r
  unfolding sort_references
  count-sort_references xs r = ground (arith, count-sort_onto [] xs r)

  pub count-add_references :
      (rs : List Learnroom) (e : GridElement) (r : Learnroom)
      → count (add_references meta rs e).references r ≡ count e.references r + count rs r
  unfolding add_references set_group_name
  count-add_references rs e r =
      ground (arith, count-sort_references (e.references ++ rs) r, count-append e.references rs r)
