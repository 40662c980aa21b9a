-- ===== src/Dashboard/Element.antt =====
-- The elements of the grid (dashboard.entity.ts, GridElement): one learn room, or a group of them.
pub mod Order
use schulcloud_server.Prelude.{
  ℕ, zero, suc, String, Bool, true, false, not, ◌&&◌, ◌≡◌, refl, ◌↔◌, List, [], ◌∷◌, ◌++◌, Option,
  none, some, Result, ok, throw, bad_request, error, ◌>>=◌, ◌>>◌, guard, Eq, eqb, eqb_iff, ltb, leb,
  length, arith, if◌then◌else◌, ap, get_elem?,
}
use schulcloud_server.Domain.User.{EntityId}

-- A learn room as a reference to its object; `undefined` is what an index out of range reads.
pub data Learnroom : Type 0 where
  room : ℕ → Learnroom
  undefined : Learnroom

abbrev pub same_room : Learnroom → Learnroom → Bool
same_room (room a) (room b) = eqb a b
same_room undefined undefined = true
same_room _ _ = false

pub same_room_iff : (a b : Learnroom) → (same_room a b ≡ true) ↔ (a ≡ b)
same_room_iff (room a) (room b) = ((λ h. ap room ((eqb_iff a b).0 h)), (λ h. (eqb_iff a b).1 (cc)))
same_room_iff (room a) undefined = ((λ h. (cc)), (λ h. (cc)))
same_room_iff undefined (room b) = ((λ h. (cc)), (λ h. (cc)))
same_room_iff undefined undefined = ((λ h. refl), (λ h. refl))

instance abbrev pub learnroom_eq : Eq Learnroom
learnroom_eq = record { beq = same_room; beq_iff = same_room_iff }

-- What `getMetadata()` answers, as far as the grid reads it. A title is its UTF-16 code units.
pub record Metadata : Type 0 where
  pub id : EntityId
  pub title : List ℕ

-- `a < b` on texts
unfoldable pub title_lt : List ℕ → List ℕ → Bool
title_lt [] [] = false
title_lt [] (_ ∷ _) = true
title_lt (_ ∷ _) [] = false
title_lt (a ∷ as') (b ∷ bs) =
    let rest = title_lt as' bs in if ltb a b then true else if ltb b a then false else rest

pub record GridElement : Type 0 where
  pub id : Option EntityId
  pub title : Option String
  pub references : List Learnroom

unfoldable pub is_group : GridElement → Bool
is_group e = ltb 1 (length e.references)

unfoldable pub set_group_name : String → GridElement → GridElement
unfolding is_group
set_group_name new_group_name e =
    if not (is_group e) then e else record e { title = some new_group_name }

-- `xs.splice(index, 1)`
abbrev pub remove_at : List Learnroom → ℕ → List Learnroom
remove_at [] i = []
remove_at (x ∷ xs) zero = xs
remove_at (x ∷ xs) (suc i) = x ∷ remove_at xs i

unfoldable pub remove_reference_by_index : ℕ → GridElement → Result GridElement
remove_reference_by_index index e = do
  guard (is_group e) (bad_request "this element is not a group.")
  guard (not (ltb 0 index && leb (length e.references) index))
      (bad_request "group index out of bounds.")
  ok (record e { references = remove_at e.references index })

-- `xs.indexOf(x)`
abbrev pub index_of : List Learnroom → Learnroom → Option ℕ
index_of [] r = none
index_of (x ∷ xs) r =
    let rest = index_of xs r in
    if same_room x r then some 0 else elim rest [ none ↦ none | some i ↦ some (suc i) ]

abbrev remove_found : Option ℕ → GridElement → Result GridElement
remove_found none e = throw (bad_request "reference not found.")
remove_found (some index) e = ok (record e { references = remove_at e.references index })

unfoldable pub remove_reference : Learnroom → GridElement → Result GridElement
remove_reference reference e = remove_found (index_of e.references reference) e

module _ (meta : ℕ → Metadata) where
  abbrev pub get_metadata : Learnroom → Result Metadata
  get_metadata (room r) = ok (meta r)
  get_metadata undefined = throw (error "TypeError")

  -- Whether `sortReferences` puts the first before the second; `sort` moves `undefined` to the end.
  abbrev pub comes_before : Learnroom → Learnroom → Bool
  comes_before (room a) (room b) = title_lt (meta a).title (meta b).title
  comes_before (room a) undefined = true
  comes_before undefined _ = false

  abbrev pub insert_sorted : Learnroom → List Learnroom → List Learnroom
  insert_sorted r [] = r ∷ []
  insert_sorted r (x ∷ xs) =
      let rest = insert_sorted r xs in if comes_before r x then r ∷ x ∷ xs else x ∷ rest

  abbrev sort_onto : List Learnroom → List Learnroom → List Learnroom
  sort_onto sorted [] = sorted
  sort_onto sorted (x ∷ xs) = sort_onto (insert_sorted x sorted) xs

  -- `references.sort(this.sortReferences)`, which is stable.
  unfoldable pub sort_references : List Learnroom → List Learnroom
  sort_references rs = sort_onto [] rs

  -- The constructor, behind FromPersistedReference, FromPersistedGroup, FromSingleReference and
  -- FromGroup.
  unfoldable pub new_grid_element : Option EntityId → Option String → List Learnroom → GridElement
  new_grid_element id title references = record {
    id = id;
    title = title;
    references = sort_references references;
  }

  unfoldable pub from_single_reference : Learnroom → GridElement
  unfolding new_grid_element sort_references
  from_single_reference reference = new_grid_element none none (reference ∷ [])

  unfoldable pub add_references : List Learnroom → GridElement → GridElement
  add_references another e =
      let joined = record e { references = sort_references (e.references ++ another) } in
      if not (is_group e) then set_group_name "" joined else joined
