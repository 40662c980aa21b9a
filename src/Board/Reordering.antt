-- ===== src/Board/Reordering.antt =====
-- `reorderElements` of board.entity.ts.
use schulcloud_server.Prelude.{
  false, List, [], ◌∷◌, some, ok, throw, bad_request, map_result, find?, ◌==◌, nat_eq, ==_iff, ◌≡◌,
  refl, sym, ◌⊎◌, inl, inr, Bool-cases, All, Memᴰ, arith, find_to,
}
use mathlib.Core.List.{Permᴰ}
use mathlib.Core.Path.{subst}
use schulcloud_server.Domain.User.{EntityId}
use schulcloud_server.Board.{
  Board, BoardElement, References, target_ids, get_element_by_target_id,
  check_lists_containing_equal_entities, validate_reordering, reorder_elements,
}
use schulcloud_server.Board.Sorting.{check_lists-Permᴰ}

-- Every id of the list is that of an element of the board.
abbrev AllOn : List BoardElement → List EntityId → Type 0
AllOn es ids = All (λ i. Memᴰ i (target_ids es)) ids

All-of_Permᴰ : (P : EntityId → Type 0) {is js : List EntityId} → Permᴰ is js → All P js → All P is
All-of_Permᴰ P Permᴰ.nil h = h
All-of_Permᴰ P (Permᴰ.cons e p) (a, rest) = (subst P (sym e) a, All-of_Permᴰ P p rest)
All-of_Permᴰ P (Permᴰ.swap e e') (a, (b, rest)) = (subst P (sym e) b, (subst P (sym e') a, rest))
All-of_Permᴰ P (Permᴰ.trans p q) h = All-of_Permᴰ P p (All-of_Permᴰ P q h)

All-members :
    (xs ys : List EntityId) → ((x : EntityId) → Memᴰ x xs → Memᴰ x ys) → All (λ x. Memᴰ x ys) xs
All-members [] ys h = tt
All-members (x ∷ xs) ys h = (h x (Memᴰ.head refl), All-members xs ys λ y m. h y (Memᴰ.tail m))

member_behind :
    (i j : EntityId) (js : List EntityId) → Memᴰ i (j ∷ js) → (j == i) ≡ false → Memᴰ i js
member_behind i j js (Memᴰ.head e) other = absurd (ground (arith, e, other))
member_behind i j js (Memᴰ.tail m) other = m

find_on :
    (es : List BoardElement) (i : EntityId)
    → Memᴰ i (target_ids es)
    → (e : BoardElement) × (find? (λ e. e.target.id == i) es ≡ some e)
find_on [] i m = elim m [ ]
find_on (e ∷ es) i m = elim (Bool-cases (e.target.id == i)) [
  | inl here ↦ (e, rw here refl)
  | inr other ↦
      let (found, at_found) = find_on es i (member_behind i e.target.id (target_ids es) m other) in
      (found, rw other at_found)
]

elements_of_ids :
    (b : Board) (ids : List EntityId)
    → AllOn b.references ids
    → (es : List BoardElement) × (map_result (λ id. get_element_by_target_id id b) ids ≡ ok es)
      × (target_ids es ≡ ids)
      × All (λ e. Memᴰ e b.references) es
unfolding get_element_by_target_id
elements_of_ids b [] h = ([], refl, refl, tt)
elements_of_ids b (i ∷ ids) (there, rest) =
    let (e, found) = find_on b.references i there in
    let (es, got, same, members) = elements_of_ids b ids rest in
    let (m, named) = find_to (λ e. e.target.id == i) b.references e found in
    (e ∷ es, rw (found, got) refl, rw ((==_iff e.target.id i).0 named, same) refl, (m, members))

module _ (collection : References) where
  -- A board is reordered exactly if the ids are a rearrangement of those of its targets: then
  -- its collection is set to elements of the board whose targets have the ids in the given
  -- order. Otherwise a BadRequestException is thrown.
  pub reorder_elements_lem :
      (ids : List EntityId) (b : Board)
      → (Permᴰ ids (target_ids b.references)
          × (es : List BoardElement) × (reorder_elements collection ids b
              ≡ ok (record b { references = collection.set b.references es }))
          × (target_ids es ≡ ids)
          × All (λ e. Memᴰ e b.references) es)
        ⊎ (¬ Permᴰ ids (target_ids b.references)
            × (reorder_elements collection ids b
                ≡ throw (
                    bad_request
                      "elements did not match. please fetch the elements of the board before reordering")))
  unfolding reorder_elements validate_reordering
  reorder_elements_lem ids b =
      let (to, from) = check_lists-Permᴰ ids (target_ids b.references) in
      elim (Bool-cases (check_lists_containing_equal_entities ids (target_ids b.references))) [
        | inl equal ↦
            let (es, got, same, members) = elements_of_ids b ids (
              All-of_Permᴰ (λ i. Memᴰ i (target_ids b.references)) (to equal)
                (All-members (target_ids b.references) (target_ids b.references) λ x m. m)) in
            inl (to equal, es, rw (equal, got) refl, same, members)
        | inr different ↦ inr ((λ p. (ground (arith, different, from p))), rw different refl)
      ]
