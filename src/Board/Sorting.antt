-- ===== src/Board/Sorting.antt =====
-- `checkListsContainingEqualEntities` of board.entity.ts: ids compared after sorting.
use schulcloud_server.Prelude.{
  true, List, [], ◌∷◌, nat_eq, leb, arith, ◌≡◌, refl, sym, ◌∙◌, ◌↔◌, Bool-cases, inl, inr,
}
use mathlib.Core.List.{Permᴰ}
use mathlib.Core.List.Permᴰ
use schulcloud_server.Domain.User.{EntityId}
use schulcloud_server.Board.{insert_id, sort_ids, same_ids, check_lists_containing_equal_entities}

same_ids_to : (is js : List EntityId) → same_ids is js ≡ true → is ≡ js
same_ids_to [] [] h = refl
same_ids_to [] (j ∷ js) h = cc
same_ids_to (i ∷ is) [] h = cc
same_ids_to (i ∷ is) (j ∷ js) h =
    let rest = same_ids_to is js (ground (arith, h)) in
    let first : i ≡ j = ground (arith, h) in rw (first, rest) refl

same_ids_self : (is : List EntityId) → same_ids is is ≡ true
same_ids_self [] = refl
same_ids_self (i ∷ is) = ground (arith, same_ids_self is)

insert_id_swap :
    (i j : EntityId) (is : List EntityId)
    → insert_id i (insert_id j is) ≡ insert_id j (insert_id i is)
insert_id_swap i j [] = grind arith
insert_id_swap i j (k ∷ is) = grind (arith, insert_id_swap i j is)

insert_id-Permᴰ : (i : EntityId) (is : List EntityId) → Permᴰ (insert_id i is) (i ∷ is)
insert_id-Permᴰ i [] = Permᴰ.refl (i ∷ [])
insert_id-Permᴰ i (j ∷ is) = elim (Bool-cases (leb i j)) [
  | inl first ↦ rw first (Permᴰ.refl (i ∷ j ∷ is))
  | inr later ↦
      rw later (Permᴰ.trans (Permᴰ.cons refl (insert_id-Permᴰ i is)) (Permᴰ.swap refl refl))
]

sort_ids-Permᴰ : (is : List EntityId) → Permᴰ (sort_ids is) is
sort_ids-Permᴰ [] = Permᴰ.nil
sort_ids-Permᴰ (i ∷ is) =
    Permᴰ.trans (insert_id-Permᴰ i (sort_ids is)) (Permᴰ.cons refl (sort_ids-Permᴰ is))

sort_ids_of_Permᴰ : {is js : List EntityId} → Permᴰ is js → sort_ids is ≡ sort_ids js
sort_ids_of_Permᴰ Permᴰ.nil = refl
sort_ids_of_Permᴰ (Permᴰ.cons e p) = rw (e, sort_ids_of_Permᴰ p) refl
sort_ids_of_Permᴰ (Permᴰ.swap {l = l} e e') = rw (e, e') (insert_id_swap _ _ (sort_ids l))
sort_ids_of_Permᴰ (Permᴰ.trans p q) = sort_ids_of_Permᴰ p ∙ sort_ids_of_Permᴰ q

pub check_lists-Permᴰ :
    (is js : List EntityId) → (check_lists_containing_equal_entities is js ≡ true) ↔ Permᴰ is js
unfolding check_lists_containing_equal_entities
check_lists-Permᴰ is js = (
  λ h.
      Permᴰ.trans (Permᴰ.symm (sort_ids-Permᴰ is))
        (rw (sym (same_ids_to (sort_ids is) (sort_ids js) h)) at (sort_ids-Permᴰ js)),
  λ p. rw (sort_ids_of_Permᴰ p) (same_ids_self (sort_ids js)),
)
