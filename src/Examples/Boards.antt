-- ===== src/Examples/Boards.antt =====
-- The theorems on the board of a course and on copies at concrete ones.
use schulcloud_server.Prelude.{
  ℕ, List, [], ◌∷◌, ok, throw, bad_request, ◌≡◌, ◌⊎◌, All, Memᴰ, filterb, not, ◌==◌, nat_eq,
}
use mathlib.Core.List.{Permᴰ}
use schulcloud_server.Board.{
  Board, BoardElement, References, of_task, of_lesson, target_ids, reorder_elements,
}
use schulcloud_server.Board.Reordering.{reorder_elements_lem}
use schulcloud_server.CopyHelper.{success, fail, not_doing, derive_status_from_elements}
use schulcloud_server.CopyHelper.Derived.{Describes, derive_status_from_elements_lem}

abbrev homework : BoardElement
homework = record { ref = 1; element_type = of_task; target = record { ref = 11; id = 501 } }

abbrev chapter : BoardElement
chapter = record { ref = 2; element_type = of_lesson; target = record { ref = 12; id = 401 } }

abbrev course_board : Board
course_board = record { course = 201; references = homework ∷ chapter ∷ [] }

abbrev collection : References
collection = record {
  set = λ old new. new;
  remove = λ old e. filterb (λ (x : BoardElement). not (x.ref == e.ref)) old;
}

abbrev new_order : List ℕ
new_order = 401 ∷ 501 ∷ []

reorder_elements_lem_example :
    (Permᴰ new_order (target_ids course_board.references)
      × (es : List BoardElement) × (reorder_elements collection new_order course_board
          ≡ ok (record course_board { references = es }))
      × (target_ids es ≡ new_order)
      × All (λ e. Memᴰ e (homework ∷ chapter ∷ [])) es)
    ⊎ (¬ Permᴰ new_order (target_ids course_board.references)
        × (reorder_elements collection new_order course_board
            ≡ throw (
                bad_request
                  "elements did not match. please fetch the elements of the board before reordering")))
reorder_elements_lem_example = reorder_elements_lem collection new_order course_board

derive_status_from_elements_lem_example :
    Describes
      (derive_status_from_elements (success ∷ fail ∷ not_doing ∷ []))
      (success ∷ fail ∷ not_doing ∷ [])
derive_status_from_elements_lem_example =
    derive_status_from_elements_lem (success ∷ fail ∷ not_doing ∷ [])
