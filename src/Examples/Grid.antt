-- ===== src/Examples/Grid.antt =====
-- The theorems on the dashboard at a concrete grid.
use schulcloud_server.Prelude.{
  ℕ, ◌+◌, ◌*◌, true, [], ◌∷◌, none, some, ◌≡◌, refl, ok, includes, arith,
}
use schulcloud_server.Dashboard.Element.{
  Learnroom, room, learnroom_eq, Metadata, GridElement, is_group, from_single_reference,
  remove_reference_by_index,
}
use schulcloud_server.Dashboard.Element.Order.{count}
use schulcloud_server.Dashboard.Map
use schulcloud_server.Dashboard.Map.{Entries, keys, all_rooms}
use schulcloud_server.Dashboard.Grid.{
  GridPosition, GridPositionWithGroupIndex, Dashboard, grid_index_from_position,
  position_from_grid_index, move_element, get_references_from_position, get_element,
  merge_element_into_position, remove_from_position,
}
use schulcloud_server.Dashboard.Positions.{
  position_from_grid_index-grid_index_from_position, grid_index_from_position_overflow,
}
use schulcloud_server.Dashboard.Moving.{move_element-conserves}
use schulcloud_server.Dashboard.Placing.{move_element_onto_itself}
use schulcloud_server.Dashboard.LearnRooms.{remove_missing, set_learn_rooms}
use schulcloud_server.Dashboard.LearnRooms.Removal.{remove_missing_skips}
use schulcloud_server.Dashboard.LearnRooms.Coverage.{set_learn_rooms_lem}

-- Every course bears its own number as title.
abbrev meta : ℕ → Metadata
meta n = record { id = n; title = n ∷ [] }

abbrev pair : GridElement
pair = record { id = none; title = some "Mine"; references = room 7 ∷ room 8 ∷ room 9 ∷ [] }

abbrev single : GridElement
single = record { id = none; title = none; references = room 5 ∷ [] }

abbrev board : Dashboard
board = record { id = 1; columns = 4; grid = (0, pair) ∷ (1, single) ∷ []; user_id = 103 }

abbrev left_top : GridPosition
left_top = record { x = 0; y = 0 }

abbrev second_of_pair : GridPositionWithGroupIndex
second_of_pair = record { pos = left_top; group_index = some 1 }

abbrev free_place : GridPositionWithGroupIndex
free_place = record { pos = record { x = 1; y = 1 }; group_index = none }

-- The grid after the second course of the pair went to the free place.
abbrev board_after : Dashboard
board_after = record board {
  grid =
      (0, record pair { references = room 7 ∷ room 9 ∷ [] })
      ∷ (1, single)
      ∷ (5, record { id = none; title = none; references = room 8 ∷ [] })
      ∷ [];
}

abbrev moved_there : GridPosition × GridElement
moved_there = (free_place.pos, record { id = none; title = none; references = room 8 ∷ [] })

moved : move_element meta board second_of_pair free_place [] ≡ ok (board_after, moved_there)
unfolding move_element get_references_from_position get_element grid_index_from_position
    merge_element_into_position remove_from_position remove_reference_by_index is_group
    from_single_reference Map.get Map.set
moved = refl

position_from_grid_index-grid_index_from_position_example :
    (index : ℕ) × (grid_index_from_position 4 free_place.pos ≡ ok index)
    × (position_from_grid_index 4 index ≡ free_place.pos)
position_from_grid_index-grid_index_from_position_example =
    position_from_grid_index-grid_index_from_position 4 free_place.pos (omega arith)

grid_index_from_position_overflow_example :
    (grid_index_from_position 4 (record { x = 4; y = 2 }) ≡ ok (4 * (2 + 1)))
    × (grid_index_from_position 4 (record { x = 0; y = 2 + 1 }) ≡ ok (4 * (2 + 1)))
grid_index_from_position_overflow_example = grid_index_from_position_overflow 4 2

move_element-conserves_example :
    count (all_rooms board_after.grid) (room 8) ≡ count (all_rooms board.grid) (room 8)
unfolding grid_index_from_position
move_element-conserves_example =
    move_element-conserves meta board second_of_pair free_place [] board_after moved_there 0 5 moved
      refl refl (λ e. (omega arith)) (room 8)

move_element_onto_itself_example :
    (d : Dashboard) × (res : GridPosition × GridElement) × (move_element meta board
        (record { pos = left_top; group_index = none })
        (record { pos = left_top; group_index = none })
        []
      ≡ ok (d, res))
    × (Map.get d.grid 0 ≡ none)
unfolding grid_index_from_position Map.get keys
move_element_onto_itself_example =
    move_element_onto_itself meta board left_top pair 0 refl refl refl

remove_missing_skips_example :
    (e : GridElement) × (remove_missing (room 9 ∷ []) pair ≡ ok e)
    × (includes e.references (room 8) ≡ true)
remove_missing_skips_example =
    remove_missing_skips (room 9 ∷ []) pair (room 7) (room 8) (room 9 ∷ []) refl refl refl

set_learn_rooms_lem_example :
    (d : Dashboard) × (set_learn_rooms meta (room 5 ∷ room 6 ∷ []) board ≡ ok d)
    × ((r : Learnroom)
        → includes (room 5 ∷ room 6 ∷ []) r ≡ true
        → includes (all_rooms d.grid) r ≡ true)
set_learn_rooms_lem_example = set_learn_rooms_lem meta (room 5 ∷ room 6 ∷ []) board
