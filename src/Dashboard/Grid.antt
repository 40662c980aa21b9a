-- ===== src/Dashboard/Grid.antt =====
-- dashboard.entity.ts, DashboardEntity: positions, lookups and moves. A position is two natural
-- numbers, as the request validation lets through whole ones.
use schulcloud_server.Prelude.{
  ℕ, ◌+◌, ◌*◌, ◌/◌, ◌%◌, List, [], ◌∷◌, Option, none, some, Result, ok, throw, bad_request,
  not_found, ◌>>=◌, ◌>>◌, guard, not, ltb, eqb, zero, suc, if◌then◌else◌, any,
}
use schulcloud_server.Domain.User.{EntityId}
use schulcloud_server.Dashboard.Element.{
  Learnroom, undefined, Metadata, GridElement, is_group, get_metadata, from_single_reference,
  add_references, remove_reference_by_index,
}
use schulcloud_server.Dashboard.Map
use schulcloud_server.Dashboard.Map.{Entries}

pub record GridPosition : Type 0 where
  pub x : ℕ
  pub y : ℕ

pub record GridPositionWithGroupIndex : Type 0 where
  pub pos : GridPosition
  pub group_index : Option ℕ

pub record Dashboard : Type 0 where
  pub id : EntityId
  pub columns : ℕ
  pub grid : Entries
  pub user_id : EntityId

abbrev pub default_columns : ℕ
default_columns = 4

unfoldable pub grid_index_from_position : (columns : ℕ) → GridPosition → Result ℕ
grid_index_from_position columns pos =
    if ltb columns pos.x
    then throw (bad_request "dashboard element position is outside the grid.")
    else ok (columns * pos.y + pos.x)

unfoldable pub position_from_grid_index : (columns : ℕ) → ℕ → GridPosition
position_from_grid_index columns index = record { x = index % columns; y = index / columns }

-- The loop of the constructor over `props.grid`.
unfoldable pub fill_grid :
    (columns : ℕ) → Entries → List (GridPosition × GridElement) → Result Entries
fill_grid columns grid [] = ok grid
fill_grid columns grid ((pos, e) ∷ rest) = do
  index ← grid_index_from_position columns pos
  fill_grid columns (Map.set grid index e) rest

-- `props.colums || defaultColumns`
abbrev pub columns_or_default : Option ℕ → ℕ
columns_or_default none = default_columns
columns_or_default (some c) = if eqb c 0 then default_columns else c

unfoldable pub new_dashboard :
    EntityId → Option ℕ → List (GridPosition × GridElement) → EntityId → Result Dashboard
new_dashboard id colums elements user_id = do
  let columns = columns_or_default colums
  grid ← fill_grid columns [] elements
  ok (record { id = id; columns = columns; grid = grid; user_id = user_id })

unfoldable pub get_grid : Dashboard → List (GridPosition × GridElement)
get_grid d = positions d.columns d.grid
  where
    positions : ℕ → Entries → List (GridPosition × GridElement)
    positions columns [] = []
    positions columns ((key, e) ∷ m) =
        (position_from_grid_index columns key, e) ∷ positions columns m

abbrev pub or_not_found : Option GridElement → Result GridElement
or_not_found none = throw (not_found "no element at grid position")
or_not_found (some e) = ok e

unfoldable pub get_element : Dashboard → GridPosition → Result GridElement
get_element d pos = do
  index ← grid_index_from_position d.columns pos
  or_not_found (Map.get d.grid index)

module _ (meta : ℕ → Metadata) where
  -- The substitute courses come from the repository, so each of them is there.
  unfoldable pub check_if_moved_to_substitute :
      List Learnroom → (substitute_courses : List ℕ) → Result (Unit {0})
  check_if_moved_to_substitute [] substitute_courses = ok tt
  check_if_moved_to_substitute (course ∷ courses) substitute_courses = do
    course_data ← get_metadata meta course
    guard (not (any (λ s. eqb (meta s).id course_data.id) substitute_courses))
        (bad_request "substitute courses cannot be arranged")
    check_if_moved_to_substitute courses substitute_courses

  -- `references[groupIndex]`
  abbrev pub at : List Learnroom → ℕ → Learnroom
  at [] i = undefined
  at (r ∷ rs) zero = r
  at (r ∷ rs) (suc i) = at rs i

  abbrev pub pick : Option ℕ → GridElement → GridElement
  pick none e = e
  pick (some i) e = if is_group e then from_single_reference meta (at e.references i) else e

  unfoldable pub get_references_from_position :
      Dashboard → GridPositionWithGroupIndex → Result GridElement
  get_references_from_position d position = do
    element_to_move ← get_element d position.pos
    ok (pick position.group_index element_to_move)

  abbrev pub merged : Option GridElement → GridElement → GridElement
  merged none e = e
  merged (some target) e = add_references meta e.references target

  unfoldable pub merge_element_into_position :
      Dashboard → GridElement → GridPosition → Result (Dashboard × GridElement)
  merge_element_into_position d e position = do
    index ← grid_index_from_position d.columns position
    let result = merged (Map.get d.grid index) e
    ok (record d { grid = Map.set d.grid index result }, result)

  abbrev pub remove_by : Option ℕ → Entries → (index : ℕ) → GridElement → Result Entries
  remove_by none grid index e = ok (Map.delete grid index)
  remove_by (some i) grid index e =
      remove_reference_by_index i e >>= λ smaller. ok (Map.set grid index smaller)

  unfoldable pub remove_from_position : Dashboard → GridPositionWithGroupIndex → Result Dashboard
  remove_from_position d position = do
    element ← get_element d position.pos
    index ← grid_index_from_position d.columns position.pos
    grid ← remove_by position.group_index d.grid index element
    ok (record d { grid = grid })

  -- What the target holds is checked too, if it holds anything.
  abbrev pub check_target : Option GridElement → List ℕ → Result (Unit {0})
  check_target none substitute_courses = ok tt
  check_target (some e) substitute_courses =
      check_if_moved_to_substitute e.references substitute_courses

  abbrev pub check_substitutes : Dashboard → GridElement → GridPosition → List ℕ → Result (Unit {0})
  check_substitutes d e to [] = ok tt
  check_substitutes d e to (s ∷ substitute_courses) =
      check_if_moved_to_substitute e.references (s ∷ substitute_courses)
      >> (grid_index_from_position d.columns to >>= λ index.
          check_target (Map.get d.grid index) (s ∷ substitute_courses))

  abbrev pub read_back : Option GridElement → GridElement → GridElement
  read_back none e = e
  read_back (some e') e = e'

  -- The element that is returned is the object at the target. The removal may still change it, so it
  -- is read again, unless the removal took it off the grid.
  unfoldable pub move_element :
      Dashboard
      → (from to : GridPositionWithGroupIndex) → (substitute_courses : List ℕ)
      → Result (Dashboard × (GridPosition × GridElement))
  move_element d from to substitute_courses = do
    element_to_move ← get_references_from_position d from
    check_substitutes d element_to_move to.pos substitute_courses
    (merged_board, result_element) ← merge_element_into_position d element_to_move to.pos
    moved ← remove_from_position merged_board from
    index ← grid_index_from_position d.columns to.pos
    ok (moved, (to.pos, read_back (Map.get moved.grid index) result_element))
