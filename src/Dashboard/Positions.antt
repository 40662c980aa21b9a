-- ===== src/Dashboard/Positions.antt =====
-- `gridIndexFromPosition` and `positionFromGridIndex` of dashboard.entity.ts.
use schulcloud_server.Prelude.{ℕ, ◌+◌, ◌*◌, ◌/◌, ◌%◌, ◌<◌, ◌≡◌, ok, arith}
use schulcloud_server.Dashboard.Grid.{
  GridPosition, grid_index_from_position, position_from_grid_index,
}

column_of : (c x y : ℕ) → x < c → (c * y + x) % c ≡ x
column_of c x y h = grind arith

row_of : (c x y : ℕ) → x < c → (c * y + x) / c ≡ y
row_of c x y h = grind arith

-- A position inside the columns has an index, and the index leads back to the position.
pub position_from_grid_index-grid_index_from_position :
    (columns : ℕ) (pos : GridPosition)
    → pos.x < columns
    → (index : ℕ) × (grid_index_from_position columns pos ≡ ok index)
      × (position_from_grid_index columns index ≡ pos)
unfolding grid_index_from_position position_from_grid_index
position_from_grid_index-grid_index_from_position columns pos h = (
  columns * pos.y + pos.x,
  ground arith,
  λ i. record { x = column_of columns pos.x pos.y h i; y = row_of columns pos.x pos.y h i },
)

-- The column behind the last one is not refused: the call returns, and gives the index that the
-- call for the first column of the next row returns too.
pub grid_index_from_position_overflow :
    (columns y : ℕ)
    → (grid_index_from_position columns (record { x = columns; y = y }) ≡ ok (columns * (y + 1)))
      × (grid_index_from_position columns (record { x = 0; y = y + 1 }) ≡ ok (columns * (y + 1)))
unfolding grid_index_from_position
grid_index_from_position_overflow columns y = (grind arith, grind arith)
