-- ===== src/Dashboard.antt =====
-- dashboard.entity.ts: a user's courses, arranged in a grid.
pub mod Element
pub mod Map
pub mod Grid
pub mod Positions
pub mod Moving
pub mod Placing
pub mod LearnRooms
