-- ===== src/Examples.antt =====
-- Concrete entities, and the theorems applied to them.
pub mod Collections
pub mod Entities
mod Access
mod Tasks
mod Grid
mod Tools
mod Boards
pub mod FileEnvironment
mod Files
mod BoardNodes
mod Migrations
mod Rooms
