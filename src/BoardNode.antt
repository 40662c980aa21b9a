-- ===== src/BoardNode.antt =====
-- shared/domain/entity/boardnode and shared/domain/domainobject/board: the nodes that the database
-- keeps for a column board, and the board that is built from them.
pub mod Node
pub mod Builder
pub mod Children
pub mod Order
pub mod Level
pub mod Flat
pub mod RoundTrip
pub mod Repo
pub mod Stored
