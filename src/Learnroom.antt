-- ===== src/Learnroom.antt =====
-- modules/learnroom/uc: what of a course a room shows.
pub mod RoomsAuthorisation
pub mod Agreement
