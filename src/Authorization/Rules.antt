-- ===== src/Authorization/Rules.antt =====
-- The rules of apps/server/src/shared/domain/rules, one to a module, and what they are asked.
pub mod Access
pub mod Course
pub mod CourseGroup
pub mod Lesson
pub mod Task
pub mod TaskCard
pub mod Submission
pub mod School
pub mod Team
pub mod User
