-- ===== src/Domain.antt =====
-- The entities of apps/server/src/shared/domain/entity that the rules and the task overview read.
pub mod Role
pub mod User
pub mod Orm
pub mod Course
pub mod CourseGroup
pub mod Lesson
pub mod Submission
pub mod Task
pub mod LessonTasks
pub mod TaskCard
pub mod Team
