-- ===== src/Domain/Lesson.antt =====
-- lesson.entity.ts, without the contents of a lesson. The tasks of a lesson, which refer back to
-- it, are in Domain/LessonTasks.antt.
use schulcloud_server.Prelude.{
  ℕ, String, Bool, true, false, List, Option, none, some, Result, ok, throw, error,
}
use schulcloud_server.Domain.User.{EntityId}
use schulcloud_server.Domain.Course
use schulcloud_server.Domain.Course.{Course}
use schulcloud_server.Domain.CourseGroup
use schulcloud_server.Domain.CourseGroup.{CourseGroup}

pub record Lesson : Type 0 where
  pub id : EntityId
  pub name : String
  pub hidden : Bool
  pub course : Option Course
  pub course_group : Option CourseGroup
  pub position : ℕ

-- A property of `undefined` is read.
abbrev pub type_error {ℓ} : {A : Type ℓ} → Result A
type_error = throw (error "TypeError")

unfoldable pub get_student_ids : Lesson → Result (List EntityId)
unfolding Course.get_student_ids CourseGroup.get_student_ids
get_student_ids l = elim l.course_group [
  | some g ↦ ok (CourseGroup.get_student_ids g)
  | none ↦ elim l.course [ some c ↦ Course.get_student_ids c | none ↦ type_error ]
]

unfoldable pub get_school_id : Lesson → Result EntityId
get_school_id l = elim l.course_group [
  | none ↦ elim l.course [ some c ↦ ok c.school.id | none ↦ type_error ]
  | some g ↦ ok g.school.id
]

unfoldable pub publish : Lesson → Lesson
publish l = record l { hidden = false }

unfoldable pub unpublish : Lesson → Lesson
unpublish l = record l { hidden = true }
