-- ===== src/Domain/CourseGroup.antt =====
-- coursegroup.entity.ts. A submission can name a course group that no longer exists: then its
-- students are missing.
use schulcloud_server.Prelude.{String, List, [], Option, none, some}
use schulcloud_server.Domain.User.{EntityId, School, User, ids}
use schulcloud_server.Domain.Course.{Course}

pub record CourseGroup : Type 0 where
  pub id : EntityId
  pub name : String
  pub students : Option (List User)
  pub course : Course
  pub school : School

unfoldable pub get_student_ids : CourseGroup → List EntityId
get_student_ids g = elim g.students [ none ↦ [] | some us ↦ ids us ]
