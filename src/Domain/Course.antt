-- ===== src/Domain/Course.antt =====
-- course.entity.ts. A collection that a partly loaded entity may lack is an `Option`; `now` is what
-- `new Date()` answers, in milliseconds.
use schulcloud_server.Prelude.{
  ℕ, String, Bool, false, List, Option, none, some, Result, ok, throw, internal_server_error, ltb,
}
use schulcloud_server.Domain.User.{EntityId, School, User, ids}
use schulcloud_server.Domain.Orm.{Orm}

pub record Course : Type 0 where
  pub id : EntityId
  pub name : String
  pub description : String
  pub school : School
  pub students : Option (List User)
  pub teachers : List User
  pub substitution_teachers : List User
  pub color : String
  pub start_date : Option ℕ
  pub until_date : Option ℕ
  pub copying_since : Option ℕ

unfoldable pub get_student_ids : Course → Result (List EntityId)
get_student_ids c = elim c.students [
  | none ↦
      throw (internal_server_error "Course.students is undefined. The course need to be populated.")
  | some us ↦ ok (ids us)
]

unfoldable pub is_user_substitution_teacher : Orm → Course → User → Bool
is_user_substitution_teacher orm c u = orm.contains c.substitution_teachers u

unfoldable pub is_finished : (now : ℕ) → Course → Bool
is_finished now c = elim c.until_date [ none ↦ false | some date ↦ ltb date now ]
