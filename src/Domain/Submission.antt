-- ===== src/Domain/Submission.antt =====
-- submission.entity.ts. The task of a submission, which holds the submission in turn, is passed
-- beside it where it is read (Domain/Task.antt).
pub mod Submitters
use schulcloud_server.Prelude.{
  ℕ, String, Bool, List, [], ◌∷◌, ◌++◌, Option, none, some, Result, ok, throw,
  internal_server_error, ◌>>=◌, ◌&&◌, nat_eq, ◌==◌, unique, any,
}
use schulcloud_server.Domain.User.{EntityId, School, User, ids}
use schulcloud_server.Domain.CourseGroup
use schulcloud_server.Domain.CourseGroup.{CourseGroup}

pub record Submission : Type 0 where
  pub id : EntityId
  pub school : School
  pub student : User
  pub course_group : Option CourseGroup
  pub team_members : Option (List User)
  pub comment : Option String
  pub submitted : Bool
  pub graded : Bool
  pub grade : Option ℕ
  pub grade_comment : Option String

unfoldable pub get_course_group_student_ids : Submission → List EntityId
unfolding CourseGroup.get_student_ids
get_course_group_student_ids s = elim s.course_group [
  | none ↦ []
  | some g ↦ CourseGroup.get_student_ids g
]

unfoldable pub get_team_member_ids : Submission → Result (List EntityId)
get_team_member_ids s = elim s.team_members [
  | none ↦ throw (
      internal_server_error
        "Submission.teamMembers is undefined. The submission need to be populated.")
  | some us ↦ ok (ids us)
]

unfoldable pub is_submitted : Submission → Bool
is_submitted s = s.submitted

unfoldable pub is_graded : Submission → Bool
is_graded s = s.graded

-- The course group is asked after the team, so a missing team is what is reported.
unfoldable pub get_submitter_ids : Submission → Result (List EntityId)
get_submitter_ids s = do
  let creator_id = s.student.id
  team ← get_team_member_ids s
  let group = get_course_group_student_ids s
  ok (unique (creator_id ∷ (team ++ group)))

unfoldable pub is_user_submitter : Submission → User → Result Bool
is_user_submitter s u = do member_ids ← get_submitter_ids s; ok (any (λ i. i == u.id) member_ids)

unfoldable pub is_submitted_for_user : Submission → User → Result Bool
is_submitted_for_user s u = do is_member ← is_user_submitter s u; ok (is_member && is_submitted s)

unfoldable pub is_graded_for_user : Submission → User → Result Bool
is_graded_for_user s u = do is_member ← is_user_submitter s u; ok (is_member && is_graded s)
