-- ===== src/Domain/Task/Status.antt =====
-- The status of a task for a teacher and for a student (task.entity.ts).
use schulcloud_server.Prelude.{
  ℕ, Bool, false, List, [], ◌∷◌, ◌++◌, none, some, Result, ok, ◌>>=◌, any_result, filterb, unique,
  length, if◌then◌else◌, nat_eq,
}
use schulcloud_server.Domain.User.{EntityId, User}
use schulcloud_server.Domain.Orm.{Orm}
use schulcloud_server.Domain.Course
use schulcloud_server.Domain.Course.{Course}
use schulcloud_server.Domain.Lesson
use schulcloud_server.Domain.Lesson.{Lesson}
use schulcloud_server.Domain.Submission.{
  Submission, is_submitted, is_graded, get_submitter_ids, is_submitted_for_user, is_graded_for_user,
}
use schulcloud_server.Domain.Task.{Task, get_submission_items, is_finished_for_user, is_draft}

-- ITaskStatus in types/task.types.ts
pub record TaskStatus : Type 0 where
  pub submitted : ℕ
  pub graded : ℕ
  pub max_submissions : ℕ
  pub is_draft : Bool
  pub is_substitution_teacher : Bool
  pub is_finished : Bool

-- `getParent`: the lesson, else the course, else the creator.
pub data Parent : Type 0 where
  of_lesson : Lesson → Parent
  of_course : Course → Parent
  of_creator : User → Parent

unfoldable pub get_parent : Task → Parent
get_parent t = elim t.lesson [
  | some l ↦ of_lesson l
  | none ↦ elim t.course [ some c ↦ of_course c | none ↦ of_creator t.creator ]
]

abbrev pub student_count : Parent → Result ℕ
student_count (of_lesson l) = Lesson.get_student_ids l >>= λ students. ok (length students)
student_count (of_course c) = Course.get_student_ids c >>= λ students. ok (length students)
student_count (of_creator _) = ok 1

unfoldable pub get_max_submissions : Task → Result ℕ
unfolding get_parent
get_max_submissions t = student_count (get_parent t)

unfoldable pub get_submitted_submissions : Task → Result (List Submission)
get_submitted_submissions t = do
  submissions ← get_submission_items t
  ok (filterb is_submitted submissions)

unfoldable pub get_graded_submissions : Task → Result (List Submission)
get_graded_submissions t = do
  submissions ← get_submission_items t
  ok (filterb is_graded submissions)

unfoldable pub is_submitted_for_user_of : Task → User → Result Bool
is_submitted_for_user_of t u = do
  submissions ← get_submission_items t
  any_result (λ s. is_submitted_for_user s u) submissions

unfoldable pub is_graded_for_user_of : Task → User → Result Bool
is_graded_for_user_of t u = do
  submissions ← get_submission_items t
  any_result (λ s. is_graded_for_user s u) submissions

-- The loop of `calculateNumberOfSubmitters`.
unfoldable pub gather_submitter_ids : List EntityId → List Submission → Result (List EntityId)
gather_submitter_ids task_submitter_ids [] = ok task_submitter_ids
gather_submitter_ids task_submitter_ids (s ∷ submissions) = do
  submitter_ids ← get_submitter_ids s
  gather_submitter_ids (task_submitter_ids ++ submitter_ids) submissions

unfoldable pub calculate_number_of_submitters : List Submission → Result ℕ
calculate_number_of_submitters submissions = do
  task_submitter_ids ← gather_submitter_ids [] submissions
  ok (length (unique task_submitter_ids))

unfoldable pub is_user_substitution_teacher_in_course : Orm → Task → User → Bool
is_user_substitution_teacher_in_course orm t u = elim t.course [
  | none ↦ false
  | some c ↦ Course.is_user_substitution_teacher orm c u
]

unfoldable pub create_teacher_status_for_user : Orm → (now : ℕ) → Task → User → Result TaskStatus
create_teacher_status_for_user orm now t u = do
  submitted_submissions ← get_submitted_submissions t
  graded_submissions ← get_graded_submissions t
  number_of_submitters ← calculate_number_of_submitters submitted_submissions
  number_of_submitters_with_grade ← calculate_number_of_submitters graded_submissions
  max_submissions ← get_max_submissions t
  finished ← is_finished_for_user now t u
  ok (record {
    submitted = number_of_submitters;
    graded = number_of_submitters_with_grade;
    max_submissions = max_submissions;
    is_draft = is_draft t;
    is_substitution_teacher = is_user_substitution_teacher_in_course orm t u;
    is_finished = finished;
  })

unfoldable pub create_student_status_for_user : (now : ℕ) → Task → User → Result TaskStatus
create_student_status_for_user now t u = do
  submitted ← is_submitted_for_user_of t u
  graded ← is_graded_for_user_of t u
  finished ← is_finished_for_user now t u
  ok (record {
    submitted = if submitted then 1 else 0;
    graded = if graded then 1 else 0;
    max_submissions = 1;
    is_draft = is_draft t;
    is_substitution_teacher = false;
    is_finished = finished;
  })
