-- ===== src/Examples/Access.antt =====
-- The theorems on permissions at concrete users and entities.
use schulcloud_server.Prelude.{
  true, List, [], ◌≡◌, refl, ◌⊎◌, ok, throw, forbidden, Decides, includes, is_distinct, ◌↔◌,
  string_eq, ◌≢◌, String,
}
use schulcloud_server.Domain.Role.{Grants}
use schulcloud_server.Domain.User.{User}
use schulcloud_server.Domain.Task.{is_draft}
use schulcloud_server.Domain.Submission.{
  is_submitted, is_user_submitter, get_submitter_ids, get_team_member_ids,
  get_course_group_student_ids,
}
use schulcloud_server.Domain.Submission.Submitters.{IsSubmitter}
use schulcloud_server.Authorization.Context.{read, write, reading, writing}
use schulcloud_server.Authorization.Manager.{Entity}
use schulcloud_server.Authorization.Utils.{
  resolve_permissions_by_roles, has_all_permissions, has_access_to_entity,
}
use schulcloud_server.Authorization.Utils.Permissions.{HasAll, resolve_permissions_by_roles_lem}
use schulcloud_server.Authorization.Rules.Course
use schulcloud_server.Authorization.Rules.CourseGroup
use schulcloud_server.Authorization.Rules.Lesson
use schulcloud_server.Authorization.Rules.Task
use schulcloud_server.Authorization.Rules.TaskCard
use schulcloud_server.Authorization.Rules.Submission
use schulcloud_server.Authorization.Guarantees.{
  draft_readers, hidden_lesson_readers, unsubmitted_readers,
}
use schulcloud_server.Authorization.Service
use schulcloud_server.Authorization.Service.{
  EntityType, tasks, registered, get_user_with_permissions, load_entity,
  check_permission_by_references,
}
use schulcloud_server.Authorization.Service.Decisions.{check_permission_by_references_lem}
use schulcloud_server.Examples.Collections.{orm}
use schulcloud_server.Examples.Entities.{
  teacher, student, biology, birds, hidden_lesson, draft, planned, unsubmitted, graded_submission,
  card, repos,
}

draft_readers_example : (draft.creator.ref ≡ teacher.ref) ⊎ Course.Access teacher biology write
unfolding is_draft Task.has_permission has_all_permissions Course.has_permission
    has_access_to_entity
draft_readers_example = draft_readers orm teacher (refl, refl) [] draft biology refl refl refl refl

hidden_lesson_readers_example : Course.Access teacher biology write
unfolding Lesson.has_permission Course.has_permission has_all_permissions has_access_to_entity
hidden_lesson_readers_example =
    hidden_lesson_readers orm teacher (refl, refl) [] hidden_lesson biology refl refl refl refl

unsubmitted_readers_example : IsSubmitter student.id unsubmitted
unfolding is_submitted Submission.has_permission has_all_permissions is_user_submitter
    get_submitter_ids get_team_member_ids get_course_group_student_ids
unsubmitted_readers_example =
    unsubmitted_readers orm student (refl, refl) [] unsubmitted draft refl refl refl

has_task_permission_lem_example :
    Decides
      (Task.has_permission orm student draft (reading []))
      (HasAll student [] × Task.Access student draft read)
has_task_permission_lem_example =
    Task.has_task_permission_lem orm student draft (reading []) (refl, refl)

has_lesson_permission_lem_example :
    Decides
      (Lesson.has_permission orm student hidden_lesson (reading []))
      (HasAll student [] × Lesson.Access student hidden_lesson read)
has_lesson_permission_lem_example =
    Lesson.has_lesson_permission_lem orm student hidden_lesson (reading []) (refl, refl)

has_submission_permission_lem_example :
    Decides
      (Submission.has_permission orm student graded_submission planned (writing []))
      (HasAll student [] × Submission.Access student graded_submission planned write)
has_submission_permission_lem_example =
    Submission.has_submission_permission_lem orm student graded_submission planned (writing [])
      (refl, refl) refl

has_course_permission_lem_example :
    Decides
      (Course.has_permission orm student biology (writing []))
      (HasAll student [] × Course.Access student biology write)
has_course_permission_lem_example =
    Course.has_course_permission_lem orm student biology (writing []) (refl, refl)

has_course_group_permission_lem_example :
    Decides
      (CourseGroup.has_permission orm student birds (writing []))
      (HasAll student [] × CourseGroup.Access student birds)
has_course_group_permission_lem_example =
    CourseGroup.has_course_group_permission_lem orm student birds (writing []) (refl, refl)

has_task_card_permission_lem_example :
    Decides
      (TaskCard.has_permission orm student card (writing []))
      (HasAll student [] × TaskCard.Access student card write)
has_task_card_permission_lem_example =
    TaskCard.has_task_card_permission_lem orm student card (writing []) (refl, refl)

resolve_permissions_by_roles_lem_example :
    (out : List String) × (resolve_permissions_by_roles teacher.roles ≡ ok out)
    × ((p : String) → (includes out p ≡ true) ↔ Grants p teacher.roles)
    × (is_distinct out ≡ true)
resolve_permissions_by_roles_lem_example = resolve_permissions_by_roles_lem teacher.roles refl

check_permission_by_references_lem_example :
    ((check_permission_by_references orm repos 102 tasks 501 (reading []) ≡ ok tt)
      × (u : User) × (entity : Entity) × (get_user_with_permissions repos 102 ≡ ok u)
      × (load_entity repos tasks 501 ≡ ok entity)
      × (Service.has_permission orm u entity (reading []) ≡ ok true))
    ⊎ ((check_permission_by_references orm repos 102 tasks 501 (reading []) ≡ throw forbidden)
        × ((u : User) (entity : Entity)
            → get_user_with_permissions repos 102 ≡ ok u
            → load_entity repos tasks 501 ≡ ok entity
            → Service.has_permission orm u entity (reading []) ≢ ok true))
check_permission_by_references_lem_example =
    check_permission_by_references_lem orm repos 102 tasks 501 (reading [])
