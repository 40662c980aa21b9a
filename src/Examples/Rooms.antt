-- ===== src/Examples/Rooms.antt =====
-- The theorems on rooms at the draft of a teacher, whose course is loaded.
use schulcloud_server.Prelude.{true, [], ◌∷◌, ok, ◌≡◌, refl}
use schulcloud_server.Domain.Task.{is_planned, is_draft}
use schulcloud_server.Authorization.Context.{reading}
use schulcloud_server.Authorization.Rules.Task
use schulcloud_server.Learnroom.RoomsAuthorisation.{
  has_task_read_permission, has_course_read_permission,
}
use schulcloud_server.Learnroom.Agreement.{
  has_task_read_permission-agrees, has_task_read_permission_allowed,
}
use schulcloud_server.Examples.Entities.{teacher, student, draft, biology}
use schulcloud_server.Examples.Collections.{orm}

has_task_read_permission-agrees_example :
    has_task_read_permission 5 orm student draft
    ≡ Task.has_permission orm student draft (reading [])
unfolding is_planned is_draft
has_task_read_permission-agrees_example =
    has_task_read_permission-agrees 5 orm student draft biology (student ∷ []) (refl, refl) refl
      refl refl refl

has_task_read_permission_allowed_example :
    Task.has_permission orm teacher draft (reading []) ≡ ok true
unfolding has_task_read_permission has_course_read_permission is_draft
has_task_read_permission_allowed_example =
    has_task_read_permission_allowed 5 orm teacher draft (refl, refl) refl
