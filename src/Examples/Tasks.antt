-- ===== src/Examples/Tasks.antt =====
-- The theorems on submissions and tasks at concrete entities.
use schulcloud_server.Prelude.{
  true, List, [], ◌∷◌, ◌≡◌, refl, ◌↔◌, ok, includes, is_distinct, nat_eq, length,
}
use mathlib.Core.List.Memᴰ
use schulcloud_server.Domain.User.{EntityId}
use schulcloud_server.Domain.Submission.{Submission, get_submitter_ids}
use schulcloud_server.Domain.Submission.Submitters.{IsSubmitter, get_submitter_ids_lem}
use schulcloud_server.Domain.Task.Status.{calculate_number_of_submitters}
use schulcloud_server.Domain.Task.Submitters.{SomeSubmitter, calculate_number_of_submitters_lem}
use schulcloud_server.Domain.Task.Overview.{OneObjectPerId}
use schulcloud_server.Domain.LessonTasks.{LessonTasks}
use schulcloud_server.Examples.Entities.{student, draft, planned, unsubmitted, graded_submission}

abbrev both : List Submission
both = unsubmitted ∷ graded_submission ∷ []

get_submitter_ids_lem_example :
    (out : List EntityId) × (get_submitter_ids graded_submission ≡ ok out)
    × ((i : EntityId) → (includes out i ≡ true) ↔ IsSubmitter i graded_submission)
    × (is_distinct out ≡ true)
get_submitter_ids_lem_example = get_submitter_ids_lem graded_submission refl

calculate_number_of_submitters_lem_example :
    (submitters : List EntityId) × (calculate_number_of_submitters both ≡ ok (length submitters))
    × ((i : EntityId) → (includes submitters i ≡ true) ↔ SomeSubmitter i both)
    × (is_distinct submitters ≡ true)
calculate_number_of_submitters_lem_example =
    calculate_number_of_submitters_lem both (refl, (refl, tt))

one_student : OneObjectPerId student (student ∷ [])
one_student v (Memᴰ.head e) = rw e ((λ _. refl), (λ _. refl))
one_student v (Memᴰ.tail m) = elim m [ ]

abbrev two_tasks : LessonTasks
two_tasks = record { initialized = true; items = draft ∷ planned ∷ [] }
