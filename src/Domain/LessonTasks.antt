-- ===== src/Domain/LessonTasks.antt =====
-- lesson.entity.ts: the tasks of a lesson, and how many of them are drafts, planned and published.
use schulcloud_server.Prelude.{
  ℕ, ◌+◌, Bool, true, List, [], ◌∷◌, Result, ok, throw, internal_server_error, ◌>>=◌, ◌≡◌, refl,
  arith, filterb, length, if◌then◌else◌,
}
use schulcloud_server.Domain.Task.{Task, is_draft, is_published, is_planned}

-- `lesson.tasks`, as `isInitialized(true)` and `getItems()` show it.
pub record LessonTasks : Type 0 where
  pub initialized : Bool
  pub items : List Task

unfoldable pub get_tasks_items : LessonTasks → Result (List Task)
get_tasks_items l =
    if l.initialized
    then ok l.items
    else throw (internal_server_error "Lessons trying to access their tasks that are not loaded.")

unfoldable pub get_number_of_published_tasks : (now : ℕ) → LessonTasks → Result ℕ
get_number_of_published_tasks now l = do
  tasks ← get_tasks_items l
  ok (length (filterb (is_published now) tasks))

unfoldable pub get_number_of_draft_tasks : LessonTasks → Result ℕ
get_number_of_draft_tasks l = do tasks ← get_tasks_items l; ok (length (filterb is_draft tasks))

unfoldable pub get_number_of_planned_tasks : (now : ℕ) → LessonTasks → Result ℕ
get_number_of_planned_tasks now l = do
  tasks ← get_tasks_items l
  ok (length (filterb (is_planned now) tasks))

unfoldable pub get_lesson_linked_tasks : LessonTasks → Result (List Task)
get_lesson_linked_tasks l = get_tasks_items l

counts_lem :
    (now : ℕ) (ts : List Task)
    → (length (filterb is_draft ts) + length (filterb (is_planned now) ts))
        + length (filterb (is_published now) ts)
      ≡ length ts
unfolding is_published is_planned
counts_lem now [] = omega arith
counts_lem now (t ∷ ts) = ground (arith, counts_lem now ts)

-- Where the tasks of a lesson are loaded, the counts of its drafts, planned and published tasks
-- add up to all its tasks.
pub task_counts :
    (now : ℕ) (l : LessonTasks)
    → l.initialized ≡ true
    → (drafts planned published : ℕ) × (get_number_of_draft_tasks l ≡ ok drafts)
      × (get_number_of_planned_tasks now l ≡ ok planned)
      × (get_number_of_published_tasks now l ≡ ok published)
      × ((drafts + planned) + published ≡ length l.items)
unfolding get_number_of_draft_tasks get_number_of_planned_tasks get_number_of_published_tasks
    get_tasks_items
task_counts now l h = (
  length (filterb is_draft l.items),
  length (filterb (is_planned now) l.items),
  length (filterb (is_published now) l.items),
  rw h refl,
  rw h refl,
  rw h refl,
  counts_lem now l.items,
)
