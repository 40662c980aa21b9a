-- ===== src/Domain/Task.antt =====
-- task.entity.ts. The collections hold the task's submissions, and the users that archived it.
pub mod Status
pub mod Submitters
pub mod Overview
use schulcloud_server.Prelude.{
  ℕ, String, Bool, true, false, not, ◌||◌, List, Option, none, some, Result, ok, throw, error,
  internal_server_error, ◌>>=◌, nat_eq, ◌==◌, any, ltb, if◌then◌else◌,
}
use schulcloud_server.Domain.User.{EntityId, School, User, ids}
use schulcloud_server.Domain.Orm.{Orm}
use schulcloud_server.Domain.Course
use schulcloud_server.Domain.Course.{Course}
use schulcloud_server.Domain.Lesson
use schulcloud_server.Domain.Lesson.{Lesson}
use schulcloud_server.Domain.Submission.{Submission}

-- A collection as `isInitialized(true)` and `getItems()` show it.
pub record Submissions : Type 0 where
  pub initialized : Bool
  pub items : List Submission

pub record Task : Type 0 where
  pub id : EntityId
  pub name : String
  pub description : String
  pub available_date : Option ℕ
  pub due_date : Option ℕ
  pub private : Option Bool
  pub public_submissions : Option Bool
  pub team_submissions : Option Bool
  pub creator : User
  pub course : Option Course
  pub school : School
  pub lesson : Option Lesson
  pub submissions : Option Submissions
  pub finished : Option (List User)

-- `!!x` on a Boolean that may be missing
abbrev pub truthy : Option Bool → Bool
truthy none = false
truthy (some b) = b

unfoldable pub get_submission_items : Task → Result (List Submission)
get_submission_items t = elim t.submissions [
  | none ↦ throw (internal_server_error "Submissions items are not loaded.")
  | some s ↦
      if s.initialized
      then ok s.items
      else throw (internal_server_error "Submissions items are not loaded.")
]

unfoldable pub get_finished_user_ids : Task → Result (List EntityId)
get_finished_user_ids t = elim t.finished [
  | none ↦
      throw (internal_server_error "Task.finished is undefined. The task need to be populated.")
  | some us ↦ ok (ids us)
]

abbrev pub is_finished_course : (now : ℕ) → Option Course → Bool
is_finished_course now none = false
is_finished_course now (some c) = Course.is_finished now c

unfoldable pub is_finished_for_user : (now : ℕ) → Task → User → Result Bool
is_finished_for_user now t u = do
  finished_user_ids ← get_finished_user_ids t
  let is_user_in_finished_user = any (λ i. i == u.id) finished_user_ids
  let is_course_finished = is_finished_course now t.course
  ok (is_user_in_finished_user || is_course_finished)

unfoldable pub is_draft : Task → Bool
is_draft t = truthy t.private

-- `this.availableDate && this.availableDate > new Date()`
abbrev pub is_later : Option ℕ → (now : ℕ) → Bool
is_later none now = false
is_later (some date) now = ltb now date

unfoldable pub is_published : (now : ℕ) → Task → Bool
unfolding is_draft
is_published now t =
    if is_draft t then false else if is_later t.available_date now then false else true

unfoldable pub is_planned : (now : ℕ) → Task → Bool
unfolding is_draft
is_planned now t =
    if is_draft t then false else if is_later t.available_date now then true else false

unfoldable pub are_submissions_public : Task → Bool
are_submissions_public t = truthy t.public_submissions

-- On a missing collection the call of `add` or `remove` is itself an error.
unfoldable pub finish_for_user : Orm → Task → User → Result Task
finish_for_user orm t u = elim t.finished [
  | none ↦ throw (error "TypeError")
  | some us ↦ ok (record t { finished = some (orm.add us u) })
]

unfoldable pub restore_for_user : Orm → Task → User → Result Task
restore_for_user orm t u = elim t.finished [
  | none ↦ throw (error "TypeError")
  | some us ↦ ok (record t { finished = some (orm.remove us u) })
]

unfoldable pub publish : (now : ℕ) → Task → Task
publish now t = record t { private = some false; available_date = some now }

unfoldable pub unpublish : Task → Task
unpublish t = record t { private = some true }

unfoldable pub get_school_id : Task → EntityId
get_school_id t = t.school.id
