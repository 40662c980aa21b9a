-- ===== src/Authorization/Rules/Submission.antt =====
-- submission.rule.ts. The task of the submission, `submission.task`, is an argument of its own.
use schulcloud_server.Prelude.{
  [], Bool, true, false, Result, ok, or_else, and_then, ◌≡◌, refl, ◌⊎◌, Decides, Decides-bool,
  Decides-and_then, Decides-or_else, Decides-iff, if◌then◌else◌,
}
use schulcloud_server.Domain.User.{User}
use schulcloud_server.Domain.Orm.{Orm}
use schulcloud_server.Domain.Submission.{Submission, is_user_submitter, is_submitted}
use schulcloud_server.Domain.Submission.Submitters.{IsSubmitter, HasTeam, is_user_submitter_lem}
use schulcloud_server.Domain.Task.{Task as TaskEntity, are_submissions_public}
use schulcloud_server.Authorization.Context.{Action, read, write, Context, reading, writing}
use schulcloud_server.Authorization.Utils.{has_all_permissions}
use schulcloud_server.Authorization.Utils.Permissions.{IsLoaded, HasAll, has_all_permissions_lem}
use schulcloud_server.Authorization.Rules.Task

has_parent_task_write_access : Orm → User → TaskEntity → Result Bool
has_parent_task_write_access orm u t = Task.has_permission orm u t (writing [])

has_parent_task_read_access : Orm → User → TaskEntity → Result Bool
has_parent_task_read_access orm u t = Task.has_permission orm u t (reading [])

has_write_access : Orm → User → Submission → TaskEntity → Result Bool
unfolding has_parent_task_write_access
has_write_access orm u s t = or_else (is_user_submitter s u) (has_parent_task_write_access orm u t)

has_read_access : Orm → User → Submission → TaskEntity → Result Bool
unfolding has_parent_task_read_access has_write_access
has_read_access orm u s t =
    if is_submitted s
    then or_else (has_write_access orm u s t)
        (and_then (has_parent_task_read_access orm u t) (ok (are_submissions_public t)))
    else is_user_submitter s u

has_access_to_submission : Orm → User → Submission → TaskEntity → Action → Result Bool
unfolding has_write_access has_read_access
has_access_to_submission orm u s t write = has_write_access orm u s t
has_access_to_submission orm u s t read = has_read_access orm u s t

unfoldable pub has_permission : Orm → User → Submission → TaskEntity → Context → Result Bool
unfolding has_access_to_submission
has_permission orm u s t ctx =
    and_then (has_all_permissions u ctx.required_permissions)
      (has_access_to_submission orm u s t ctx.action)

-- Who may write a submission: its submitters, and who may write its task.
abbrev pub WriteAccess : User → Submission → TaskEntity → Type 0
WriteAccess u s t = IsSubmitter u.id s ⊎ Task.Access u t write

-- Who may read it: before it is handed in its submitters; after that who may write it, and who may
-- read its task if the submissions are public.
abbrev pub ReadAccess : User → (submitted : Bool) → Submission → TaskEntity → Type 0
ReadAccess u false s t = IsSubmitter u.id s
ReadAccess u true s t =
    WriteAccess u s t ⊎ (Task.Access u t read × (are_submissions_public t ≡ true))

abbrev pub Access : User → Submission → TaskEntity → Action → Type 0
Access u s t write = WriteAccess u s t
Access u s t read = ReadAccess u (is_submitted s) s t

module _ (orm : Orm) (u : User) (s : Submission) (t : TaskEntity) (h : IsLoaded u)
    (team : HasTeam s) where
  task_lem :
      (a : Action)
      → Decides
          (Task.has_permission orm u t (record { action = a; required_permissions = [] }))
          (Task.Access u t a)
  task_lem a = Decides-iff ((λ d. d.1), (λ d. (tt, d))) (Task.has_task_permission_lem orm u t _ h)

  has_write_access_lem : Decides (has_write_access orm u s t) (WriteAccess u s t)
  unfolding has_write_access has_parent_task_write_access
  has_write_access_lem = Decides-or_else (is_user_submitter_lem s u team) (task_lem write)

  has_read_access_lem :
      (b : Bool) → is_submitted s ≡ b → Decides (has_read_access orm u s t) (ReadAccess u b s t)
  unfolding has_read_access has_parent_task_read_access
  has_read_access_lem false e = rw e (is_user_submitter_lem s u team)
  has_read_access_lem true e = rw e (
      Decides-or_else has_write_access_lem
        (Decides-and_then (task_lem read) (Decides-bool _ ((λ d. d), (λ d. d)))))

  has_access_to_submission_lem :
      (a : Action) → Decides (has_access_to_submission orm u s t a) (Access u s t a)
  unfolding has_access_to_submission
  has_access_to_submission_lem write = has_write_access_lem
  has_access_to_submission_lem read = has_read_access_lem (is_submitted s) refl

-- For a user whose roles are loaded and a submission whose team is loaded the submission rule
-- always answers, and grants the action exactly if the user has all required permissions and may
-- write (as submitter or through the task) or, to read, may do so by the state of the submission
-- and of the task.
pub has_submission_permission_lem :
    (orm : Orm) (u : User) (s : Submission) (t : TaskEntity) (ctx : Context)
    → IsLoaded u
    → HasTeam s
    → Decides
        (has_permission orm u s t ctx)
        (HasAll u ctx.required_permissions × Access u s t ctx.action)
unfolding has_permission
has_submission_permission_lem orm u s t ctx h team =
    Decides-and_then (has_all_permissions_lem u ctx.required_permissions h)
      (has_access_to_submission_lem orm u s t h team ctx.action)
