-- ===== src/Authorization/Manager.antt =====
-- base-permission-manager.ts and select-strategies.ts, over the rule objects of the program.
use schulcloud_server.Prelude.{
  Bool, true, false, List, [], ◌∷◌, Result, ok, throw, not_implemented, internal_server_error,
  ◌>>=◌, filterb,
}
use schulcloud_server.Domain.User.{User as UserEntity}
use schulcloud_server.Domain.Orm.{Orm}
use schulcloud_server.Domain.Course.{Course as CourseEntity}
use schulcloud_server.Domain.CourseGroup.{CourseGroup as CourseGroupEntity}
use schulcloud_server.Domain.Lesson.{Lesson as LessonEntity, type_error}
use schulcloud_server.Domain.Submission.{Submission as SubmissionEntity}
use schulcloud_server.Domain.Task.{Task as TaskEntity}
use schulcloud_server.Domain.TaskCard.{TaskCard as TaskCardEntity}
use schulcloud_server.Domain.Team.{Team as TeamEntity}
use schulcloud_server.Authorization.Context.{Context}
use schulcloud_server.Authorization.Rules.Course
use schulcloud_server.Authorization.Rules.CourseGroup
use schulcloud_server.Authorization.Rules.Lesson
use schulcloud_server.Authorization.Rules.Task
use schulcloud_server.Authorization.Rules.TaskCard
use schulcloud_server.Authorization.Rules.Submission
use schulcloud_server.Authorization.Rules.School
use schulcloud_server.Authorization.Rules.School.{SchoolOrDo, SchoolExternalTool}
use schulcloud_server.Authorization.Rules.Team
use schulcloud_server.Authorization.Rules.User

-- What a permission is asked for, by its class; `other` is any class that no rule knows. A
-- submission comes with its task.
pub data Entity : Type 0 where
  a_course : CourseEntity → Entity
  a_course_group : CourseGroupEntity → Entity
  a_lesson : LessonEntity → Entity
  a_task : TaskEntity → Entity
  a_task_card : TaskCardEntity → Entity
  a_team : TeamEntity → Entity
  a_user : UserEntity → Entity
  a_school : SchoolOrDo → Entity
  a_submission : SubmissionEntity → TaskEntity → Entity
  a_school_external_tool : SchoolExternalTool → Entity
  other : Entity

-- The rule objects.
pub data Rule : Type 0 where
  course_rule course_group_rule lesson_rule task_rule task_card_rule : Rule
  team_rule user_rule school_rule submission_rule school_external_tool_rule : Rule

-- `rule.isApplicable(user, entity)`: the `instanceof` test of each rule.
unfoldable pub is_applicable : Rule → Entity → Bool
is_applicable course_rule (a_course _) = true
is_applicable course_group_rule (a_course_group _) = true
is_applicable lesson_rule (a_lesson _) = true
is_applicable task_rule (a_task _) = true
is_applicable task_card_rule (a_task_card _) = true
is_applicable team_rule (a_team _) = true
is_applicable user_rule (a_user _) = true
is_applicable school_rule (a_school _) = true
is_applicable submission_rule (a_submission _ _) = true
is_applicable school_external_tool_rule (a_school_external_tool _) = true
is_applicable _ _ = false

-- `rule.hasPermission(user, entity, context)`. On an entity of another class a rule reads
-- properties that are not there; the manager never asks that.
unfoldable pub rule_has_permission : Orm → Rule → UserEntity → Entity → Context → Result Bool
rule_has_permission orm course_rule u (a_course c) ctx = Course.has_permission orm u c ctx
rule_has_permission orm course_group_rule u (a_course_group g) ctx =
    CourseGroup.has_permission orm u g ctx
rule_has_permission orm lesson_rule u (a_lesson l) ctx = Lesson.has_permission orm u l ctx
rule_has_permission orm task_rule u (a_task t) ctx = Task.has_permission orm u t ctx
rule_has_permission orm task_card_rule u (a_task_card c) ctx = TaskCard.has_permission orm u c ctx
rule_has_permission orm team_rule u (a_team t) ctx = Team.has_permission u t ctx
rule_has_permission orm user_rule u (a_user v) ctx = User.has_permission u v ctx
rule_has_permission orm school_rule u (a_school s) ctx = School.has_permission u s ctx
rule_has_permission orm submission_rule u (a_submission s t) ctx =
    Submission.has_permission orm u s t ctx
rule_has_permission orm school_external_tool_rule u (a_school_external_tool t) ctx =
    School.has_tool_permission u t ctx
rule_has_permission orm _ u _ ctx = type_error

-- SingleSelectStrategie.match
unfoldable pub match {ℓ} : {A : Type ℓ} → List A → Result A
match [] = throw not_implemented
match (layer ∷ []) = ok layer
match (_ ∷ _ ∷ _) = throw (internal_server_error "MULTIPLE_MATCHES_ARE_NOT_ALLOWED")

unfoldable pub select_permissions : List Rule → Entity → List Rule
select_permissions permissions entity = filterb (λ r. is_applicable r entity) permissions

unfoldable pub has_permission :
    Orm → (permissions : List Rule) → UserEntity → Entity → Context → Result Bool
has_permission orm permissions u entity ctx = do
  permission ← match (select_permissions permissions entity)
  rule_has_permission orm permission u entity ctx
