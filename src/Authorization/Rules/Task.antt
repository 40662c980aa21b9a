-- ===== src/Authorization/Rules/Task.antt =====
-- task.rule.ts
use schulcloud_server.Prelude.{
  [], ◌∷◌, Option, none, some, Bool, true, false, ◌&&◌, ◌||◌, Result, ok, ◌>>=◌, ◌≡◌, refl, ◌↔◌,
  ◌⊎◌, inl, inr, Decides, Decides-bool, Decides-iff, if◌then◌else◌, or_iff, and_iff,
}
use schulcloud_server.Domain.User.{User}
use schulcloud_server.Domain.Orm.{Orm}
use schulcloud_server.Domain.Course.{Course as CourseEntity}
use schulcloud_server.Domain.Lesson.{Lesson as LessonEntity}
use schulcloud_server.Domain.Task.{Task, is_draft}
use schulcloud_server.Authorization.Context.{Action, read, write, Context}
use schulcloud_server.Authorization.Utils.{user, has_all_permissions, has_access_to_entity}
use schulcloud_server.Authorization.Utils.Permissions.{IsLoaded, HasAll, has_all_permissions_lem}
use schulcloud_server.Authorization.Rules.Access.{has_access_to_entity_iff}
use schulcloud_server.Authorization.Rules.Course
use schulcloud_server.Authorization.Rules.Lesson

-- The branches of `parentPermission` on `entity.lesson` and `entity.course`.
parent_permission : Orm → User → Option LessonEntity → Option CourseEntity → Action → Result Bool
parent_permission orm u (some l) c a =
    Lesson.has_permission orm u l (record { action = a; required_permissions = [] })
parent_permission orm u none (some c) a =
    Course.has_permission orm u c (record { action = a; required_permissions = [] })
parent_permission orm u none none a = ok false

task_read_permission : Orm → User → Task → Result Bool
unfolding parent_permission
task_read_permission orm u t =
    if is_draft t
    then parent_permission orm u t.lesson t.course write
    else parent_permission orm u t.lesson t.course read

task_write_permission : Orm → User → Task → Result Bool
unfolding parent_permission
task_write_permission orm u t = parent_permission orm u t.lesson t.course write

task_permission : Orm → User → Task → Action → Result Bool
unfolding task_read_permission task_write_permission
task_permission orm u t read = task_read_permission orm u t
task_permission orm u t write = task_write_permission orm u t

unfoldable pub has_permission : Orm → User → Task → Context → Result Bool
unfolding task_permission
has_permission orm u t ctx = do
  has_all ← has_all_permissions u ctx.required_permissions
  let is_creator = has_access_to_entity orm u (user t.creator ∷ [])
  has_task_permission ← task_permission orm u t ctx.action
  ok (has_all && (is_creator || has_task_permission))

-- What the lesson of a task allows, else its course.
abbrev pub ParentAccess : User → Option LessonEntity → Option CourseEntity → Action → Type 0
ParentAccess u (some l) c a = Lesson.Access u l a
ParentAccess u none (some c) a = Course.Access u c a
ParentAccess u none none a = ⊥

-- A draft is read by those who may write it.
abbrev pub Access : User → Task → Action → Type 0
Access u t a =
    (t.creator.ref ≡ u.ref) ⊎ ParentAccess u t.lesson t.course (Lesson.needed (is_draft t) a)

parent_permission_lem :
    (orm : Orm) (u : User) (l : Option LessonEntity) (c : Option CourseEntity) (a : Action)
    → IsLoaded u
    → Decides (parent_permission orm u l c a) (ParentAccess u l c a)
unfolding parent_permission
parent_permission_lem orm u (some l) c a h =
    Decides-iff ((λ d. d.1), (λ d. (tt, d))) (Lesson.has_lesson_permission_lem orm u l _ h)
parent_permission_lem orm u none (some c) a h =
    Decides-iff ((λ d. d.1), (λ d. (tt, d))) (Course.has_course_permission_lem orm u c _ h)
parent_permission_lem orm u none none a h = Decides-bool false ((λ e. (cc)), (λ e. absurd e))

task_permission_lem :
    (orm : Orm) (u : User) (t : Task) (a : Action)
    → IsLoaded u
    → Decides
        (task_permission orm u t a)
        (ParentAccess u t.lesson t.course (Lesson.needed (is_draft t) a))
unfolding task_permission task_read_permission task_write_permission
task_permission_lem orm u t a h = by_draft (is_draft t) refl a
  where
    by_draft :
        (b : Bool)
        → is_draft t ≡ b
        → (a : Action)
        → Decides
            (task_permission orm u t a)
            (ParentAccess u t.lesson t.course (Lesson.needed (is_draft t) a))
    by_draft true e read = rw e (parent_permission_lem orm u t.lesson t.course write h)
    by_draft false e read = rw e (parent_permission_lem orm u t.lesson t.course read h)
    by_draft true e write = rw e (parent_permission_lem orm u t.lesson t.course write h)
    by_draft false e write = rw e (parent_permission_lem orm u t.lesson t.course write h)

creator_iff :
    (orm : Orm) (u : User) (t : Task)
    → (has_access_to_entity orm u (user t.creator ∷ []) ≡ true) ↔ (t.creator.ref ≡ u.ref)
creator_iff orm u t =
    let (to, from) = has_access_to_entity_iff orm u (user t.creator ∷ []) in
    (λ h. elim (to h) [ inl e ↦ e | inr b ↦ absurd b ], λ e. from (inl e))

-- For a user whose roles are loaded the task rule always answers, and grants the action exactly
-- if the user has all required permissions and is the creator or has the access that the lesson,
-- else the course, of the task gives, a draft being read like it is written.
pub has_task_permission_lem :
    (orm : Orm) (u : User) (t : Task) (ctx : Context)
    → IsLoaded u
    → Decides
        (has_permission orm u t ctx)
        (HasAll u ctx.required_permissions × Access u t ctx.action)
unfolding has_permission
has_task_permission_lem orm u t ctx h =
    let (a, ra, ha) = has_all_permissions_lem u ctx.required_permissions h in
    let (b, rb, hb) = task_permission_lem orm u t ctx.action h in
    let creator = has_access_to_entity orm u (user t.creator ∷ []) in
    (
      a && (creator || b),
      rw (ra, rb) refl,
      and_iff a (creator || b) ha (or_iff creator b (creator_iff orm u t) hb),
    )
