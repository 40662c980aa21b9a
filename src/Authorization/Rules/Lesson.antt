-- ===== src/Authorization/Rules/Lesson.antt =====
-- lesson.rule.ts
use schulcloud_server.Prelude.{
  [], Option, none, some, Bool, true, false, not, ◌&&◌, Result, ok, ◌>>=◌, ◌≡◌, refl, Decides,
  Decides-bool, Decides-and_flip, Decides-iff, if◌then◌else◌,
}
use schulcloud_server.Domain.User.{User}
use schulcloud_server.Domain.Orm.{Orm}
use schulcloud_server.Domain.Course.{Course as CourseEntity}
use schulcloud_server.Domain.CourseGroup.{CourseGroup as CourseGroupEntity}
use schulcloud_server.Domain.Lesson.{Lesson}
use schulcloud_server.Authorization.Context.{Action, read, write, Context}
use schulcloud_server.Authorization.Utils.{has_all_permissions}
use schulcloud_server.Authorization.Utils.Permissions.{IsLoaded, HasAll, has_all_permissions_lem}
use schulcloud_server.Authorization.Rules.Course
use schulcloud_server.Authorization.Rules.CourseGroup

-- The branches of `parentPermission` on `entity.courseGroup` and `entity.course`.
parent_permission :
    Orm → User → Option CourseGroupEntity → Option CourseEntity → Action → Result Bool
parent_permission orm u (some g) c a =
    CourseGroup.has_permission orm u g (record { action = a; required_permissions = [] })
parent_permission orm u none (some c) a =
    Course.has_permission orm u c (record { action = a; required_permissions = [] })
parent_permission orm u none none a = ok false

lesson_write_permission : Orm → User → Lesson → Result Bool
unfolding parent_permission
lesson_write_permission orm u l = parent_permission orm u l.course_group l.course write

lesson_read_permission : Orm → User → Lesson → Result Bool
unfolding parent_permission
lesson_read_permission orm u l =
    if not l.hidden
    then parent_permission orm u l.course_group l.course read
    else parent_permission orm u l.course_group l.course write

lesson_permission : Orm → User → Lesson → Action → Result Bool
unfolding lesson_read_permission lesson_write_permission
lesson_permission orm u l read = lesson_read_permission orm u l
lesson_permission orm u l write = lesson_write_permission orm u l

unfoldable pub has_permission : Orm → User → Lesson → Context → Result Bool
unfolding lesson_permission
has_permission orm u l ctx = do
  has_lesson_permission ← lesson_permission orm u l ctx.action
  has_user_permission ← has_all_permissions u ctx.required_permissions
  ok (has_user_permission && has_lesson_permission)

-- What the course group of a lesson allows, else its course.
abbrev pub ParentAccess : User → Option CourseGroupEntity → Option CourseEntity → Action → Type 0
ParentAccess u (some g) c a = CourseGroup.Access u g
ParentAccess u none (some c) a = Course.Access u c a
ParentAccess u none none a = ⊥

-- A hidden lesson is read by those who may write it.
abbrev pub needed : (hidden : Bool) → Action → Action
needed true a = write
needed false a = a

abbrev pub Access : User → Lesson → Action → Type 0
Access u l a = ParentAccess u l.course_group l.course (needed l.hidden a)

parent_permission_lem :
    (orm : Orm) (u : User) (g : Option CourseGroupEntity) (c : Option CourseEntity) (a : Action)
    → IsLoaded u
    → Decides (parent_permission orm u g c a) (ParentAccess u g c a)
unfolding parent_permission
parent_permission_lem orm u (some g) c a h =
    Decides-iff ((λ d. d.1), (λ d. (tt, d)))
      (CourseGroup.has_course_group_permission_lem orm u g _ h)
parent_permission_lem orm u none (some c) a h =
    Decides-iff ((λ d. d.1), (λ d. (tt, d))) (Course.has_course_permission_lem orm u c _ h)
parent_permission_lem orm u none none a h = Decides-bool false ((λ e. (cc)), (λ e. absurd e))

lesson_permission_lem :
    (orm : Orm) (u : User) (l : Lesson) (a : Action)
    → IsLoaded u
    → Decides (lesson_permission orm u l a) (Access u l a)
unfolding lesson_permission lesson_read_permission lesson_write_permission
lesson_permission_lem orm u l a h = by_hidden l.hidden refl a
  where
    by_hidden :
        (b : Bool)
        → l.hidden ≡ b
        → (a : Action) → Decides (lesson_permission orm u l a) (Access u l a)
    by_hidden true e read = rw e (parent_permission_lem orm u l.course_group l.course write h)
    by_hidden false e read = rw e (parent_permission_lem orm u l.course_group l.course read h)
    by_hidden true e write = rw e (parent_permission_lem orm u l.course_group l.course write h)
    by_hidden false e write = rw e (parent_permission_lem orm u l.course_group l.course write h)

-- For a user whose roles are loaded the lesson rule always answers, and grants the action exactly
-- if the user has all required permissions and the access that the course group, else the course,
-- of the lesson gives, a hidden lesson being read like it is written.
pub has_lesson_permission_lem :
    (orm : Orm) (u : User) (l : Lesson) (ctx : Context)
    → IsLoaded u
    → Decides
        (has_permission orm u l ctx)
        (HasAll u ctx.required_permissions × Access u l ctx.action)
unfolding has_permission
has_lesson_permission_lem orm u l ctx h =
    Decides-and_flip (lesson_permission_lem orm u l ctx.action h)
      (has_all_permissions_lem u ctx.required_permissions h)
