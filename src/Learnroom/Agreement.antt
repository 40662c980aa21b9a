-- ===== src/Learnroom/Agreement.antt =====
-- rooms.authorisation.service.ts beside task.rule.ts and lesson.rule.ts.
use schulcloud_server.Prelude.{
  ℕ, Bool, true, false, not, ◌||◌, none, some, List, [], ok, throw, Exception, ◌≡◌, ◌↔◌, ◌⊎◌, inl,
  inr, refl, sym, ap, ◌∙◌, arith, Decides-iff, Decides-eq, or_iff, eqb_iff, ◌==◌, nat_eq, some_inj,
  ok_inj, Option-cases,
}
use mathlib.Core.Path.{subst}
use schulcloud_server.Domain.User.{User}
use schulcloud_server.Domain.Orm.{Orm}
use schulcloud_server.Domain.Course.{Course}
use schulcloud_server.Domain.Lesson.{Lesson}
use schulcloud_server.Domain.Task.{Task, is_published, is_planned, is_draft}
use schulcloud_server.Authorization.Context.{Action, read, write, reading}
use schulcloud_server.Authorization.Utils.Permissions.{IsLoaded}
use schulcloud_server.Authorization.Rules.Access.{IsAmong}
use schulcloud_server.Authorization.Rules.Course as CourseRule
use schulcloud_server.Authorization.Rules.Lesson as LessonRule
use schulcloud_server.Authorization.Rules.Task as TaskRule
use schulcloud_server.Learnroom.RoomsAuthorisation.{
  has_course_read_permission, has_course_write_permission, course_permission,
  has_task_read_permission, has_lesson_read_permission,
}

-- What the course gives, its students being loaded.
abbrev course_value : Orm → User → Course → List User → (restricted : Bool) → Bool
course_value orm u c us true = orm.contains c.substitution_teachers u || orm.contains c.teachers u
course_value orm u c us false =
    orm.contains us u || (orm.contains c.substitution_teachers u || orm.contains c.teachers u)

course_permission-value :
    (orm : Orm) (u : User) (c : Course) (us : List User) (restricted : Bool)
    → c.students ≡ some us
    → course_permission orm u (some c) restricted ≡ ok (course_value orm u c us restricted)
unfolding has_course_read_permission has_course_write_permission
course_permission-value orm u c us true loaded = rw loaded refl
course_permission-value orm u c us false loaded = rw loaded refl

-- A substitution teacher or a teacher.
abbrev Staff : User → Course → Type 0
Staff u c = IsAmong u c.substitution_teachers ⊎ IsAmong u c.teachers

Staff-iff :
    (orm : Orm) (u : User) (c : Course)
    → ((orm.contains c.substitution_teachers u || orm.contains c.teachers u) ≡ true) ↔ Staff u c
Staff-iff orm u c =
    or_iff _ _ (orm.contains_iff c.substitution_teachers u) (orm.contains_iff c.teachers u)

of_Staff : (u : User) (c : Course) (a : Action) → Staff u c → CourseRule.Access u c a
of_Staff u c a (inl s) = CourseRule.as_substitute s
of_Staff u c a (inr t) = CourseRule.as_teacher t

writers : (u : User) (c : Course) → CourseRule.Access u c write → Staff u c
writers u c (CourseRule.as_teacher t) = inr t
writers u c (CourseRule.as_substitute s) = inl s
writers u c (CourseRule.as_student us e loaded m) = cc

readers :
    (u : User) (c : Course) (us : List User)
    → c.students ≡ some us
    → CourseRule.Access u c read
    → IsAmong u us ⊎ Staff u c
readers u c us loaded (CourseRule.as_teacher t) = inr (inr t)
readers u c us loaded (CourseRule.as_substitute s) = inr (inl s)
readers u c us loaded (CourseRule.as_student vs e also m) =
    inl (subst (λ l. IsAmong u l) (some_inj (sym also ∙ loaded)) m)

-- The room's answer is what the course rule asks for.
value_iff :
    (orm : Orm) (u : User) (c : Course) (us : List User) (restricted : Bool)
    → c.students ≡ some us
    → (course_value orm u c us restricted ≡ true)
      ↔ CourseRule.Access u c (LessonRule.needed restricted read)
value_iff orm u c us true loaded =
    let (to, from) = Staff-iff orm u c in
    (λ h. of_Staff u c write (to h), λ a. from (writers u c a))
value_iff orm u c us false loaded =
    let (to, from) = or_iff _ _ (orm.contains_iff us u) (Staff-iff orm u c) in
    (
      λ h. elim (to h) [
        | inl m ↦ CourseRule.as_student us refl loaded m
        | inr staff ↦ of_Staff u c read staff
      ],
      λ a. from (readers u c us loaded a),
    )

-- The task rule on a task of a course, and on one of no course.
task_rule-value :
    (orm : Orm) (u : User) (t : Task) (c : Course) (us : List User)
    → IsLoaded u
    → t.lesson ≡ none
    → t.course ≡ some c
    → c.students ≡ some us
    → TaskRule.has_permission orm u t (reading [])
      ≡ ok (t.creator.ref == u.ref || course_value orm u c us (is_draft t))
unfolding is_draft
task_rule-value orm u t c us loaded no_lesson in_course students =
    Decides-eq (t.creator.ref == u.ref || course_value orm u c us (is_draft t))
      (Decides-iff access (TaskRule.has_task_permission_lem orm u t (reading []) loaded))
  where
    both :
        ((t.creator.ref == u.ref || course_value orm u c us (is_draft t)) ≡ true)
        ↔ ((t.creator.ref ≡ u.ref) ⊎ CourseRule.Access u c (LessonRule.needed (is_draft t) read))
    both = or_iff _ _ (eqb_iff t.creator.ref u.ref) (value_iff orm u c us (is_draft t) students)

    access :
        (Unit {0} × TaskRule.Access u t read)
        ↔ ((t.creator.ref == u.ref || course_value orm u c us (is_draft t)) ≡ true)
    access = rw (no_lesson, in_course) (λ (_, a). both.1 a, λ h. (tt, both.0 h))

task_rule-creator :
    (orm : Orm) (u : User) (t : Task)
    → IsLoaded u
    → t.lesson ≡ none
    → t.course ≡ none
    → TaskRule.has_permission orm u t (reading []) ≡ ok (t.creator.ref == u.ref)
task_rule-creator orm u t loaded no_lesson no_course =
    Decides-eq (t.creator.ref == u.ref)
      (Decides-iff access (TaskRule.has_task_permission_lem orm u t (reading []) loaded))
  where
    access : (Unit {0} × TaskRule.Access u t read) ↔ ((t.creator.ref == u.ref) ≡ true)
    access =
        rw (no_lesson, no_course)
          (
            λ (_, a). elim a [
              | inl e ↦ (eqb_iff t.creator.ref u.ref).1 e
              | inr none_such ↦ absurd none_such
            ],
            λ h. (tt, inl ((eqb_iff t.creator.ref u.ref).0 h)),
          )

room-value :
    (now : ℕ) (orm : Orm) (u : User) (t : Task) (c : Course) (us : List User)
    → t.lesson ≡ none
    → t.course ≡ some c
    → c.students ≡ some us
    → has_task_read_permission now orm u t
      ≡ ok (t.creator.ref == u.ref || course_value orm u c us (not (is_published now t)))
unfolding has_task_read_permission has_course_read_permission is_published
room-value now orm u t c us no_lesson in_course students =
    rw
      (no_lesson, in_course, course_permission-value orm u c us (not (is_published now t)) students)
      refl

unpublished :
    (now : ℕ) (t : Task) → is_planned now t ≡ false → not (is_published now t) ≡ is_draft t
unfolding is_planned is_published
unpublished now t h = ground (arith, h)

-- For a user whose roles are loaded, and a task of a course whose students are loaded that stands
-- in no lesson and is not planned for later, the check of the rooms answers what the task rule
-- answers for reading without required permissions.
pub has_task_read_permission-agrees :
    (now : ℕ) (orm : Orm) (u : User) (t : Task) (c : Course) (us : List User)
    → IsLoaded u
    → t.lesson ≡ none
    → t.course ≡ some c
    → c.students ≡ some us
    → is_planned now t ≡ false
    → has_task_read_permission now orm u t ≡ TaskRule.has_permission orm u t (reading [])
has_task_read_permission-agrees now orm u t c us loaded no_lesson in_course students not_planned =
    room-value now orm u t c us no_lesson in_course students
    ∙ ap (λ b. ok (t.creator.ref == u.ref || course_value orm u c us b))
        (unpublished now t not_planned)
    ∙ sym (task_rule-value orm u t c us loaded no_lesson in_course students)

lesson_room-value :
    (orm : Orm) (u : User) (l : Lesson) (c : Course) (us : List User)
    → l.course ≡ some c
    → c.students ≡ some us
    → has_lesson_read_permission orm u l ≡ ok (course_value orm u c us l.hidden)
unfolding has_lesson_read_permission
lesson_room-value orm u l c us in_course students =
    rw in_course (course_permission-value orm u c us l.hidden students)

-- For a user whose roles are loaded, and a lesson of a course whose students are loaded, the check of
-- the rooms answers what the lesson rule answers for reading without required permissions.
pub has_lesson_read_permission-agrees :
    (orm : Orm) (u : User) (l : Lesson) (c : Course) (us : List User)
    → IsLoaded u
    → l.course_group ≡ none
    → l.course ≡ some c
    → c.students ≡ some us
    → has_lesson_read_permission orm u l ≡ LessonRule.has_permission orm u l (reading [])
has_lesson_read_permission-agrees orm u l c us loaded no_group in_course students =
    lesson_room-value orm u l c us in_course students
    ∙ sym (
        Decides-eq (course_value orm u c us l.hidden)
          (Decides-iff access (LessonRule.has_lesson_permission_lem orm u l (reading []) loaded)))
  where
    access : (Unit {0} × LessonRule.Access u l read) ↔ (course_value orm u c us l.hidden ≡ true)
    access =
        rw (no_group, in_course)
          (
            λ (_, a). (value_iff orm u c us l.hidden students).1 a,
            λ h. (tt, (value_iff orm u c us l.hidden students).0 h),
          )

-- What is shown of an unpublished task, or of a published one, the task rule allows.
value-weaken :
    (now : ℕ) (orm : Orm) (u : User) (t : Task) (c : Course) (us : List User) (creator : Bool)
    → (creator || course_value orm u c us (not (is_published now t))) ≡ true
    → (creator || course_value orm u c us (is_draft t)) ≡ true
unfolding is_published
value-weaken now orm u t c us creator h = ground (arith, h)

-- Whatever task a room shows to a user whose roles are loaded, the task rule lets the user read,
-- asked without required permissions.
pub has_task_read_permission_allowed :
    (now : ℕ) (orm : Orm) (u : User) (t : Task)
    → IsLoaded u
    → has_task_read_permission now orm u t ≡ ok true
    → TaskRule.has_permission orm u t (reading []) ≡ ok true
unfolding has_task_read_permission has_course_read_permission is_published
has_task_read_permission_allowed now orm u t loaded shown = elim (Option-cases t.lesson) [
  | inr (l, in_lesson) ↦ absurd (not_thrown (rw in_lesson at shown))
  | inl no_lesson ↦ elim (Option-cases t.course) [
    | inl no_course ↦
        task_rule-creator orm u t loaded no_lesson no_course
        ∙ ap ok (creator_only (rw (no_lesson, no_course) at shown))
    | inr (c, in_course) ↦ elim (Option-cases c.students) [
      | inl missing ↦ absurd (not_thrown (rw (no_lesson, in_course, missing) at shown))
      | inr (us, students) ↦
          task_rule-value orm u t c us loaded no_lesson in_course students
          ∙ ap ok (
              value-weaken now orm u t c us (t.creator.ref == u.ref)
                (ok_inj (sym (room-value now orm u t c us no_lesson in_course students) ∙ shown)))
    ]
  ]
]
  where
    not_thrown : {e : Exception} → ¬ (throw e ≡ ok true)
    not_thrown h = cc

    creator_only : ok (t.creator.ref == u.ref || false) ≡ ok true → (t.creator.ref == u.ref) ≡ true
    creator_only h = ground (arith, ok_inj h)
