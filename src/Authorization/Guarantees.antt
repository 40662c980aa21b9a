-- ===== src/Authorization/Guarantees.antt =====
-- The task, lesson and submission rules (task.rule.ts, lesson.rule.ts, submission.rule.ts).
use schulcloud_server.Prelude.{
  String, Bool, true, false, List, Option, none, some, ◌≡◌, refl, ◌⊎◌, inl, inr, ok, Decides-unique,
}
use schulcloud_server.Domain.User.{User}
use schulcloud_server.Domain.Orm.{Orm}
use schulcloud_server.Domain.Course.{Course as CourseEntity}
use schulcloud_server.Domain.CourseGroup.{CourseGroup as CourseGroupEntity}
use schulcloud_server.Domain.Lesson.{Lesson as LessonEntity}
use schulcloud_server.Domain.Submission.{Submission as SubmissionEntity, is_submitted}
use schulcloud_server.Domain.Submission.Submitters.{HasTeam, IsSubmitter}
use schulcloud_server.Domain.Task.{Task as TaskEntity, is_draft}
use schulcloud_server.Authorization.Context.{read, write, reading, writing}
use schulcloud_server.Authorization.Utils.Permissions.{IsLoaded}
use schulcloud_server.Authorization.Rules.Course
use schulcloud_server.Authorization.Rules.Lesson
use schulcloud_server.Authorization.Rules.Task
use schulcloud_server.Authorization.Rules.Submission

Course-read_of_write :
    {u : User} {c : CourseEntity} → Course.Access u c write → Course.Access u c read
Course-read_of_write (Course.as_teacher h) = Course.as_teacher h
Course-read_of_write (Course.as_substitute h) = Course.as_substitute h
Course-read_of_write (Course.as_student us e s h) = cc

Lesson-read_of_write :
    (u : User) (g : Option CourseGroupEntity) (c : Option CourseEntity) (hidden : Bool)
    → Lesson.ParentAccess u g c write
    → Lesson.ParentAccess u g c (Lesson.needed hidden read)
Lesson-read_of_write u g c true h = h
Lesson-read_of_write u (some g) c false h = h
Lesson-read_of_write u none (some c) false h = Course-read_of_write h
Lesson-read_of_write u none none false h = h

needed_write : (b : Bool) → Lesson.needed b write ≡ write
needed_write true = refl
needed_write false = refl

Task-read_of_write :
    (u : User) (l : Option LessonEntity) (c : Option CourseEntity) (draft : Bool)
    → Task.ParentAccess u l c write
    → Task.ParentAccess u l c (Lesson.needed draft read)
Task-read_of_write u l c true h = h
Task-read_of_write u (some l) c false h =
    Lesson-read_of_write u l.course_group l.course l.hidden (rw needed_write at h)
Task-read_of_write u none (some c) false h = Course-read_of_write h
Task-read_of_write u none none false h = h

module _ (orm : Orm) (u : User) (loaded : IsLoaded u) (required : List String) where
  -- A user whose roles are loaded and who may write a task may read it, with the same required
  -- permissions, drafts and tasks of hidden lessons included.
  pub task_read_of_write :
      (t : TaskEntity)
      → Task.has_permission orm u t (writing required) ≡ ok true
      → Task.has_permission orm u t (reading required) ≡ ok true
  task_read_of_write t h =
      let (all, access) =
        (Decides-unique (Task.has_task_permission_lem orm u t (writing required) loaded)).0 h in
      (Decides-unique (Task.has_task_permission_lem orm u t (reading required) loaded)).1 (
        all,
        elim access [
          | inl creator ↦ inl creator
          | inr parent ↦
              inr (Task-read_of_write u t.lesson t.course (is_draft t) (rw needed_write at parent))
        ],
      )

  -- A user whose roles are loaded and who may write a lesson may read it, with the same
  -- required permissions.
  pub lesson_read_of_write :
      (l : LessonEntity)
      → Lesson.has_permission orm u l (writing required) ≡ ok true
      → Lesson.has_permission orm u l (reading required) ≡ ok true
  lesson_read_of_write l h =
      let (all, access) =
        (Decides-unique (Lesson.has_lesson_permission_lem orm u l (writing required) loaded)).0 h in
      (Decides-unique (Lesson.has_lesson_permission_lem orm u l (reading required) loaded)).1
        (all, Lesson-read_of_write u l.course_group l.course l.hidden (rw needed_write at access))

  -- A user whose roles are loaded and who may read a draft that stands in a course without a
  -- lesson is its creator, or is a teacher or a substitution teacher of the course.
  pub draft_readers :
      (t : TaskEntity) (c : CourseEntity)
      → is_draft t ≡ true
      → t.lesson ≡ none
      → t.course ≡ some c
      → Task.has_permission orm u t (reading required) ≡ ok true
      → (t.creator.ref ≡ u.ref) ⊎ Course.Access u c write
  draft_readers t c draft no_lesson in_course h =
      let (_, access) =
        (Decides-unique (Task.has_task_permission_lem orm u t (reading required) loaded)).0 h in
      rw (draft, no_lesson, in_course) at access

  -- A user whose roles are loaded and who may read a hidden lesson that stands in a course
  -- without a course group is a teacher or a substitution teacher of the course.
  pub hidden_lesson_readers :
      (l : LessonEntity) (c : CourseEntity)
      → l.hidden ≡ true
      → l.course_group ≡ none
      → l.course ≡ some c
      → Lesson.has_permission orm u l (reading required) ≡ ok true
      → Course.Access u c write
  hidden_lesson_readers l c hidden no_group in_course h =
      let (_, access) =
        (Decides-unique (Lesson.has_lesson_permission_lem orm u l (reading required) loaded)).0 h in
      rw (hidden, no_group, in_course) at access

  -- A user whose roles are loaded and who may read a submission that is not handed in and whose
  -- team is loaded is one of its submitters.
  pub unsubmitted_readers :
      (s : SubmissionEntity) (t : TaskEntity)
      → HasTeam s
      → is_submitted s ≡ false
      → Submission.has_permission orm u s t (reading required) ≡ ok true
      → IsSubmitter u.id s
  unsubmitted_readers s t team pending h =
      let (_, access) =
        (Decides-unique
            (Submission.has_submission_permission_lem orm u s t (reading required) loaded team)).0
          h in
      rw pending at access
