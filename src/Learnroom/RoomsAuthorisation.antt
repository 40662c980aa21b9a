-- ===== src/Learnroom/RoomsAuthorisation.antt =====
-- rooms.authorisation.service.ts. Reading a missing collection or a missing course throws JavaScript's
-- TypeError.
use schulcloud_server.Prelude.{
  ℕ, Bool, false, not, ◌||◌, Option, none, some, List, Result, ok, throw, error, not_implemented,
  ◌>>=◌, ◌==◌, nat_eq, if◌then◌else◌,
}
use schulcloud_server.Domain.User.{User}
use schulcloud_server.Domain.Orm.{Orm}
use schulcloud_server.Domain.Course.{Course}
use schulcloud_server.Domain.Lesson.{Lesson}
use schulcloud_server.Domain.Task.{Task, is_published}

abbrev pub is_student : Orm → User → Option (List User) → Result Bool
is_student orm u none = throw (error "TypeError")
is_student orm u (some students) = ok (orm.contains students u)

unfoldable pub has_course_write_permission : Orm → User → Course → Bool
has_course_write_permission orm u c =
    orm.contains c.substitution_teachers u || orm.contains c.teachers u

unfoldable pub has_course_read_permission : Orm → User → Course → Result Bool
has_course_read_permission orm u c = is_student orm u c.students >>= λ student.
    ok (student || (orm.contains c.substitution_teachers u || orm.contains c.teachers u))

-- What the course gives, which is asked to be written where `restricted`.
abbrev pub course_permission : Orm → User → Option Course → (restricted : Bool) → Result Bool
course_permission orm u none restricted = ok false
course_permission orm u (some c) restricted = has_course_read_permission orm u c >>= λ reads.
    ok (if restricted then has_course_write_permission orm u c else reads)

abbrev pub unless_in_lesson : Option Lesson → Result Bool → Result Bool
unless_in_lesson none r = r
unless_in_lesson (some _) r = throw not_implemented

unfoldable pub has_task_read_permission : (now : ℕ) → Orm → User → Task → Result Bool
has_task_read_permission now orm u t = unless_in_lesson t.lesson (
    course_permission orm u t.course (not (is_published now t)) >>= λ has_course_permission.
    ok (t.creator.ref == u.ref || has_course_permission))

abbrev pub or_type_error : Option Course → (Course → Result Bool) → Result Bool
or_type_error none f = throw (error "TypeError")
or_type_error (some c) f = f c

unfoldable pub has_lesson_read_permission : Orm → User → Lesson → Result Bool
has_lesson_read_permission orm u l =
    or_type_error l.course (λ c. course_permission orm u (some c) l.hidden)
