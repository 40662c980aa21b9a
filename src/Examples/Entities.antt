-- ===== src/Examples/Entities.antt =====
-- A school with a teacher, a student and an outsider, and a course with its lessons and tasks.
use schulcloud_server.Prelude.{
  true, false, [], ◌∷◌, none, some, Result, ok, throw, not_found, eqb, if◌then◌else◌,
}
use schulcloud_server.Domain.Role.{Role, role, nil, cons}
use schulcloud_server.Domain.User.{School, User, EntityId}
use schulcloud_server.Domain.Course.{Course}
use schulcloud_server.Domain.CourseGroup.{CourseGroup}
use schulcloud_server.Domain.Lesson.{Lesson}
use schulcloud_server.Domain.Submission.{Submission}
use schulcloud_server.Domain.Task.{Task}
use schulcloud_server.Domain.TaskCard.{TaskCard}
use schulcloud_server.Domain.Team.{Team}
use schulcloud_server.Authorization.Manager.{Entity, a_task}
use schulcloud_server.Authorization.Service.{Repos}

abbrev pub school : School
school = record { ref = 1; id = 101 }

-- The role of a user inherits its permission from the role `user`.
abbrev pub teacher_role : Role
teacher_role =
    role "teacher" ("HOMEWORK_EDIT" ∷ []) true
      (cons (role "user" ("HOMEWORK_VIEW" ∷ []) true nil) nil)

abbrev pub student_role : Role
student_role = role "student" ("HOMEWORK_VIEW" ∷ []) true nil

abbrev pub teacher : User
teacher = record {
  ref = 2;
  id = 102;
  school = school;
  roles_initialized = true;
  roles = cons teacher_role nil;
}

abbrev pub student : User
student = record {
  ref = 3;
  id = 103;
  school = school;
  roles_initialized = true;
  roles = cons student_role nil;
}

abbrev pub newcomer : User
newcomer = record { ref = 4; id = 104; school = school; roles_initialized = false; roles = nil }

abbrev pub biology : Course
biology = record {
  id = 201;
  name = "Biology";
  description = "";
  school = school;
  students = some (student ∷ []);
  teachers = teacher ∷ [];
  substitution_teachers = [];
  color = "#ACACAC";
  start_date = none;
  until_date = some 5000;
  copying_since = none;
}

abbrev pub birds : CourseGroup
birds = record {
  id = 301;
  name = "Birds";
  students = some (student ∷ []);
  course = biology;
  school = school;
}

abbrev pub hidden_lesson : Lesson
hidden_lesson = record {
  id = 401;
  name = "Cells";
  hidden = true;
  course = some biology;
  course_group = none;
  position = 1;
}

abbrev pub draft : Task
draft = record {
  id = 501;
  name = "Draft";
  description = "";
  available_date = none;
  due_date = none;
  private = some true;
  public_submissions = none;
  team_submissions = none;
  creator = teacher;
  course = some biology;
  school = school;
  lesson = none;
  submissions = none;
  finished = some (student ∷ []);
}

abbrev pub unsubmitted : Submission
unsubmitted = record {
  id = 601;
  school = school;
  student = student;
  course_group = none;
  team_members = some (student ∷ []);
  comment = none;
  submitted = false;
  graded = false;
  grade = none;
  grade_comment = none;
}

abbrev pub graded_submission : Submission
graded_submission = record unsubmitted {
  id = 602;
  submitted = true;
  graded = true;
  course_group = some birds;
}

-- The task once it is announced for the time 300, with two submissions.
abbrev pub planned : Task
planned = record draft {
  private = some false;
  available_date = some 300;
  submissions = some (record { initialized = true; items = unsubmitted ∷ graded_submission ∷ [] });
}

abbrev pub card : TaskCard
card = record {
  draggable = true;
  creator = teacher;
  task = planned;
  visible_at_date = 300;
  due_date = 400;
  course = some biology;
}

abbrev pub team : Team
team = record {
  name = "Choir";
  team_users = record { user = student; role = student_role; school = school } ∷ [];
}

-- A database that holds the teacher and the draft.
abbrev pub find_user : EntityId → Result User
find_user i = if eqb i 102 then ok teacher else throw (not_found "User")

abbrev pub find_task : EntityId → Result Entity
find_task i = if eqb i 501 then ok (a_task draft) else throw (not_found "Entity")

abbrev pub repos : Repos
repos = record {
  find_by_id = λ repo i populate. find_task i;
  find_user = λ i populate. find_user i;
}
