-- ===== src/Domain/TaskCard.antt =====
-- task-card.entity.ts, without the card elements.
use schulcloud_server.Prelude.{ℕ, Bool, true, ◌||◌, Option, ltb}
use schulcloud_server.Domain.User.{User}
use schulcloud_server.Domain.Course.{Course}
use schulcloud_server.Domain.Task.{Task, truthy}

pub record TaskCardProps : Type 0 where
  pub draggable : Option Bool
  pub creator : User
  pub task : Task
  pub visible_at_date : ℕ
  pub due_date : ℕ
  pub course : Option Course

pub record TaskCard : Type 0 where
  pub draggable : Bool
  pub creator : User
  pub task : Task
  pub visible_at_date : ℕ
  pub due_date : ℕ
  pub course : Option Course

-- The constructor.
unfoldable pub new_task_card : TaskCardProps → TaskCard
new_task_card props = record {
  draggable = truthy props.draggable || true;
  creator = props.creator;
  task = props.task;
  visible_at_date = props.visible_at_date;
  due_date = props.due_date;
  course = props.course;
}

unfoldable pub is_visible_before_due_date : TaskCard → Bool
is_visible_before_due_date c = ltb c.visible_at_date c.due_date
