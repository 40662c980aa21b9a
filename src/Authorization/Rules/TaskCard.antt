-- ===== src/Authorization/Rules/TaskCard.antt =====
-- task-card.rule.ts
use schulcloud_server.Prelude.{
  String, [], ◌∷◌, Bool, true, ◌&&◌, ◌||◌, Result, ok, ◌>>=◌, ◌≡◌, ◌↔◌, ◌⊎◌, inl, inr, Decides,
  or_iff, and_iff, refl,
}
use schulcloud_server.Domain.User.{User}
use schulcloud_server.Domain.Orm.{Orm}
use schulcloud_server.Domain.TaskCard.{TaskCard}
use schulcloud_server.Authorization.Context.{Action, read, write, Context}
use schulcloud_server.Authorization.Utils.{user, has_all_permissions, has_access_to_entity}
use schulcloud_server.Authorization.Utils.Permissions.{IsLoaded, HasAll, has_all_permissions_lem}
use schulcloud_server.Authorization.Rules.Access.{has_access_to_entity_iff}
use schulcloud_server.Authorization.Rules.Task

-- Permission.HOMEWORK_VIEW and Permission.HOMEWORK_EDIT, by the action.
abbrev pub homework_permission : Action → String
homework_permission read = "HOMEWORK_VIEW"
homework_permission write = "HOMEWORK_EDIT"

unfoldable pub task_permission : Orm → User → TaskCard → Action → Result Bool
task_permission orm u c a =
    Task.has_permission orm u c.task
      (record { action = a; required_permissions = homework_permission a ∷ [] })

unfoldable pub has_permission : Orm → User → TaskCard → Context → Result Bool
unfolding task_permission
has_permission orm u c ctx = do
  has_all ← has_all_permissions u ctx.required_permissions
  let is_creator = has_access_to_entity orm u (user c.creator ∷ [])
  has_task_permission ← task_permission orm u c ctx.action
  ok (has_all && (is_creator || has_task_permission))

-- The creator of the card, and who may do it with the task and holds the homework permission.
abbrev pub Access : User → TaskCard → Action → Type 0
Access u c a =
    (c.creator.ref ≡ u.ref) ⊎ (HasAll u (homework_permission a ∷ []) × Task.Access u c.task a)

-- For a user whose roles are loaded the task card rule always answers, and grants the action
-- exactly if the user has all required permissions and is the creator or has the homework
-- permission of the action and access to the task.
pub has_task_card_permission_lem :
    (orm : Orm) (u : User) (c : TaskCard) (ctx : Context)
    → IsLoaded u
    → Decides
        (has_permission orm u c ctx)
        (HasAll u ctx.required_permissions × Access u c ctx.action)
unfolding has_permission
has_task_card_permission_lem orm u c ctx h =
    let (a, ra, ha) = has_all_permissions_lem u ctx.required_permissions h in
    let needed = homework_permission ctx.action ∷ [] in
    let (b, rb, hb) =
      Task.has_task_permission_lem orm u c.task
        (record { action = ctx.action; required_permissions = needed }) h in
    let creator = has_access_to_entity orm u (user c.creator ∷ []) in
    let (to, from) = has_access_to_entity_iff orm u (user c.creator ∷ []) in
    let creator_iff : (creator ≡ true) ↔ (c.creator.ref ≡ u.ref) =
      (λ h. elim (to h) [ inl e ↦ e | inr b ↦ absurd b ], λ e. from (inl e)) in
    (
      a && (creator || b),
      rw (ra, rb) refl,
      and_iff a (creator || b) ha (or_iff creator b creator_iff hb),
    )
