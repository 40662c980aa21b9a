-- ===== src/Authorization/Rules/User.antt =====
-- user.rule.ts
use schulcloud_server.Prelude.{
  Bool, ◌||◌, Result, ok, ◌>>=◌, ◌≡◌, ◌⊎◌, Decides, Decides-bool, Decides-or, eqb_iff,
}
use schulcloud_server.Domain.User.{User, same_user}
use schulcloud_server.Authorization.Context.{Context}
use schulcloud_server.Authorization.Utils.{has_all_permissions}
use schulcloud_server.Authorization.Utils.Permissions.{IsLoaded, HasAll, has_all_permissions_lem}

unfoldable pub has_permission : User → User → Context → Result Bool
has_permission u entity ctx = do
  has ← has_all_permissions u ctx.required_permissions
  let is_owner = same_user u entity
  ok (has || is_owner)

-- The rule decides who is the user or has the required permissions.
pub has_user_permission_lem :
    (u entity : User) (ctx : Context)
    → IsLoaded u
    → Decides
        (has_permission u entity ctx)
        (HasAll u ctx.required_permissions ⊎ (u.ref ≡ entity.ref))
unfolding has_permission
has_user_permission_lem u entity ctx h =
    Decides-or (has_all_permissions_lem u ctx.required_permissions h)
      (Decides-bool (same_user u entity) (eqb_iff u.ref entity.ref))
