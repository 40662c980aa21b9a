-- ===== src/Authorization/Rules/Team.antt =====
-- team.rule.ts
use schulcloud_server.Prelude.{
  List, Bool, true, false, Option, none, some, Result, ok, ◌≡◌, refl, Decides, Decides-bool, nat_eq,
  ◌==◌, find?, All, String,
}
use schulcloud_server.Domain.User.{User}
use schulcloud_server.Domain.Role.{cons, nil, Grants, all_loaded}
use schulcloud_server.Domain.Team.{Team, TeamUser}
use schulcloud_server.Authorization.Context.{Context}
use schulcloud_server.Authorization.Utils.{has_all_permissions_by_role}
use schulcloud_server.Authorization.Utils.Checks.{has_all_permissions_by_role_lem}

unfoldable pub find_team_user : User → Team → Option TeamUser
find_team_user u t = find? (λ member. member.user.id == u.id) t.team_users

unfoldable pub has_permission : User → Team → Context → Result Bool
unfolding find_team_user
has_permission u t ctx = elim (find_team_user u t) [
  | none ↦ ok false
  | some member ↦ has_all_permissions_by_role member.role ctx.required_permissions
]

-- The member's role in the team grants the permissions; the roles that the user has elsewhere
-- count for nothing.
abbrev pub Access : Option TeamUser → List String → Type 0
Access none required = ⊥
Access (some member) required = All (λ p. Grants p (cons member.role nil)) required

abbrev pub IsLoadedMember : Option TeamUser → Type 0
IsLoadedMember none = Unit
IsLoadedMember (some member) = all_loaded (cons member.role nil) ≡ true

-- Where the role of the user in the team, if there is one, is loaded, the team rule always
-- answers, and grants an action exactly if the user is a member whose role in the team grants all
-- required permissions.
pub has_team_permission_lem :
    (u : User) (t : Team) (ctx : Context)
    → IsLoadedMember (find_team_user u t)
    → Decides (has_permission u t ctx) (Access (find_team_user u t) ctx.required_permissions)
unfolding has_permission
has_team_permission_lem u t ctx h = by_member (find_team_user u t) refl h
  where
    by_member :
        (o : Option TeamUser)
        → find_team_user u t ≡ o
        → IsLoadedMember o
        → Decides (has_permission u t ctx) (Access o ctx.required_permissions)
    by_member none e l = rw (e, has_permission) (Decides-bool false ((λ x. (cc)), (λ x. absurd x)))
    by_member (some m) e l =
        rw (e, has_permission) (has_all_permissions_by_role_lem m.role ctx.required_permissions l)
