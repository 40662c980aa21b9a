-- ===== src/Authorization/Rules/School.antt =====
-- school.rule.ts and school-external-tool.rule.ts, each for an entity and for a domain object.
use schulcloud_server.Prelude.{
  Bool, true, false, Option, none, some, Result, ok, and_then, ◌≡◌, ◌↔◌, Decides, Decides-bool,
  Decides-and_then, nat_eq, ◌==◌, eqb_iff,
}
use schulcloud_server.Domain.User.{EntityId, School, User}
use schulcloud_server.Authorization.Context.{Context}
use schulcloud_server.Authorization.Utils.{has_all_permissions}
use schulcloud_server.Authorization.Utils.Permissions.{IsLoaded, HasAll, has_all_permissions_lem}

-- A domain object may have no id yet.
pub data SchoolOrDo : Type 0 where
  entity : School → SchoolOrDo
  domain_object : Option EntityId → SchoolOrDo

abbrev pub id_of : SchoolOrDo → Option EntityId
id_of (entity s) = some s.id
id_of (domain_object i) = i

abbrev is_id : EntityId → Option EntityId → Bool
is_id i none = false
is_id i (some j) = i == j

unfoldable pub has_permission : User → SchoolOrDo → Context → Result Bool
has_permission u s ctx =
    and_then (has_all_permissions u ctx.required_permissions) (ok (is_id u.school.id (id_of s)))

-- The entity names its school, the domain object its school's id.
pub data SchoolExternalTool : Type 0 where
  tool_entity : School → SchoolExternalTool
  tool_domain_object : EntityId → SchoolExternalTool

unfoldable pub has_tool_permission : User → SchoolExternalTool → Context → Result Bool
has_tool_permission u (tool_entity s) ctx =
    and_then (has_all_permissions u ctx.required_permissions) (ok (u.school.id == s.id))
has_tool_permission u (tool_domain_object i) ctx =
    and_then (has_all_permissions u ctx.required_permissions) (ok (u.school.id == i))

abbrev IsId : EntityId → Option EntityId → Type 0
IsId i none = ⊥
IsId i (some j) = i ≡ j

is_id_iff : (i : EntityId) (o : Option EntityId) → (is_id i o ≡ true) ↔ IsId i o
is_id_iff i none = (λ e. (cc), λ e. absurd e)
is_id_iff i (some j) = eqb_iff i j

-- The rule decides who belongs to a school and has the required permissions.
pub has_school_permission_lem :
    (u : User) (s : SchoolOrDo) (ctx : Context)
    → IsLoaded u
    → Decides
        (has_permission u s ctx)
        (HasAll u ctx.required_permissions × IsId u.school.id (id_of s))
unfolding has_permission
has_school_permission_lem u s ctx h =
    Decides-and_then (has_all_permissions_lem u ctx.required_permissions h)
      (Decides-bool _ (is_id_iff u.school.id (id_of s)))

abbrev pub tool_school_id : SchoolExternalTool → EntityId
tool_school_id (tool_entity s) = s.id
tool_school_id (tool_domain_object i) = i

pub has_tool_permission_lem :
    (u : User) (t : SchoolExternalTool) (ctx : Context)
    → IsLoaded u
    → Decides
        (has_tool_permission u t ctx)
        (HasAll u ctx.required_permissions × (u.school.id ≡ tool_school_id t))
unfolding has_tool_permission
has_tool_permission_lem u (tool_entity s) ctx h =
    Decides-and_then (has_all_permissions_lem u ctx.required_permissions h)
      (Decides-bool _ (eqb_iff u.school.id s.id))
has_tool_permission_lem u (tool_domain_object i) ctx h =
    Decides-and_then (has_all_permissions_lem u ctx.required_permissions h)
      (Decides-bool _ (eqb_iff u.school.id i))
