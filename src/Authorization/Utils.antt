-- ===== src/Authorization/Utils.antt =====
-- rules/authorisation.utils.ts, and its twin service/permission.service.ts.
pub mod Permissions
pub mod Checks
use schulcloud_server.Prelude.{
  String, Bool, true, false, List, [], ◌∷◌, ◌++◌, Option, none, some, Result, ok, throw, error,
  unauthorized, ◌>>=◌, guard, string_eq, nat_eq, ◌==◌, includes, unique, all, any, if◌then◌else◌,
}
use schulcloud_server.Domain.Role.{Roles, Role, nil, cons, role, name}
use schulcloud_server.Domain.User.{EntityId, School, User, same_user, same_school}
use schulcloud_server.Domain.Orm.{Orm}

abbrev pub not_loaded {ℓ} : {A : Type ℓ} → Result A
not_loaded = throw (error "Roles items are not loaded.")

-- The loop of `resolvePermissionsByRoles`, with the permissions gathered so far. The recursive call
-- of the program is `loop [] inner` with the doubles taken out.
unfoldable pub resolve_loop : List String → Roles → Result (List String)
resolve_loop permissions nil = ok permissions
resolve_loop permissions (cons (role _ own initialized nil) rest) =
    let next = resolve_loop (permissions ++ own) rest in if initialized then next else not_loaded
resolve_loop permissions (cons (role _ own initialized (cons r rs)) rest) =
    let next = resolve_loop [] (cons r rs) >>= λ sub_permissions.
    resolve_loop ((permissions ++ own) ++ unique sub_permissions) rest in
    if initialized then next else not_loaded

unfoldable pub resolve_permissions_by_roles : Roles → Result (List String)
unfolding resolve_loop
resolve_permissions_by_roles input_roles = do
  permissions ← resolve_loop [] input_roles
  ok (unique permissions)

unfoldable pub resolve_permissions : User → Result (List String)
resolve_permissions u =
    if u.roles_initialized then resolve_permissions_by_roles u.roles else not_loaded

abbrev pub has_every_permission : List String → List String → Bool
has_every_permission required users = all (λ p. includes users p) required

unfoldable pub has_all_permissions : User → List String → Result Bool
has_all_permissions u [] = ok true
has_all_permissions u (p ∷ ps) = do
  users_permissions ← resolve_permissions u
  ok (has_every_permission (p ∷ ps) users_permissions)

unfoldable pub has_all_permissions_by_role : Role → List String → Result Bool
has_all_permissions_by_role r required = do
  users_permissions ← resolve_permissions_by_roles (cons r nil)
  ok (has_every_permission required users_permissions)

unfoldable pub check_all_permissions : User → List String → Result (Unit {0})
check_all_permissions u required = do
  has_permission ← has_all_permissions u required
  guard has_permission unauthorized

unfoldable pub has_one_of_permissions : User → List String → Result Bool
has_one_of_permissions u [] = ok false
has_one_of_permissions u (p ∷ ps) = do
  permissions ← resolve_permissions u
  ok (any (λ q. includes permissions q) (p ∷ ps))

unfoldable pub check_one_of_permissions : User → List String → Result (Unit {0})
check_one_of_permissions u required = do
  has_permission ← has_one_of_permissions u required
  guard has_permission unauthorized

-- What `entity[prop]` can be: a collection, a user, or an id (missing ones compare with nothing).
pub data Reference : Type 0 where
  collection : List User → Reference
  user : User → Reference
  id : Option EntityId → Reference

-- A collection that a partly loaded entity lacks is an `undefined` property.
abbrev pub optional_collection : Option (List User) → Reference
optional_collection none = id none
optional_collection (some us) = collection us

abbrev pub refers_to : Orm → User → Reference → Bool
refers_to orm u (collection us) = orm.contains us u
refers_to orm u (user v) = same_user v u
refers_to orm u (id none) = false
refers_to orm u (id (some i)) = i == u.id

-- The references are those of the properties that the caller names.
unfoldable pub has_access_to_entity : Orm → User → List Reference → Bool
has_access_to_entity orm u references = any (refers_to orm u) references

unfoldable pub is_same_school : User → School → Bool
is_same_school u entity_school = same_school u.school entity_school

unfoldable pub check_same_school : User → School → Result (Unit {0})
check_same_school u entity_school = guard (is_same_school u entity_school) unauthorized

unfoldable pub role_names : Roles → List String
role_names nil = []
role_names (cons r rs) = name r ∷ role_names rs

unfoldable pub has_role : User → String → Result Bool
has_role u role_name =
    if u.roles_initialized then ok (any (λ n. n == role_name) (role_names u.roles)) else not_loaded

-- permission.service.ts: an empty list of required permissions is refused here.
unfoldable pub has_user_all_school_permissions : User → List String → Result Bool
has_user_all_school_permissions u [] = ok false
has_user_all_school_permissions u (p ∷ ps) = do
  users_permissions ← resolve_permissions u
  ok (all (λ q. includes users_permissions q) (p ∷ ps))

unfoldable pub check_user_has_all_school_permissions : User → List String → Result (Unit {0})
check_user_has_all_school_permissions u required = do
  has_permission ← has_user_all_school_permissions u required
  guard has_permission unauthorized
