-- ===== src/Authorization/Utils/Checks.antt =====
-- The checks of authorisation.utils.ts beside `hasAllPermissions`.
use schulcloud_server.Prelude.{
  String, Bool, true, false, ◌&&◌, List, [], ◌∷◌, ◌++◌, ◌≡◌, refl, ◌↔◌, ◌⊎◌, inl, inr, ok, throw,
  error, unauthorized, arith, includes, string_eq, any, all, All, Decides, Bool-cases, unique,
  or_iff,
}
use schulcloud_server.Domain.Role.{Roles, Role, nil, cons, role, all_loaded, Grants}
use schulcloud_server.Domain.User.{User}
use schulcloud_server.Authorization.Utils.{
  resolve_loop, resolve_permissions_by_roles, resolve_permissions, has_all_permissions,
  has_all_permissions_by_role, has_one_of_permissions, check_all_permissions, not_loaded,
}
use schulcloud_server.Authorization.Utils.Permissions.{
  IsLoaded, HasAll, has_every_iff, resolve_permissions_by_roles_lem, has_all_permissions_lem,
  resolve_loop_lem,
}

pub has_all_permissions_by_role_lem :
    (r : Role) (required : List String)
    → all_loaded (cons r nil) ≡ true
    → Decides (has_all_permissions_by_role r required) (All (λ p. Grants p (cons r nil)) required)
unfolding has_all_permissions_by_role
has_all_permissions_by_role_lem r required h =
    let (out, returned, granted, _) = resolve_permissions_by_roles_lem (cons r nil) h in
    (
      all (λ p. includes out p) required,
      rw returned refl,
      has_every_iff out required (cons r nil) granted,
    )

-- The user's roles grant one of the permissions.
abbrev pub HasOne : User → List String → Type 0
HasOne u [] = ⊥
HasOne u (p ∷ ps) = Grants p u.roles ⊎ HasOne u ps

has_some_iff :
    (users required : List String) (u : User)
    → ((p : String) → (includes users p ≡ true) ↔ Grants p u.roles)
    → (any (λ p. includes users p) required ≡ true) ↔ HasOne u required
has_some_iff users [] u e = (λ h. (cc), λ h. absurd h)
has_some_iff users (p ∷ ps) u e = or_iff _ _ (e p) (has_some_iff users ps u e)

-- `hasOneOfPermissions` decides whether the roles of a user grant one of the permissions: none of
-- an empty list.
pub has_one_of_permissions_lem :
    (u : User) (required : List String)
    → IsLoaded u
    → Decides (has_one_of_permissions u required) (HasOne u required)
unfolding has_one_of_permissions resolve_permissions
has_one_of_permissions_lem u [] h = (false, refl, ((λ x. (cc)), λ x. absurd x))
has_one_of_permissions_lem u (p ∷ ps) h =
    let (out, returned, granted, _) = resolve_permissions_by_roles_lem u.roles h.1 in
    (
      any (λ q. includes out q) (p ∷ ps),
      rw (h.0, returned) refl,
      has_some_iff out (p ∷ ps) u granted,
    )

-- A role list with an unloaded collection anywhere is refused, whatever was gathered before.
resolve_loop_unloaded :
    (before : List String) (rs : Roles)
    → all_loaded rs ≡ false
    → resolve_loop before rs ≡ not_loaded
unfolding resolve_loop
resolve_loop_unloaded before nil h = cc
resolve_loop_unloaded before (cons (role n ps i nil) rest) h = elim (Bool-cases i) [
  | inl e ↦ rw e (resolve_loop_unloaded (before ++ ps) rest (rw e at h))
  | inr e ↦ rw e refl
]
resolve_loop_unloaded before (cons (role n ps i (cons r rs)) rest) h = elim (Bool-cases i) [
  | inr e ↦ rw e refl
  | inl e ↦ elim (Bool-cases (all_loaded (cons r rs))) [
    | inr unloaded ↦ rw (e, resolve_loop_unloaded [] (cons r rs) unloaded) refl
    | inl loaded ↦
        let (sub, returned, _) = resolve_loop_lem [] (cons r rs) loaded in
        rw (e, returned)
          (resolve_loop_unloaded ((before ++ ps) ++ unique sub) rest
            (and_false _ _ loaded (rw e at h)))
  ]
]
  where
    and_false : (a b : Bool) → a ≡ true → (a && b) ≡ false → b ≡ false
    and_false a b p q = ground arith

-- If a role collection that the resolution reaches is not loaded, the resolution throws, whatever
-- was gathered before.
pub resolve_permissions_unloaded :
    (u : User)
    → (u.roles_initialized && all_loaded u.roles) ≡ false
    → resolve_permissions u ≡ throw (error "Roles items are not loaded.")
unfolding resolve_permissions resolve_permissions_by_roles
resolve_permissions_unloaded u h = elim (Bool-cases u.roles_initialized) [
  | inr e ↦ rw e refl
  | inl e ↦ rw (e, resolve_loop_unloaded [] u.roles (rw e at h)) refl
]

-- The check lets a user pass exactly if the roles grant all that is required, and answers anyone
-- else with an UnauthorizedException.
pub check_all_permissions_lem :
    (u : User) (required : List String)
    → IsLoaded u
    → ((check_all_permissions u required ≡ ok tt) ↔ HasAll u required)
      × (¬ HasAll u required → check_all_permissions u required ≡ throw unauthorized)
unfolding check_all_permissions
check_all_permissions_lem u required h =
    let (b, returned, decided) = has_all_permissions_lem u required h in
    by_answer b returned decided
  where
    by_answer :
        (b : Bool)
        → has_all_permissions u required ≡ ok b
        → (b ≡ true) ↔ HasAll u required
        → ((check_all_permissions u required ≡ ok tt) ↔ HasAll u required)
          × (¬ HasAll u required → check_all_permissions u required ≡ throw unauthorized)
    by_answer true e d = (
      (λ _. d.0 refl, λ _. rw (e, check_all_permissions) refl),
      λ refused. absurd (refused (d.0 refl)),
    )
    by_answer false e d = (
      (λ passed. d.0 (ground (arith, e)), λ has. ground (arith, e, d.1 has)),
      λ _. rw (e, check_all_permissions) refl,
    )
