-- ===== src/Authorization/Service/Decisions.antt =====
-- The answers of authorization.service.ts: which rule gives them, and where something goes wrong.
use schulcloud_server.Prelude.{
  Bool, true, false, [], ◌∷◌, ◌≡◌, refl, ◌⊎◌, ◌≢◌, inl, inr, Result, ok, throw, forbidden,
  not_implemented, ◌>>=◌, guard,
}
use schulcloud_server.Domain.User.{EntityId, User}
use schulcloud_server.Domain.Orm.{Orm}
use schulcloud_server.Authorization.Context.{Context}
use schulcloud_server.Authorization.Manager
use schulcloud_server.Authorization.Manager.{
  Entity, a_course, a_course_group, a_lesson, a_task, a_task_card, a_team, a_user, a_school,
  a_submission, a_school_external_tool, other, Rule, is_applicable, match, select_permissions,
  rule_has_permission,
}
use schulcloud_server.Authorization.Service.{
  EntityType, Repos, load_entity, get_user_with_permissions, registered, has_permission,
  catch_forbidden, has_permission_by_references, check_permission_by_references,
}

-- For every entity, either no rule knows its class and the answer is a NotImplementedException,
-- or exactly one rule applies and that rule answers.
pub has_service_permission_lem :
    (orm : Orm) (u : User) (entity : Entity) (ctx : Context)
    → ((entity ≡ other) × (has_permission orm u entity ctx ≡ throw not_implemented))
      ⊎ ((r : Rule) × (select_permissions registered entity ≡ r ∷ [])
          × (has_permission orm u entity ctx ≡ rule_has_permission orm r u entity ctx))
unfolding has_permission Manager.has_permission select_permissions is_applicable match
has_service_permission_lem orm u (a_course c) ctx = inr (Rule.course_rule, refl, refl)
has_service_permission_lem orm u (a_course_group c) ctx = inr (Rule.course_group_rule, refl, refl)
has_service_permission_lem orm u (a_lesson c) ctx = inr (Rule.lesson_rule, refl, refl)
has_service_permission_lem orm u (a_task c) ctx = inr (Rule.task_rule, refl, refl)
has_service_permission_lem orm u (a_task_card c) ctx = inr (Rule.task_card_rule, refl, refl)
has_service_permission_lem orm u (a_team c) ctx = inr (Rule.team_rule, refl, refl)
has_service_permission_lem orm u (a_user c) ctx = inr (Rule.user_rule, refl, refl)
has_service_permission_lem orm u (a_school c) ctx = inr (Rule.school_rule, refl, refl)
has_service_permission_lem orm u (a_submission s t) ctx = inr (Rule.submission_rule, refl, refl)
has_service_permission_lem orm u (a_school_external_tool c) ctx =
    inr (Rule.school_external_tool_rule, refl, refl)
has_service_permission_lem orm u other ctx = inl (refl, refl)

abbrev guarded_call :
    {A B : Type 0} → Result A → Result B → (A → B → Result Bool) → Result (Unit {0})
guarded_call ra rb p =
    catch_forbidden (ra >>= λ a. rb >>= λ b. p a b) >>= λ has. guard has forbidden

guarded :
    {A B : Type 0} (ra : Result A) (rb : Result B) (p : A → B → Result Bool)
    → ((guarded_call ra rb p ≡ ok tt)
        × (a : A) × (b : B) × (ra ≡ ok a)
        × (rb ≡ ok b)
        × (p a b ≡ ok true))
      ⊎ ((guarded_call ra rb p ≡ throw forbidden)
          × ((a : A) (b : B) → ra ≡ ok a → rb ≡ ok b → p a b ≢ ok true))
guarded (throw e) rb p = inr (refl, λ a b ea eb. (cc))
guarded (ok a) (throw e) p = inr (refl, λ a b ea eb. (cc))
guarded {A} {B} (ok a) (ok b) p = answer (p a b) refl
  where
    answer :
        (r : Result Bool)
        → p a b ≡ r
        → ((guarded_call (ok a) (ok b) p ≡ ok tt)
            × (x : A) × (y : B) × (ok a ≡ ok x)
            × (ok b ≡ ok y)
            × (p x y ≡ ok true))
          ⊎ ((guarded_call (ok a) (ok b) p ≡ throw forbidden)
              × ((x : A) (y : B) → ok a ≡ ok x → ok b ≡ ok y → p x y ≢ ok true))
    answer (ok true) e = inl (rw e refl, a, b, refl, refl, e)
    answer (ok false) e = inr (rw e refl, λ x y ea eb h. (cc))
    answer (throw x) e = inr (rw e refl, λ x y ea eb h. (cc))

-- A check by references passes exactly if the user and the entity are found and the rule of the
-- entity grants the permission; everything else, an error on the way included, is answered by a
-- ForbiddenException.
pub check_permission_by_references_lem :
    (orm : Orm) (repos : Repos) (user_id : EntityId) (name : EntityType) (id : EntityId)
    (ctx : Context)
    → ((check_permission_by_references orm repos user_id name id ctx ≡ ok tt)
        × (u : User) × (entity : Entity) × (get_user_with_permissions repos user_id ≡ ok u)
        × (load_entity repos name id ≡ ok entity)
        × (has_permission orm u entity ctx ≡ ok true))
      ⊎ ((check_permission_by_references orm repos user_id name id ctx ≡ throw forbidden)
          × ((u : User) (entity : Entity)
              → get_user_with_permissions repos user_id ≡ ok u
              → load_entity repos name id ≡ ok entity
              → has_permission orm u entity ctx ≢ ok true))
unfolding check_permission_by_references has_permission_by_references
check_permission_by_references_lem orm repos user_id name id ctx =
    guarded (get_user_with_permissions repos user_id) (load_entity repos name id)
      (λ u entity. has_permission orm u entity ctx)
