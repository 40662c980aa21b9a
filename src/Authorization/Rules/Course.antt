-- ===== src/Authorization/Rules/Course.antt =====
-- course.rule.ts
use schulcloud_server.Prelude.{
  Bool, List, [], ◌∷◌, Option, none, some, Result, ok, and_then, ◌≡◌, refl, ◌↔◌, inl, inr, Decides,
  Decides-bool, Decides-and_then, Decides-iff,
}
use schulcloud_server.Domain.User.{User}
use schulcloud_server.Domain.Orm.{Orm}
use schulcloud_server.Domain.Course.{Course}
use schulcloud_server.Authorization.Context.{Action, read, write, Context}
use schulcloud_server.Authorization.Utils.{
  Reference, collection, optional_collection, has_all_permissions, has_access_to_entity,
}
use schulcloud_server.Authorization.Utils.Permissions.{IsLoaded, HasAll, has_all_permissions_lem}
use schulcloud_server.Authorization.Rules.Access.{IsAmong, AnyRefers, has_access_to_entity_iff}

-- The properties that are asked, by the action.
abbrev references : Course → Action → List Reference
references c read =
    collection c.teachers ∷ collection c.substitution_teachers ∷ optional_collection c.students ∷ []
references c write = collection c.teachers ∷ collection c.substitution_teachers ∷ []

unfoldable pub has_permission : Orm → User → Course → Context → Result Bool
has_permission orm u c ctx =
    and_then (has_all_permissions u ctx.required_permissions)
      (ok (has_access_to_entity orm u (references c ctx.action)))

-- Who may do what with a course.
pub data Access (u : User) (c : Course) (a : Action) : Type 0 where
  as_teacher : IsAmong u c.teachers → Access u c a
  as_substitute : IsAmong u c.substitution_teachers → Access u c a
  as_student : (us : List User) → a ≡ read → c.students ≡ some us → IsAmong u us → Access u c a

Access-iff : (u : User) (c : Course) (a : Action) → AnyRefers u (references c a) ↔ Access u c a
Access-iff u c a = (to a, from a)
  where
    student :
        (o : Option (List User))
        → c.students ≡ o
        → AnyRefers u (optional_collection o ∷ [])
        → Access u c read
    student none e d = elim d [ inl h ↦ absurd h | inr h ↦ absurd h ]
    student (some us) e d = elim d [ inl h ↦ as_student us refl e h | inr h ↦ absurd h ]

    to : (a : Action) → AnyRefers u (references c a) → Access u c a
    to read d = elim d [
      | inl h ↦ as_teacher h
      | inr (inl h) ↦ as_substitute h
      | inr (inr h) ↦ student c.students refl h
    ]
    to write d = elim d [
      | inl h ↦ as_teacher h
      | inr (inl h) ↦ as_substitute h
      | inr (inr h) ↦ absurd h
    ]

    from : (a : Action) → Access u c a → AnyRefers u (references c a)
    from read (as_teacher h) = inl h
    from write (as_teacher h) = inl h
    from read (as_substitute h) = inr (inl h)
    from write (as_substitute h) = inr (inl h)
    from read (as_student us e s h) = rw s (inr (inr (inl h)))
    from write (as_student us e s h) = cc

-- For a user whose roles are loaded the course rule always answers, and grants the action exactly
-- if the user has all required permissions and is a teacher, a substitution teacher or, to read,
-- a student of the course.
pub has_course_permission_lem :
    (orm : Orm) (u : User) (c : Course) (ctx : Context)
    → IsLoaded u
    → Decides
        (has_permission orm u c ctx)
        (HasAll u ctx.required_permissions × Access u c ctx.action)
unfolding has_permission
has_course_permission_lem orm u c ctx h =
    Decides-and_then (has_all_permissions_lem u ctx.required_permissions h) (
      Decides-iff (Access-iff u c ctx.action)
        (Decides-bool _ (has_access_to_entity_iff orm u (references c ctx.action))))
