-- ===== src/Authorization/Rules/CourseGroup.antt =====
-- course-group.rule.ts
use schulcloud_server.Prelude.{
  List, [], ◌∷◌, Option, none, some, Bool, ◌&&◌, Result, ok, ◌>>=◌, or_else, ◌≡◌, refl, ◌↔◌, inl,
  inr, Decides, Decides-bool, Decides-and, Decides-or_else, Decides-iff, ◌⊎◌,
}
use schulcloud_server.Domain.User.{User}
use schulcloud_server.Domain.Orm.{Orm}
use schulcloud_server.Domain.CourseGroup.{CourseGroup}
use schulcloud_server.Authorization.Context.{write, Context, writing}
use schulcloud_server.Authorization.Utils.{
  optional_collection, has_all_permissions, has_access_to_entity,
}
use schulcloud_server.Authorization.Utils.Permissions.{IsLoaded, HasAll, has_all_permissions_lem}
use schulcloud_server.Authorization.Rules.Access.{IsAmong, AnyRefers, has_access_to_entity_iff}
use schulcloud_server.Authorization.Rules.Course

unfoldable pub has_permission : Orm → User → CourseGroup → Context → Result Bool
has_permission orm u g ctx = do
  has_all ← has_all_permissions u ctx.required_permissions
  has ←
      or_else (ok (has_access_to_entity orm u (optional_collection g.students ∷ [])))
        (Course.has_permission orm u g.course (writing []))
  ok (has_all && has)

-- Who may do anything with a course group: its students, and who may write its course.
pub data Access (u : User) (g : CourseGroup) : Type 0 where
  as_member : (us : List User) → g.students ≡ some us → IsAmong u us → Access u g
  by_course : Course.Access u g.course write → Access u g

Access-iff :
    (u : User) (g : CourseGroup)
    → (AnyRefers u (optional_collection g.students ∷ [])
        ⊎ (HasAll u [] × Course.Access u g.course write))
      ↔ Access u g
Access-iff u g = (to g.students refl, from)
  where
    to :
        (o : Option (List User))
        → g.students ≡ o
        → AnyRefers u (optional_collection o ∷ []) ⊎ (HasAll u [] × Course.Access u g.course write)
        → Access u g
    to o e (inr h) = by_course h.1
    to none e (inl (inl h)) = absurd h
    to none e (inl (inr h)) = absurd h
    to (some us) e (inl (inl h)) = as_member us e h
    to (some us) e (inl (inr h)) = absurd h

    from :
        Access u g
        → AnyRefers u (optional_collection g.students ∷ [])
          ⊎ (HasAll u [] × Course.Access u g.course write)
    from (as_member us e h) = rw e (inl (inl h))
    from (by_course h) = inr (tt, h)

-- For a user whose roles are loaded the course group rule always answers, and grants an action
-- exactly if the user has all required permissions and is a member of the group or may write its
-- course.
pub has_course_group_permission_lem :
    (orm : Orm) (u : User) (g : CourseGroup) (ctx : Context)
    → IsLoaded u
    → Decides (has_permission orm u g ctx) (HasAll u ctx.required_permissions × Access u g)
unfolding has_permission
has_course_group_permission_lem orm u g ctx h =
    Decides-and (has_all_permissions_lem u ctx.required_permissions h) (
      Decides-iff (Access-iff u g) (
        Decides-or_else
          (Decides-bool _ (has_access_to_entity_iff orm u (optional_collection g.students ∷ [])))
          (Course.has_course_permission_lem orm u g.course (writing []) h)))
