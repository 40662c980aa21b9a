-- ===== src/Authorization/Service.antt =====
-- authorization.service.ts and reference.loader.ts. The repositories, which ask the database, are
-- a parameter.
pub mod Decisions
use schulcloud_server.Prelude.{
  Bool, true, false, List, [], ◌∷◌, Option, none, some, Result, ok, throw, forbidden,
  not_implemented, ◌>>=◌, guard,
}
use schulcloud_server.Domain.User.{EntityId, User}
use schulcloud_server.Domain.Orm.{Orm}
use schulcloud_server.Authorization.Context.{Context}
use schulcloud_server.Authorization.Manager
use schulcloud_server.Authorization.Manager.{
  Entity, Rule, course_rule, course_group_rule, lesson_rule, task_rule, task_card_rule, team_rule,
  user_rule, school_rule, submission_rule, school_external_tool_rule,
}

-- AllowedAuthorizationEntityType
pub data EntityType : Type 0 where
  users schools courses course_groups tasks lessons teams submissions school_external_tools :
      EntityType

-- The repositories of shared/repo, by what they hold.
pub data Repo : Type 0 where
  user_repo school_repo course_repo course_group_repo task_repo lesson_repo teams_repo : Repo
  submission_repo school_external_tool_repo : Repo

pub record RepoLoader : Type 0 where
  pub repo : Repo
  pub populate : Bool

-- `repo.findById(id, populate)`, which throws where nothing is found.
pub record Repos : Type 0 where
  pub find_by_id : Repo → EntityId → (populate : Bool) → Result Entity
  pub find_user : EntityId → (populate : Bool) → Result User

-- The entries of `repos` that the constructor sets.
unfoldable pub resolve_repo : EntityType → Result RepoLoader
resolve_repo tasks = ok (record { repo = task_repo; populate = false })
resolve_repo courses = ok (record { repo = course_repo; populate = false })
resolve_repo course_groups = ok (record { repo = course_group_repo; populate = false })
resolve_repo users = ok (record { repo = user_repo; populate = true })
resolve_repo schools = ok (record { repo = school_repo; populate = false })
resolve_repo lessons = ok (record { repo = lesson_repo; populate = false })
resolve_repo teams = ok (record { repo = teams_repo; populate = true })
resolve_repo submissions = ok (record { repo = submission_repo; populate = false })
resolve_repo school_external_tools =
    ok (record { repo = school_external_tool_repo; populate = false })

unfoldable pub load_entity : Repos → EntityType → EntityId → Result Entity
unfolding resolve_repo
load_entity repos entity_name entity_id = do
  repo_loader ← resolve_repo entity_name
  repos.find_by_id repo_loader.repo entity_id repo_loader.populate

unfoldable pub get_user_with_permissions : Repos → EntityId → Result User
get_user_with_permissions repos user_id = repos.find_user user_id true

-- The rules that the constructor registers.
abbrev pub registered : List Rule
registered =
    course_rule ∷ course_group_rule ∷ lesson_rule ∷ task_rule ∷ task_card_rule ∷ team_rule
    ∷ user_rule ∷ school_rule ∷ submission_rule ∷ school_external_tool_rule ∷ []

unfoldable pub has_permission : Orm → User → Entity → Context → Result Bool
has_permission orm u entity ctx = Manager.has_permission orm registered u entity ctx

unfoldable pub check_permission : Orm → User → Entity → Context → Result (Unit {0})
check_permission orm u entity ctx = do has ← has_permission orm u entity ctx; guard has forbidden

-- `catch (err) { throw new ForbiddenException(err); }`
abbrev pub catch_forbidden {ℓ} : {A : Type ℓ} → Result A → Result A
catch_forbidden (ok a) = ok a
catch_forbidden (throw _) = throw forbidden

unfoldable pub has_permission_by_references :
    Orm → Repos → EntityId → EntityType → EntityId → Context → Result Bool
has_permission_by_references orm repos user_id entity_name entity_id ctx = catch_forbidden (
    get_user_with_permissions repos user_id >>= λ u.
    load_entity repos entity_name entity_id >>= λ entity. has_permission orm u entity ctx)

unfoldable pub check_permission_by_references :
    Orm → Repos → EntityId → EntityType → EntityId → Context → Result (Unit {0})
check_permission_by_references orm repos user_id entity_name entity_id ctx = do
  has ← has_permission_by_references orm repos user_id entity_name entity_id ctx
  guard has forbidden
