-- ===== src/Domain/Team.antt =====
-- team.entity.ts
use schulcloud_server.Prelude.{String, List}
use schulcloud_server.Domain.User.{School, User}
use schulcloud_server.Domain.Role.{Role}

pub record TeamUser : Type 0 where
  pub user : User
  pub role : Role
  pub school : School

pub record Team : Type 0 where
  pub name : String
  pub team_users : List TeamUser
