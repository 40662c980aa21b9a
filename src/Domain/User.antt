-- ===== src/Domain/User.antt =====
-- user.entity.ts and school.entity.ts. `ref` is the identity of the object, which `===` compares;
-- an entity's id is an opaque text that is only compared, so a number stands for it.
use schulcloud_server.Prelude.{ℕ, Bool, List, map, nat_eq, ◌==◌}
use schulcloud_server.Domain.Role.{Roles}

abbrev pub EntityId : Type 0
EntityId = ℕ

pub record School : Type 0 where
  pub ref : ℕ
  pub id : EntityId

pub record User : Type 0 where
  pub ref : ℕ
  pub id : EntityId
  pub school : School
  pub roles_initialized : Bool
  pub roles : Roles

-- `a === b` on two users and on two schools
abbrev pub same_user : User → User → Bool
same_user a b = a.ref == b.ref

abbrev pub same_school : School → School → Bool
same_school a b = a.ref == b.ref

abbrev pub refs : List User → List ℕ
refs us = map (λ u. u.ref) us

-- `collection.getIdentifiers('_id')`, as texts
abbrev pub ids : List User → List EntityId
ids us = map (λ u. u.id) us
