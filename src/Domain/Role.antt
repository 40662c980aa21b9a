-- ===== src/Domain/Role.antt =====
-- role.entity.ts. A role holds permissions and inherits those of the roles in its collection.
-- Role graphs are finite and without cycles here, as the recursion of the program needs them to be.
use schulcloud_server.Prelude.{String, List, Bool, true, ◌&&◌, Memᴰ}

mutual
  -- `initialized` is what `role.roles.isInitialized(true)` answers.
  pub data Role : Type 0 where
    role : (name : String) (permissions : List String) (initialized : Bool) → Roles → Role

  pub data Roles : Type 0 where
    nil : Roles
    cons : Role → Roles → Roles

abbrev pub name : Role → String
name (role n _ _ _) = n

-- Every role reached from the list has its collection loaded.
abbrev pub all_loaded : Roles → Bool
all_loaded nil = true
all_loaded (cons (role _ _ initialized inner) rest) =
    initialized && (all_loaded inner && all_loaded rest)

-- The permissions that a list of roles grants, own or inherited.
pub data Grants (p : String) : Roles → Type 0 where
  own :
      {n : String} {ps : List String} {i : Bool} {inner rest : Roles}
      → Memᴰ p ps
      → Grants p (cons (role n ps i inner) rest)
  inherited :
      {n : String} {ps : List String} {i : Bool} {inner rest : Roles}
      → Grants p inner
      → Grants p (cons (role n ps i inner) rest)
  later : {r : Role} {rest : Roles} → Grants p rest → Grants p (cons r rest)
