-- ===== src/Domain/Orm.antt =====
-- What the program takes from the collections of @mikro-orm/core, which is not part of the
-- repository: membership goes by the identity of the entity, `add` and `remove` are those of a set.
use schulcloud_server.Prelude.{ℕ, Bool, true, List, Memᴰ, ◌≡◌, ◌≢◌, ◌↔◌, ◌⊎◌}
use schulcloud_server.Domain.User.{User, refs}

pub record Orm : Type 0 where
  pub contains : List User → User → Bool
  pub add : List User → User → List User
  pub remove : List User → User → List User
  pub contains_iff : (us : List User) (u : User) → (contains us u ≡ true) ↔ Memᴰ u.ref (refs us)
  pub refs-add_iff :
      (us : List User) (u : User) (r : ℕ)
      → Memᴰ r (refs (add us u)) ↔ ((r ≡ u.ref) ⊎ Memᴰ r (refs us))
  pub mem-add : (us : List User) (u v : User) → Memᴰ v (add us u) → (v ≡ u) ⊎ Memᴰ v us
  pub refs-remove_iff :
      (us : List User) (u : User) (r : ℕ)
      → Memᴰ r (refs (remove us u)) ↔ ((r ≢ u.ref) × Memᴰ r (refs us))
  pub mem-remove : (us : List User) (u v : User) → Memᴰ v (remove us u) → Memᴰ v us
