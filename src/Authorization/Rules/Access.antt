-- ===== src/Authorization/Rules/Access.antt =====
-- What the references of an entity say about a user, and how `hasAccessToEntity` reads them.
use schulcloud_server.Prelude.{
  List, [], ◌∷◌, none, some, Memᴰ, ◌≡◌, ◌↔◌, ◌⊎◌, true, eqb_iff, or_iff,
}
use schulcloud_server.Domain.User.{User, refs}
use schulcloud_server.Domain.Orm.{Orm}
use schulcloud_server.Authorization.Utils.{
  Reference, collection, user, id, refers_to, has_access_to_entity,
}

-- The user is one of a collection.
abbrev pub IsAmong : User → List User → Type 0
IsAmong u us = Memᴰ u.ref (refs us)

abbrev pub Refers : User → Reference → Type 0
Refers u (collection us) = IsAmong u us
Refers u (user v) = v.ref ≡ u.ref
Refers u (id none) = ⊥
Refers u (id (some i)) = i ≡ u.id

abbrev pub AnyRefers : User → List Reference → Type 0
AnyRefers u [] = ⊥
AnyRefers u (r ∷ rs) = Refers u r ⊎ AnyRefers u rs

refers_to_iff : (orm : Orm) (u : User) (r : Reference) → (refers_to orm u r ≡ true) ↔ Refers u r
refers_to_iff orm u (collection us) = orm.contains_iff us u
refers_to_iff orm u (user v) = eqb_iff v.ref u.ref
refers_to_iff orm u (id none) = (λ h. (cc), λ h. absurd h)
refers_to_iff orm u (id (some i)) = eqb_iff i u.id

pub has_access_to_entity_iff :
    (orm : Orm) (u : User) (rs : List Reference)
    → (has_access_to_entity orm u rs ≡ true) ↔ AnyRefers u rs
unfolding has_access_to_entity
has_access_to_entity_iff orm u [] = (λ h. (cc), λ h. absurd h)
has_access_to_entity_iff orm u (r ∷ rs) =
    or_iff _ _ (refers_to_iff orm u r) (has_access_to_entity_iff orm u rs)
