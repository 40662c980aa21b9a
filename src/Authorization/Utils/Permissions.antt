-- ===== src/Authorization/Utils/Permissions.antt =====
-- The resolution of permissions in authorisation.utils.ts.
use schulcloud_server.Prelude.{
  String, Bool, true, List, [], ◌∷◌, ◌++◌, Memᴰ, ◌≡◌, refl, ◌↔◌, ◌⊎◌, inl, inr, ok, arith, includes,
  unique, string_eq, all, All, Decides, is_distinct, is_distinct-unique, includes-unique,
  includes-append, includes→mem, mem→includes,
}
use mathlib.Core.Bool.{and-eq-true_iff}
use schulcloud_server.Domain.Role.{
  Roles, nil, cons, role, all_loaded, Grants, own, inherited, later,
}
use schulcloud_server.Domain.User.{User}
use schulcloud_server.Authorization.Utils.{
  resolve_loop, resolve_permissions_by_roles, resolve_permissions, has_all_permissions,
}

-- What the loop gathers from a role list: the permissions found before, and all that it grants.
abbrev pub Gathers : List String → Roles → List String → Type 0
Gathers before rs out =
    (p : String) → (includes out p ≡ true) ↔ ((includes before p ≡ true) ⊎ Grants p rs)

includes-append_iff :
    (xs ys : List String) (p : String)
    → (includes (xs ++ ys) p ≡ true) ↔ ((includes xs p ≡ true) ⊎ (includes ys p ≡ true))
includes-append_iff xs ys p =
    (λ h. ground (arith, includes-append xs ys p), λ d. ground (arith, includes-append xs ys p))

Gathers-step :
    {n : String} {ps : List String} {i : Bool} {inner rest : Roles} (before found out : List String)
    → ((p : String)
        → (includes found p ≡ true) ↔ ((includes before p ≡ true) ⊎ (Memᴰ p ps ⊎ Grants p inner)))
    → Gathers found rest out
    → Gathers before (cons (role n ps i inner) rest) out
Gathers-step {n} {ps} {i} {inner} {rest} before found out here there p = (to, from)
  where
    of_found :
        (includes before p ≡ true) ⊎ (Memᴰ p ps ⊎ Grants p inner)
        → (includes before p ≡ true) ⊎ Grants p (cons (role n ps i inner) rest)
    of_found (inl h) = inl h
    of_found (inr (inl m)) = inr (own m)
    of_found (inr (inr g)) = inr (inherited g)

    to :
        includes out p ≡ true
        → (includes before p ≡ true) ⊎ Grants p (cons (role n ps i inner) rest)
    to h = elim ((there p).0 h) [ inl f ↦ of_found ((here p).0 f) | inr g ↦ inr (later g) ]

    of_grant : Grants p (cons (role n ps i inner) rest) → includes out p ≡ true
    of_grant (own m) = (there p).1 (inl ((here p).1 (inr (inl m))))
    of_grant (inherited g) = (there p).1 (inl ((here p).1 (inr (inr g))))
    of_grant (later g) = (there p).1 (inr g)

    from :
        (includes before p ≡ true) ⊎ Grants p (cons (role n ps i inner) rest)
        → includes out p ≡ true
    from (inl h) = (there p).1 (inl ((here p).1 (inl h)))
    from (inr g) = of_grant g

-- The permissions of a role without roles of its own.
found_own :
    (before ps : List String) (p : String)
    → (includes (before ++ ps) p ≡ true) ↔ ((includes before p ≡ true) ⊎ (Memᴰ p ps ⊎ Grants p nil))
found_own before ps p = (
  λ h. elim ((includes-append_iff before ps p).0 h) [
    | inl b ↦ inl b
    | inr o ↦ inr (inl (includes→mem ps p o))
  ],
  λ d.
      (includes-append_iff before ps p).1
        (elim d [ inl b ↦ inl b | inr (inl m) ↦ inr (mem→includes m) | inr (inr g) ↦ elim g [ ] ]),
)

found_inherited :
    (before ps sub : List String) (inner : Roles)
    → Gathers [] inner sub
    → (p : String)
    → (includes ((before ++ ps) ++ unique sub) p ≡ true)
      ↔ ((includes before p ≡ true) ⊎ (Memᴰ p ps ⊎ Grants p inner))
found_inherited before ps sub inner gathered p = (
  λ h. elim ((includes-append_iff (before ++ ps) (unique sub) p).0 h) [
    | inl b ↦ elim ((includes-append_iff before ps p).0 b) [
      | inl b ↦ inl b
      | inr o ↦ inr (inl (includes→mem ps p o))
    ]
    | inr s ↦ elim ((gathered p).0 (rw includes-unique at s)) [
      | inl impossible ↦ cc
      | inr g ↦ inr (inr g)
    ]
  ],
  λ d. (includes-append_iff (before ++ ps) (unique sub) p).1 (elim d [
    | inl b ↦ inl ((includes-append_iff before ps p).1 (inl b))
    | inr (inl m) ↦ inl ((includes-append_iff before ps p).1 (inr (mem→includes m)))
    | inr (inr g) ↦ inr (rw includes-unique ((gathered p).1 (inr g)))
  ]),
)

pub resolve_loop_lem :
    (before : List String) (rs : Roles)
    → all_loaded rs ≡ true
    → (out : List String) × (resolve_loop before rs ≡ ok out) × Gathers before rs out
unfolding resolve_loop
resolve_loop_lem before nil h =
    (before, refl, λ p. (inl, λ d. elim d [ inl b ↦ b | inr g ↦ elim g [ ] ]))
resolve_loop_lem before (cons (role n ps i nil) rest) h =
    let (out, returned, gathered) = resolve_loop_lem (before ++ ps) rest (ground arith) in
    (out, ground arith, Gathers-step before (before ++ ps) out (found_own before ps) gathered)
resolve_loop_lem before (cons (role n ps i (cons r rs)) rest) h =
    let (here, below) = (and-eq-true_iff i _).0 h in
    let (inner_loaded, rest_loaded) = (and-eq-true_iff (all_loaded (cons r rs)) _).0 below in
    let (sub, sub_returned, sub_gathered) = resolve_loop_lem [] (cons r rs) inner_loaded in
    let found = (before ++ ps) ++ unique sub in
    let (out, returned, gathered) = resolve_loop_lem found rest rest_loaded in
    (
      out,
      rw (here, sub_returned) returned,
      Gathers-step before found out (found_inherited before ps sub (cons r rs) sub_gathered)
          gathered,
    )

-- Where all role collections are loaded, the permissions of roles are resolved without error, are
-- those that a role grants itself or inherits at any depth, and are listed without repetition.
pub resolve_permissions_by_roles_lem :
    (rs : Roles)
    → all_loaded rs ≡ true
    → (out : List String) × (resolve_permissions_by_roles rs ≡ ok out)
      × ((p : String) → (includes out p ≡ true) ↔ Grants p rs)
      × (is_distinct out ≡ true)
unfolding resolve_permissions_by_roles
resolve_permissions_by_roles_lem rs h =
    let (out, returned, gathered) = resolve_loop_lem [] rs h in
    (
      unique out,
      rw returned,
      λ p. (
        λ found. elim ((gathered p).0 (rw includes-unique at found)) [
          | inl impossible ↦ cc
          | inr g ↦ g
        ],
        λ g. rw includes-unique ((gathered p).1 (inr g)),
      ),
      is_distinct-unique out,
    )

-- A user whose roles are loaded, all the way down.
abbrev pub IsLoaded : User → Type 0
IsLoaded u = (u.roles_initialized ≡ true) × (all_loaded u.roles ≡ true)

-- The user's roles grant every one of the permissions.
abbrev pub HasAll : User → List String → Type 0
HasAll u required = All (λ p. Grants p u.roles) required

pub has_every_iff :
    (users required : List String) (rs : Roles)
    → ((p : String) → (includes users p ≡ true) ↔ Grants p rs)
    → (all (λ p. includes users p) required ≡ true) ↔ All (λ p. Grants p rs) required
has_every_iff users [] rs e = (λ _. tt, λ _. refl)
has_every_iff users (p ∷ ps) rs e =
    let (to, from) = has_every_iff users ps rs e in
    (λ h. ((e p).0 (ground arith), to (ground arith)), λ (g, gs). rw ((e p).1 g) (from gs))

-- For a user whose roles are loaded the test for permissions always answers, and answers true
-- exactly if every required permission is granted by a role, directly or by inheritance.
pub has_all_permissions_lem :
    (u : User) (required : List String)
    → IsLoaded u
    → Decides (has_all_permissions u required) (HasAll u required)
unfolding has_all_permissions resolve_permissions
has_all_permissions_lem u [] h = (true, refl, (λ _. tt, λ _. refl))
has_all_permissions_lem u (p ∷ ps) h =
    let (out, returned, granted, _) = resolve_permissions_by_roles_lem u.roles h.1 in
    (
      all (λ q. includes out q) (p ∷ ps),
      rw (h.0, returned),
      has_every_iff out (p ∷ ps) u.roles granted,
    )
