-- ===== src/Examples/Collections.antt =====
-- A collection as a list without duplicates: an instance of what the model takes from
-- @mikro-orm/core.
use schulcloud_server.Prelude.{
  ℕ, not, ◌&&◌, ◌||◌, List, [], ◌∷◌, Memᴰ, ◌≡◌, ◌≢◌, sym, ◌∙◌, ◌↔◌, ◌⊎◌, inl, inr, arith, nat_eq,
  ◌==◌, includes, includes_iff-mem, if◌then◌else◌, eqb_iff, Bool-cases, or_iff,
}
use schulcloud_server.Domain.User.{User, refs}
use schulcloud_server.Domain.Orm.{Orm}

abbrev pub add_user : List User → User → List User
add_user [] u = u ∷ []
add_user (v ∷ vs) u = let rest = add_user vs u in if v.ref == u.ref then v ∷ vs else v ∷ rest

abbrev pub remove_user : List User → User → List User
remove_user [] u = []
remove_user (v ∷ vs) u = let rest = remove_user vs u in if v.ref == u.ref then rest else v ∷ rest

includes-add_user :
    (us : List User) (u : User) (r : ℕ)
    → includes (refs (add_user us u)) r ≡ (u.ref == r || includes (refs us) r)
includes-add_user [] u r = ground arith
includes-add_user (v ∷ vs) u r = ground (arith, includes-add_user vs u r)

includes-remove_user :
    (us : List User) (u : User) (r : ℕ)
    → includes (refs (remove_user us u)) r ≡ (not (u.ref == r) && includes (refs us) r)
includes-remove_user [] u r = ground arith
includes-remove_user (v ∷ vs) u r = ground (arith, includes-remove_user vs u r)

pub mem-add_user : (us : List User) (u v : User) → Memᴰ v (add_user us u) → (v ≡ u) ⊎ Memᴰ v us
mem-add_user [] u v (Memᴰ.head e) = inl e
mem-add_user [] u v (Memᴰ.tail m) = elim m [ ]
mem-add_user (w ∷ ws) u v m = elim (Bool-cases (w.ref == u.ref)) [
  | inl same ↦ inr (rw same at m)
  | inr other ↦ by_tail (mem-add_user ws u v) (rw other at m)
]
  where
    by_tail :
        (Memᴰ v (add_user ws u) → (v ≡ u) ⊎ Memᴰ v ws)
        → Memᴰ v (w ∷ add_user ws u)
        → (v ≡ u) ⊎ Memᴰ v (w ∷ ws)
    by_tail rest (Memᴰ.head e) = inr (Memᴰ.head e)
    by_tail rest (Memᴰ.tail t) = elim (rest t) [ inl e ↦ inl e | inr old ↦ inr (Memᴰ.tail old) ]

pub mem-remove_user : (us : List User) (u v : User) → Memᴰ v (remove_user us u) → Memᴰ v us
mem-remove_user [] u v m = elim m [ ]
mem-remove_user (w ∷ ws) u v m = elim (Bool-cases (w.ref == u.ref)) [
  | inl same ↦ Memᴰ.tail (mem-remove_user ws u v (rw same at m))
  | inr other ↦ by_tail (mem-remove_user ws u v) (rw other at m)
]
  where
    by_tail :
        (Memᴰ v (remove_user ws u) → Memᴰ v ws) → Memᴰ v (w ∷ remove_user ws u) → Memᴰ v (w ∷ ws)
    by_tail rest (Memᴰ.head e) = Memᴰ.head e
    by_tail rest (Memᴰ.tail t) = Memᴰ.tail (rest t)

pub refs-add_user_iff :
    (us : List User) (u : User) (r : ℕ)
    → Memᴰ r (refs (add_user us u)) ↔ ((r ≡ u.ref) ⊎ Memᴰ r (refs us))
refs-add_user_iff us u r =
    let (to, from) = includes_iff-mem (refs (add_user us u)) r in
    let (sum_to, sum_from) =
      or_iff (u.ref == r) (includes (refs us) r) (eqb_iff u.ref r) (includes_iff-mem (refs us) r) in
    (
      λ m. elim (sum_to (sym (includes-add_user us u r) ∙ from m)) [
        | inl e ↦ inl (sym e)
        | inr old ↦ inr old
      ],
      λ d. to (
          includes-add_user us u r ∙ sum_from (elim d [ inl e ↦ inl (sym e) | inr old ↦ inr old ])),
    )

pub refs-remove_user_iff :
    (us : List User) (u : User) (r : ℕ)
    → Memᴰ r (refs (remove_user us u)) ↔ ((r ≢ u.ref) × Memᴰ r (refs us))
refs-remove_user_iff us u r =
    let (to, from) = includes_iff-mem (refs (remove_user us u)) r in
    let (old_to, old_from) = includes_iff-mem (refs us) r in
    (
      λ m.
          let h = sym (includes-remove_user us u r) ∙ from m in
          (λ e. (ground (arith, h, e)), old_to (ground (arith, h))),
      λ (other, old). to (includes-remove_user us u r ∙ (ground (arith, other, old_from old))),
    )

abbrev pub orm : Orm
orm = record {
  contains = λ us u. includes (refs us) u.ref;
  add = add_user;
  remove = remove_user;
  contains_iff = λ us u. includes_iff-mem (refs us) u.ref;
  refs-add_iff = refs-add_user_iff;
  mem-add = mem-add_user;
  refs-remove_iff = refs-remove_user_iff;
  mem-remove = mem-remove_user;
}
