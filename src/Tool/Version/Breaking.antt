-- ===== src/Tool/Version/Breaking.antt =====
-- The changes of parameters that external-tool-version.service.ts looks for.
use schulcloud_server.Prelude.{
  String, Bool, true, false, not, ◌&&◌, ◌||◌, List, [], ◌∷◌, some, map, all, any, filterb, find?,
  Memᴰ, arith, includes, is_distinct, ◌==◌, string_eq, ◌≡◌, refl, sym, ◌∙◌, ◌⊎◌, inl, inr,
  Bool-cases, Option-cases, ==_iff, any_to, any_from, find_to,
}
use schulcloud_server.Tool.Parameters.{Parameter, same_scope, same_type}
use schulcloud_server.Tool.Version.{same_text, same_flag, changed, any_changed}

abbrev pub names : List Parameter → List String
names ps = map (λ p. p.name) ps

-- Two parameters agree in what a launch of the tool depends on.
abbrev pub agree : Parameter → Parameter → Bool
agree o n =
    same_flag o.is_optional n.is_optional
    && same_text o.regex n.regex
    && same_type o.type n.type
    && same_scope o.scope n.scope

pub data Breaking (old_params new_params : List Parameter) : Type 0 where
  required_added :
      (n : Parameter)
      → Memᴰ n new_params
      → n.is_optional ≡ false
      → includes (names old_params) n.name ≡ false
      → Breaking old_params new_params
  required_removed :
      (o : Parameter)
      → Memᴰ o old_params
      → o.is_optional ≡ false
      → includes (names new_params) o.name ≡ false
      → Breaking old_params new_params
  altered :
      (o n : Parameter)
      → Memᴰ o old_params
      → Memᴰ n new_params
      → o.name ≡ n.name
      → agree o n ≡ false
      → Breaking old_params new_params

includes-names :
    (ps : List Parameter) (k : String) → includes (names ps) k ≡ any (λ p. p.name == k) ps
includes-names [] k = refl
includes-names (p ∷ ps) k = ground (arith, includes-names ps k)

pub all_other-includes :
    (ps : List Parameter) (k : String)
    → all (λ p. not (p.name == k)) ps ≡ not (includes (names ps) k)
all_other-includes [] k = refl
all_other-includes (p ∷ ps) k = ground (arith, all_other-includes ps k)

-- Where names are distinct, the search by name finds the parameter.
find_named :
    (ps : List Parameter) (x : Parameter) (k : String)
    → is_distinct (names ps) ≡ true
    → Memᴰ x ps
    → x.name ≡ k
    → find? (λ p. p.name == k) ps ≡ some x
find_named [] x k d m same = elim m [ ]
find_named (p ∷ ps) x k d (Memᴰ.head e) same = rw (sym e, (==_iff x.name k).1 same) refl
find_named (p ∷ ps) x k d (Memᴰ.tail m) same =
    let there : includes (names ps) k ≡ true =
      includes-names ps k ∙ any_from (λ q. q.name == k) ps x m ((==_iff x.name k).1 same) in
    ground (arith, find_named ps x k (ground (arith, d)) m same, there, d, ==_iff p.name k)

-- The searches of the service: a parameter of one list, and the parameter of its name in the other.
pub any_changed_to :
    (same : Parameter → Parameter → Bool) (others ps : List Parameter)
    → any_changed same others ps ≡ true
    → (p : Parameter) × (n : Parameter) × Memᴰ p ps
      × Memᴰ n others
      × (p.name ≡ n.name)
      × (same p n ≡ false)
any_changed_to same others ps h =
    let (p, m, e) = any_to (λ p. changed same (find? (λ n. n.name == p.name) others) p) ps h in
    elim (Option-cases (find? (λ n. n.name == p.name) others)) [
      | inl nothing ↦ absurd_eq (rw nothing at e)
      | inr (n, found) ↦
          let (there, named) = find_to (λ n. n.name == p.name) others n found in
          (p, n, m, there, sym ((==_iff n.name p.name).0 named), not_true (rw found at e))
    ]
  where
    absurd_eq : {B : Type 0} → false ≡ true → B
    absurd_eq e = cc

    not_true : {b : Bool} → not b ≡ true → b ≡ false
    not_true {b = false} e = refl
    not_true {b = true} e = cc

pub any_changed_from :
    (same : Parameter → Parameter → Bool) (others ps : List Parameter) (p n : Parameter)
    → is_distinct (names others) ≡ true
    → Memᴰ p ps
    → Memᴰ n others
    → p.name ≡ n.name
    → same p n ≡ false
    → any_changed same others ps ≡ true
any_changed_from same others ps p n d m there named differ =
    any_from (λ p. changed same (find? (λ n. n.name == p.name) others) p) ps p m
      (rw (find_named others n p.name d there (sym named), differ) refl)

-- The names of the required parameters.
unfoldable pub required_names : List Parameter → List String
required_names ps = map (λ p. p.name) (filterb (λ p. not p.is_optional) ps)

includes-required_names :
    (ps : List Parameter) (k : String)
    → includes (required_names ps) k ≡ any (λ p. not p.is_optional && p.name == k) ps
unfolding required_names
includes-required_names [] k = refl
includes-required_names (p ∷ ps) k = ground (arith, includes-required_names ps k)

any-required_names :
    (f : String → Bool) (ps : List Parameter)
    → any f (required_names ps) ≡ any (λ p. not p.is_optional && f p.name) ps
unfolding required_names
any-required_names f [] = refl
any-required_names f (p ∷ ps) = ground (arith, any-required_names f ps)

includes-required_names-names :
    (ps : List Parameter) (k : String)
    → includes (names ps) k ≡ false
    → includes (required_names ps) k ≡ false
unfolding required_names
includes-required_names-names [] k h = refl
includes-required_names-names (p ∷ ps) k h = ground (arith, h, includes-required_names-names ps k)

pub either : (a b : Bool) → (a || b) ≡ true → (a ≡ true) ⊎ (b ≡ true)
either true b h = inl refl
either false b h = inr h

-- A required parameter of one list whose name is not among the required ones of the other.
pub lost_name :
    (ps qs : List Parameter)
    → any (λ k. not (includes (required_names qs) k)) (required_names ps) ≡ true
    → (p : Parameter) × Memᴰ p ps
      × (p.is_optional ≡ false)
      × ((includes (names qs) p.name ≡ false)
          ⊎ ((q : Parameter) × Memᴰ q qs × (p.name ≡ q.name) × (q.is_optional ≡ true)))
lost_name ps qs h =
    let (p, m, e) =
      any_to (λ p. not p.is_optional && not (includes (required_names qs) p.name)) ps
        (sym (any-required_names (λ k. not (includes (required_names qs) k)) ps) ∙ h) in
    (
      p,
      m,
      (ground (arith, e)),
      elim (Bool-cases (includes (names qs) p.name)) [
        | inr absent ↦ inl absent
        | inl present ↦
            let (q, there, named) =
              any_to (λ q. q.name == p.name) qs (sym (includes-names qs p.name) ∙ present) in
            inr (q, there, sym ((==_iff q.name p.name).0 named), optional p q there named e)
      ],
    )
  where
    optional :
        (p q : Parameter)
        → Memᴰ q qs
        → (q.name == p.name) ≡ true
        → (not p.is_optional && not (includes (required_names qs) p.name)) ≡ true
        → q.is_optional ≡ true
    optional p q there named e = ground (
      arith,
      e,
      named,
      includes-required_names qs p.name,
      any_from (λ q. not q.is_optional && q.name == p.name) qs q there,
    )

pub lost_name_from :
    (ps qs : List Parameter) (p : Parameter)
    → Memᴰ p ps
    → p.is_optional ≡ false
    → includes (names qs) p.name ≡ false
    → any (λ k. not (includes (required_names qs) k)) (required_names ps) ≡ true
lost_name_from ps qs p m required absent =
    any-required_names (λ k. not (includes (required_names qs) k)) ps
    ∙ any_from (λ p. not p.is_optional && not (includes (required_names qs) p.name)) ps p m
        (rw required (ground (arith, includes-required_names-names qs p.name absent)))
