-- ===== src/Tool/Validation/Duplicates.antt =====
-- `hasDuplicateAttributes` of common-tool-validation.service.ts.
use schulcloud_server.Prelude.{
  ℕ, zero, suc, ◌+◌, String, Bool, true, false, not, ◌&&◌, List, [], ◌∷◌, some, map, arith,
  get_elem?, includes, is_distinct, ◌==◌, string_eq, eqb, ◌≡◌, ◌≢◌, refl, sym, ◌∙◌, ap, Bool-cases,
  inl, inr, ==_iff, some_inj,
}
use schulcloud_server.Tool.Parameters.{Parameter}
use schulcloud_server.Tool.Validation.{Engine, any_indexed, has_duplicate_attributes}

module _ {A : Type 0} (p : ℕ → A → Bool) where
  any_indexed_to :
      (xs : List A) (k : ℕ)
      → any_indexed p k xs ≡ true
      → (i : ℕ) × (x : A) × (get_elem? xs i ≡ some x) × (p (k + i) x ≡ true)
  any_indexed_to [] k h = cc
  any_indexed_to (x ∷ xs) k h = elim (Bool-cases (p k x)) [
    | inl here ↦ (0, x, refl, ap (λ n. p n x) (omega arith) ∙ here)
    | inr miss ↦
        let (i, y, found, e) = any_indexed_to xs (suc k) (rw miss at h) in
        (suc i, y, found, ap (λ n. p n y) (omega arith) ∙ e)
  ]

  any_indexed_from :
      (xs : List A) (k i : ℕ) (x : A)
      → get_elem? xs i ≡ some x
      → p (k + i) x ≡ true
      → any_indexed p k xs ≡ true
  any_indexed_from [] k i x found h = cc
  any_indexed_from (y ∷ ys) k zero x found h =
      let same : y ≡ x = some_inj found in
      rw (same, sym (ap (λ n. p n x) {x = k + 0} {y = k} (omega arith)) ∙ h) refl
  any_indexed_from (y ∷ ys) k (suc i) x found h =
      let later = any_indexed_from ys (suc k) i x found (ap (λ n. p n x) (omega arith) ∙ h) in
      ground (arith, later)

  any_place_to :
      (xs : List A)
      → any_indexed p 0 xs ≡ true
      → (i : ℕ) × (x : A) × (get_elem? xs i ≡ some x) × (p i x ≡ true)
  any_place_to xs h =
      let (i, x, found, e) = any_indexed_to xs 0 h in
      (i, x, found, ap (λ n. p n x) {x = i} {y = 0 + i} (omega arith) ∙ e)

  any_place_from :
      (xs : List A) (i : ℕ) (x : A)
      → get_elem? xs i ≡ some x
      → p i x ≡ true
      → any_indexed p 0 xs ≡ true
  any_place_from xs i x found h =
      any_indexed_from xs 0 i x found (ap (λ n. p n x) {x = 0 + i} {y = i} (omega arith) ∙ h)

module _ {A : Type 0} (f : A → String) where
  includes_at :
      (xs : List A) (s : String)
      → includes (map f xs) s ≡ true
      → (i : ℕ) × (x : A) × (get_elem? xs i ≡ some x) × (f x ≡ s)
  includes_at [] s h = cc
  includes_at (x ∷ xs) s h = elim (Bool-cases (f x == s)) [
    | inl here ↦ (0, x, refl, (==_iff (f x) s).0 here)
    | inr miss ↦ let (i, y, found, e) = includes_at xs s (rw miss at h) in (suc i, y, found, e)
  ]

  includes_from :
      (xs : List A) (i : ℕ) (x : A) → get_elem? xs i ≡ some x → includes (map f xs) (f x) ≡ true
  includes_from [] i x h = cc
  includes_from (y ∷ ys) zero x h =
      let same : y ≡ x = some_inj h in rw (same, (==_iff (f x) (f x)).1 refl) refl
  includes_from (y ∷ ys) (suc i) x h = ground (arith, includes_from ys i x h)

  repeated_at :
      (xs : List A)
      → is_distinct (map f xs) ≡ false
      → (i j : ℕ) × (x y : A) × (i ≢ j)
        × (get_elem? xs i ≡ some x)
        × (get_elem? xs j ≡ some y)
        × (f x ≡ f y)
  repeated_at [] h = cc
  repeated_at (x ∷ xs) h = elim (Bool-cases (includes (map f xs) (f x))) [
    | inl again ↦
        let (j, y, found, e) = includes_at xs (f x) again in
        (0, suc j, x, y, (λ e. (omega arith)), refl, found, sym e)
    | inr fresh ↦
        let (i, j, a, b, apart, at_i, at_j, e) = repeated_at xs (ground (arith, h, fresh)) in
        (suc i, suc j, a, b, (λ same. apart (omega arith)), at_i, at_j, e)
  ]

  distinct_at :
      (xs : List A) (i j : ℕ) (x y : A)
      → is_distinct (map f xs) ≡ true
      → get_elem? xs i ≡ some x
      → get_elem? xs j ≡ some y
      → f x ≡ f y
      → i ≡ j
  distinct_at [] i j x y d at_i at_j e = cc
  distinct_at (z ∷ zs) zero zero x y d at_i at_j e = refl
  distinct_at (z ∷ zs) zero (suc j) x y d at_i at_j e =
      let same : z ≡ x = some_inj at_i in
      let again : includes (map f zs) (f z) ≡ true =
        rw (ap f same ∙ e) (includes_from zs j y at_j) in
      ground (arith, d, again)
  distinct_at (z ∷ zs) (suc i) zero x y d at_i at_j e =
      let same : z ≡ y = some_inj at_j in
      let again : includes (map f zs) (f z) ≡ true =
        rw (ap f same ∙ sym e) (includes_from zs i x at_i) in
      ground (arith, d, again)
  distinct_at (z ∷ zs) (suc i) (suc j) x y d at_i at_j e =
      ap suc (distinct_at zs i j x y (ground (arith, d)) at_i at_j e)

module _ (engine : Engine) where
  abbrev pub key : Parameter → String
  key p = engine.to_locale_lower_case p.name

  abbrev clash : (i : ℕ) (item : Parameter) (j : ℕ) (other : Parameter) → Bool
  clash i item j other =
      not (eqb i j)
      && engine.to_locale_lower_case item.name == engine.to_locale_lower_case other.name

  abbrev clash_in : List Parameter → ℕ → Parameter → Bool
  clash_in ps i item = any_indexed (clash i item) 0 ps

  no_clash :
      (ps : List Parameter)
      → is_distinct (map key ps) ≡ true
      → any_indexed (clash_in ps) 0 ps ≡ true
      → false ≡ true
  no_clash ps d h =
      let (i, x, at_i, inner) = any_place_to (clash_in ps) ps h in
      let (j, y, at_j, both) = any_place_to (clash i x) ps inner in
      let same =
        distinct_at key ps i j x y d at_i at_j
          ((==_iff (key x) (key y)).0 (ground (arith, both))) in
      ground (arith, both, same)

  some_clash :
      (ps : List Parameter)
      → is_distinct (map key ps) ≡ false
      → any_indexed (clash_in ps) 0 ps ≡ true
  some_clash ps d =
      let (i, j, x, y, apart, at_i, at_j, e) = repeated_at key ps d in
      any_place_from (clash_in ps) ps i x at_i (
        any_place_from (clash i x) ps j y at_j
          (ground (arith, apart, (==_iff (key x) (key y)).1 e)))

  -- The comparison of every two places finds a repetition exactly if two names differ in case only.
  pub has_duplicate_attributes_lem :
      (ps : List Parameter) → has_duplicate_attributes engine ps ≡ not (is_distinct (map key ps))
  unfolding has_duplicate_attributes
  has_duplicate_attributes_lem ps = elim (Bool-cases (is_distinct (map key ps))) [
    | inl d ↦ elim (Bool-cases (any_indexed (clash_in ps) 0 ps)) [
      | inl found ↦ absurd_eq (no_clash ps d found)
      | inr quiet ↦ rw d quiet
    ]
    | inr d ↦ rw d (some_clash ps d)
  ]
    where
      absurd_eq : {B : Type 0} → false ≡ true → B
      absurd_eq e = cc
