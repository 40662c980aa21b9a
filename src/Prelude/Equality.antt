-- ===== src/Prelude/Equality.antt =====
-- Types whose values the program compares, and what it does with `includes` and `Set`.
use Prim.Native.Nat.{ℕ, ◌≤◌, ◌<◌}
use Prim.Native.String.{String}
use mathlib.Core.Path.{◌≡◌, refl, sym}
use mathlib.Core.Logic.{◌↔◌, inl, inr}
use mathlib.Core.Bool.{Bool, true, false, not, ◌&&◌, ◌||◌}
use mathlib.Core.List.{List, [], ◌∷◌, ◌++◌, Memᴰ}
use native.Mathlib.Omega.{arith}
use text.Mathlib.Text.{◌==◌ as str_eq}
use text.Mathlib.TextEquality.{eq_iff}
use schulcloud_server.Prelude.Tests.{eqb, eqb_iff, if◌then◌else◌, Bool-cases}
use schulcloud_server.Prelude.Lists.{any, length}

-- `===` on values of one type.
pub record Eq {ℓ} (A : Type ℓ) : Type ℓ where
  pub beq : A → A → Bool
  pub beq_iff : (a b : A) → (beq a b ≡ true) ↔ (a ≡ b)

instance abbrev pub string_eq : Eq String
string_eq = record { beq = str_eq; beq_iff = eq_iff }

instance abbrev pub nat_eq : Eq ℕ
nat_eq = record { beq = eqb; beq_iff = eqb_iff }

-- `a === b`
infix 50 ◌==◌
abbrev pub ◌==◌ {κ} : {B : Type κ} ⦃eq : Eq B⦄ → B → B → Bool
◌==◌ ⦃eq⦄ = eq.beq

module _ {ℓ} {A : Type ℓ} ⦃e : Eq A⦄ where
  pub ==_iff : (a b : A) → ((a == b) ≡ true) ↔ (a ≡ b)
  ==_iff a b = e.beq_iff a b

  pub ==_self : (a : A) → (a == a) ≡ true
  ==_self a = (e.beq_iff a a).1 refl

  pub ==_comm : (a b : A) → (a == b) ≡ (b == a)
  ==_comm a b = ground (arith, e.beq_iff a b, e.beq_iff b a)

  -- `xs.includes(a)`
  abbrev pub includes : List A → A → Bool
  includes [] a = false
  includes (x ∷ xs) a = x == a || includes xs a

  -- `xs.filter((x) => x !== a)`
  abbrev pub remove_all : List A → A → List A
  remove_all [] a = []
  remove_all (x ∷ xs) a = let rest = remove_all xs a in if x == a then rest else x ∷ rest

  -- `set.add(a)`: a set keeps the order of its first insertions.
  abbrev pub set_add : List A → A → List A
  set_add s a = if includes s a then s else s ++ a ∷ []

  abbrev pub set_add_all : List A → List A → List A
  set_add_all s [] = s
  set_add_all s (x ∷ xs) = set_add_all (set_add s x) xs

  -- `[...new Set(xs)]`
  abbrev pub unique : List A → List A
  unique xs = set_add_all [] xs

  -- No value twice.
  abbrev pub is_distinct : List A → Bool
  is_distinct [] = true
  is_distinct (x ∷ xs) = not (includes xs x) && is_distinct xs

  pub includes→mem : (xs : List A) (a : A) → includes xs a ≡ true → Memᴰ a xs
  includes→mem [] a h = absurd (ground (arith, h))
  includes→mem (x ∷ xs) a h = elim (Bool-cases (x == a)) [
    | inl same ↦ Memᴰ.head (sym ((e.beq_iff x a).0 same))
    | inr other ↦ Memᴰ.tail (includes→mem xs a (ground arith))
  ]

  pub mem→includes : {a : A} {xs : List A} → Memᴰ a xs → includes xs a ≡ true
  mem→includes {a} (Memᴰ.head {x} same) = ground (arith, e.beq_iff x a)
  mem→includes (Memᴰ.tail m) = ground (arith, mem→includes m)

  pub includes_iff-mem : (xs : List A) (a : A) → (includes xs a ≡ true) ↔ Memᴰ a xs
  includes_iff-mem xs a = (includes→mem xs a, λ m. mem→includes m)

  -- `xs.some((x) => x === a)`
  pub any_eq-includes : (xs : List A) (a : A) → any (λ x. x == a) xs ≡ includes xs a
  any_eq-includes [] a = refl
  any_eq-includes (x ∷ xs) a = rw (any_eq-includes xs a) refl

  pub includes-append :
      (xs ys : List A) (a : A) → includes (xs ++ ys) a ≡ (includes xs a || includes ys a)
  includes-append [] ys a = refl
  includes-append (x ∷ xs) ys a = ground (arith, includes-append xs ys a)

  includes-set_add : (s : List A) (x a : A) → includes (set_add s x) a ≡ (x == a || includes s a)
  includes-set_add s x a = ground (arith, includes-append s (x ∷ []) a, e.beq_iff x a)

  includes-set_add_all :
      (s xs : List A) (a : A) → includes (set_add_all s xs) a ≡ (includes s a || includes xs a)
  includes-set_add_all s [] a = ground arith
  includes-set_add_all s (x ∷ xs) a =
      ground (arith, includes-set_add_all (set_add s x) xs a, includes-set_add s x a)

  pub includes-unique : (xs : List A) (a : A) → includes (unique xs) a ≡ includes xs a
  includes-unique xs a = includes-set_add_all [] xs a

  pub includes-remove_all :
      (xs : List A) (x a : A) → includes (remove_all xs x) a ≡ (not (x == a) && includes xs a)
  includes-remove_all [] x a = ground arith
  includes-remove_all (y ∷ xs) x a =
      ground (arith, includes-remove_all xs x a, e.beq_iff y x, e.beq_iff x a, e.beq_iff y a)

  is_distinct-append :
      (xs : List A) (a : A)
      → is_distinct xs ≡ true
      → includes xs a ≡ false
      → is_distinct (xs ++ a ∷ []) ≡ true
  is_distinct-append [] a d h = refl
  is_distinct-append (x ∷ xs) a d h =
      ground (
        arith,
        is_distinct-append xs a,
        includes-append xs (a ∷ []) x,
        e.beq_iff a x,
        e.beq_iff x a,
      )

  is_distinct-set_add :
      (s : List A) (a : A) → is_distinct s ≡ true → is_distinct (set_add s a) ≡ true
  is_distinct-set_add s a d = ground (arith, is_distinct-append s a d)

  is_distinct-set_add_all :
      (s xs : List A) → is_distinct s ≡ true → is_distinct (set_add_all s xs) ≡ true
  is_distinct-set_add_all s [] d = d
  is_distinct-set_add_all s (x ∷ xs) d =
      is_distinct-set_add_all (set_add s x) xs (is_distinct-set_add s x d)

  pub is_distinct-unique : (xs : List A) → is_distinct (unique xs) ≡ true
  is_distinct-unique xs = is_distinct-set_add_all [] xs refl

  length-remove_all-le : (xs : List A) (a : A) → length (remove_all xs a) ≤ length xs
  length-remove_all-le [] a = omega arith
  length-remove_all-le (x ∷ xs) a = ground (arith, length-remove_all-le xs a)

  length-remove_all-lt :
      (xs : List A) (a : A) → includes xs a ≡ true → length (remove_all xs a) < length xs
  length-remove_all-lt [] a h = cc
  length-remove_all-lt (x ∷ xs) a h =
      ground (arith, length-remove_all-le xs a, length-remove_all-lt xs a)

  -- A list without doubles is no longer than a list that has all its values.
  pub length-le_of_includes :
      (xs ys : List A)
      → is_distinct xs ≡ true
      → ((a : A) → includes xs a ≡ true → includes ys a ≡ true)
      → length xs ≤ length ys
  length-le_of_includes [] ys d h = omega arith
  length-le_of_includes (x ∷ xs) ys d h =
      let x_in : includes ys x ≡ true = h x (ground (arith, e.beq_iff x x)) in
      let smaller =
        length-le_of_includes xs (remove_all ys x) (ground arith)
          (λ a m. ground (arith, includes-remove_all ys x a, h a, e.beq_iff x a)) in
      omega (arith, smaller, length-remove_all-lt ys x x_in)
