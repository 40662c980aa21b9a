-- ===== src/Prelude/Search.antt =====
-- What `some`, `filter` and `find` say of the members of an array.
use mathlib.Core.Path.{◌≡◌, refl, sym}
use mathlib.Core.Logic.{inl, inr}
use mathlib.Core.Bool.{Bool, true}
use mathlib.Core.Option.{some}
use mathlib.Core.List.{List, [], ◌∷◌, Memᴰ}
use native.Mathlib.Omega.{arith}
use schulcloud_server.Prelude.Tests.{Bool-cases}
use schulcloud_server.Prelude.Lists.{any, filterb, find?}

module _ {A : Type 0} (p : A → Bool) where
  pub any_to : (xs : List A) → any p xs ≡ true → (x : A) × Memᴰ x xs × (p x ≡ true)
  any_to [] h = cc
  any_to (x ∷ xs) h = elim (Bool-cases (p x)) [
    | inl hit ↦ (x, Memᴰ.head refl, hit)
    | inr miss ↦ let (y, m, e) = any_to xs (rw miss at h) in (y, Memᴰ.tail m, e)
  ]

  pub any_from : (xs : List A) (x : A) → Memᴰ x xs → p x ≡ true → any p xs ≡ true
  any_from [] x m h = elim m [ ]
  any_from (y ∷ ys) x (Memᴰ.head e) h = rw (sym e, h) refl
  any_from (y ∷ ys) x (Memᴰ.tail m) h = ground (arith, any_from ys x m h)

  pub filter_to : (xs : List A) (x : A) → Memᴰ x (filterb p xs) → Memᴰ x xs × (p x ≡ true)
  filter_to [] x m = elim m [ ]
  filter_to (y ∷ ys) x m = elim (Bool-cases (p y)) [
    | inl hit ↦ kept hit (filter_to ys x) (rw hit at m)
    | inr miss ↦ let (there, e) = filter_to ys x (rw miss at m) in (Memᴰ.tail there, e)
  ]
    where
      kept :
          p y ≡ true
          → (Memᴰ x (filterb p ys) → Memᴰ x ys × (p x ≡ true))
          → Memᴰ x (y ∷ filterb p ys)
          → Memᴰ x (y ∷ ys) × (p x ≡ true)
      kept hit rest (Memᴰ.head e) = (Memᴰ.head e, rw e hit)
      kept hit rest (Memᴰ.tail t) = let (there, e) = rest t in (Memᴰ.tail there, e)

  pub filter_from : (xs : List A) (x : A) → Memᴰ x xs → p x ≡ true → Memᴰ x (filterb p xs)
  filter_from [] x m h = elim m [ ]
  filter_from (y ∷ ys) x (Memᴰ.head e) h = rw (sym e, h) (Memᴰ.head refl)
  filter_from (y ∷ ys) x (Memᴰ.tail m) h = elim (Bool-cases (p y)) [
    | inl hit ↦ rw hit (Memᴰ.tail (filter_from ys x m h))
    | inr miss ↦ rw miss (filter_from ys x m h)
  ]

  pub find_to : (xs : List A) (x : A) → find? p xs ≡ some x → Memᴰ x xs × (p x ≡ true)
  find_to [] x h = cc
  find_to (y ∷ ys) x h = elim (Bool-cases (p y)) [
    | inl hit ↦ let same : y ≡ x = (cc) in (Memᴰ.head (sym same), rw (sym same) hit)
    | inr miss ↦ let (m, e) = find_to ys x (rw miss at h) in (Memᴰ.tail m, e)
  ]
