-- ===== src/Prelude/Exceptions.antt =====
-- What a call returns or throws, and the Boolean connectives that stop early.
use mathlib.Core.Path.{◌≡◌, refl}
use mathlib.Core.Bool.{Bool, true, false}
use mathlib.Core.List.{List, [], ◌∷◌}
use mathlib.Core.Option.{some}
use Prim.Native.String.{String}

-- The exceptions of `@nestjs/common` that the modelled code throws, and JavaScript's `Error`.
pub data Exception : Type 0 where
  unauthorized forbidden not_implemented : Exception
  not_found : String → Exception
  bad_request : String → Exception
  internal_server_error : String → Exception
  error : String → Exception
  validation_error : String → Exception
  conflict : String → Exception
  not_acceptable : String → Exception

pub data Result {ℓ} (A : Type ℓ) : Type ℓ where
  ok : A → Result A
  throw : Exception → Result A

-- `if (!b) throw e`
abbrev pub guard : Bool → Exception → Result (Unit {0})
guard true e = ok tt
guard false e = throw e

-- A call after another, which may use what the other returned.
infixl 5 ◌>>=◌
abbrev pub ◌>>=◌ {ℓ κ} : {A : Type ℓ} {B : Type κ} → Result A → (A → Result B) → Result B
ok value >>= continue = continue value
throw exception >>= continue = throw exception

-- `a && b` and `a || b`, where `b` is evaluated only if it decides.
abbrev pub and_then : Result Bool → Result Bool → Result Bool
and_then (ok true) b = b
and_then (ok false) b = ok false
and_then (throw e) b = throw e

abbrev pub or_else : Result Bool → Result Bool → Result Bool
or_else (ok true) b = ok true
or_else (ok false) b = b
or_else (throw e) b = throw e

infixl 5 ◌>>◌
abbrev pub ◌>>◌ {ℓ κ} : {A : Type ℓ} {B : Type κ} → Result A → Result B → Result B
first >> second = first >>= λ _. second

module _ {ℓ} {A : Type ℓ} where
  -- `xs.some(p)`, where `p` may throw
  abbrev pub any_result : (A → Result Bool) → List A → Result Bool
  any_result p [] = ok false
  any_result p (x ∷ xs) = or_else (p x) (any_result p xs)

  -- `xs.map(f)`, where `f` may throw
  abbrev pub map_result {κ} : {B : Type κ} → (A → Result B) → List A → Result (List B)
  map_result f [] = ok []
  map_result f (x ∷ xs) = f x >>= λ y. map_result f xs >>= λ ys. ok (y ∷ ys)

  -- `xs.filter(p)`, where `p` may throw
  abbrev pub filter_result : (A → Result Bool) → List A → Result (List A)
  filter_result p [] = ok []
  filter_result p (x ∷ xs) = p x >>= λ keep.
      filter_result p xs >>= λ rest. ok (elim keep [ true ↦ x ∷ rest | false ↦ rest ])

-- A chain that returns has a first call that returns.
module _ {ℓ κ} {A : Type ℓ} {B : Type κ} where
  pub >>=-returns :
      (call : Result A) (continue : A → Result B) {answer : B}
      → (call >>= continue) ≡ ok answer
      → (value : A) × (call ≡ ok value) × (continue value ≡ ok answer)
  >>=-returns (throw exception) continue returned = cc
  >>=-returns (ok value) continue returned = (value, refl, returned)

pub ok_inj {ℓ} : {A : Type ℓ} {a b : A} → ok a ≡ ok b → a ≡ b
ok_inj h = cc

pub some_inj {ℓ} : {A : Type ℓ} {a b : A} → some a ≡ some b → a ≡ b
some_inj h = cc
