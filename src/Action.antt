-- ===== src/Action.antt =====
-- A method call of a service: state and exceptions. What was written before a throw stays written.
pub mod Yields
use schulcloud_server.Prelude.{List, [], ◌∷◌, Result, ok, throw, Exception}

abbrev pub Action : Type 0 → Type 0 → Type 0
Action S A = S → Result A × S

module _ {S A : Type 0} where
  abbrev pub pure : A → Action S A
  pure a s = (ok a, s)

  abbrev pub raise : Exception → Action S A
  raise e s = (throw e, s)

  -- A check that writes nothing.
  abbrev pub of_result : Result A → Action S A
  of_result r s = (r, s)

  abbrev pub gets : (S → A) → Action S A
  gets f s = (ok (f s), s)

  abbrev pub caught : (Exception → Action S A) → Result A × S → Result A × S
  caught handler (ok a, s) = (ok a, s)
  caught handler (throw e, s) = handler e s

  -- `try { ... } catch (error) { ... }`
  abbrev pub try_catch : Action S A → (Exception → Action S A) → Action S A
  try_catch body handler s = caught handler (body s)

module _ {S : Type 0} where
  abbrev pub modify : (S → S) → Action S (Unit {0})
  modify f s = (ok tt, f s)

module _ {S A B : Type 0} where
  abbrev pub continued : (A → Action S B) → Result A × S → Result B × S
  continued f (ok a, s) = f a s
  continued f (throw e, s) = (throw e, s)

  infixl 5 ◌>>=◌ ◌>>◌
  abbrev pub ◌>>=◌ : Action S A → (A → Action S B) → Action S B
  ◌>>=◌ m f s = continued f (m s)

  abbrev pub ◌>>◌ : Action S A → Action S B → Action S B
  m >> k = m >>= λ _. k

-- `Promise.all(items.map(f))`, each call run to its end before the next.
abbrev pub map_action : {S A B : Type 0} → (A → Action S B) → List A → Action S (List B)
map_action f [] = pure []
map_action f (x ∷ xs) = f x >>= λ y. map_action f xs >>= λ ys. pure (y ∷ ys)
