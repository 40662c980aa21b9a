-- ===== src/Action/Yields.antt =====
-- What holds after a call of a service: of its answer and the state, or of its exception and the
-- state. The rules follow the calls that the methods are made of.
use schulcloud_server.Prelude.{Result, ok, throw, Exception, ◌≡◌, refl}
use schulcloud_server.Action.{Action, of_result, try_catch, caught, continued, ◌>>=◌}

abbrev pub Holds {ℓ} :
    {S A : Type 0} → (A → S → Type ℓ) → (Exception → S → Type ℓ) → Result A × S → Type ℓ
Holds P E (ok a, s) = P a s
Holds P E (throw e, s) = E e s

pub record Yields {ℓ} {S A : Type 0} (P : A → S → Type ℓ) (E : Exception → S → Type ℓ)
    (x : Result A × S) : Type ℓ where
  pub holds : Holds P E x

module _ {ℓ} {S A : Type 0} {P : A → S → Type ℓ} {E : Exception → S → Type ℓ} where
  pub Yields-ok : {a : A} {s : S} → P a s → Yields P E (ok a, s)
  Yields-ok h = record { holds = h }

  pub Yields-throw : {e : Exception} {s : S} → E e s → Yields P E (throw e, s)
  Yields-throw h = record { holds = h }

  pub from_ok : {a : A} {s : S} → Yields P E (ok a, s) → P a s
  from_ok h = h.holds

  pub from_throw : {e : Exception} {s : S} → Yields P E (throw e, s) → E e s
  from_throw h = h.holds

  pub Yields-result :
      (r : Result A) (s : S)
      → ((a : A) → r ≡ ok a → P a s)
      → ((e : Exception) → r ≡ throw e → E e s)
      → Yields P E (of_result r s)
  Yields-result (ok a) s h k = Yields-ok (h a refl)
  Yields-result (throw e) s h k = Yields-throw (k e refl)

  pub Yields-try :
      {G : Exception → S → Type ℓ} (body : Action S A) (handler : Exception → Action S A) (s : S)
      → Yields P G (body s)
      → ((e : Exception) (s' : S) → G e s' → Yields P E (handler e s'))
      → Yields P E (try_catch body handler s)
  Yields-try {G} body handler s h k = go (body s) h
    where
      go : (x : Result A × S) → Yields P G x → Yields P E (caught handler x)
      go (ok a, s') h = Yields-ok h.holds
      go (throw e, s') h = k e s' h.holds

module _ {ℓ} {S A B : Type 0} {P : A → S → Type ℓ} {Q : B → S → Type ℓ}
    {E : Exception → S → Type ℓ} where
  pub Yields-bind :
      (m : Action S A) (f : A → Action S B) (s : S)
      → Yields P E (m s)
      → ((a : A) (s' : S) → P a s' → Yields Q E (f a s'))
      → Yields Q E ((m >>= f) s)
  Yields-bind m f s h k = go (m s) h
    where
      go : (x : Result A × S) → Yields P E x → Yields Q E (continued f x)
      go (ok a, s') h = k a s' h.holds
      go (throw e, s') h = Yields-throw h.holds

pub Yields-weaken {ℓ κ} :
    {S A : Type 0} {P : A → S → Type ℓ} {E : Exception → S → Type ℓ} {Q : A → S → Type κ}
    {G : Exception → S → Type κ} (x : Result A × S)
    → Yields P E x
    → ((a : A) (s : S) → P a s → Q a s)
    → ((e : Exception) (s : S) → E e s → G e s)
    → Yields Q G x
Yields-weaken (ok a, s) h f g = Yields-ok (f a s (from_ok h))
Yields-weaken (throw e, s) h f g = Yields-throw (g e s (from_throw h))
