-- ===== src/Prelude/Decisions.antt =====
-- A call that may throw decides a statement: it returns, and answers true exactly if it holds.
use mathlib.Core.Path.{◌≡◌, refl, sym, ◌∙◌, ap}
use mathlib.Core.Logic.{◌↔◌, ◌⊎◌, inl, inr}
use mathlib.Core.Bool.{Bool, true, false, ◌&&◌, ◌||◌}
use schulcloud_server.Prelude.Exceptions.{Result, ok, ◌>>=◌, and_then, or_else}

abbrev pub Decides {ℓ} : Result Bool → Type ℓ → Type ℓ
Decides r P = (b : Bool) × (r ≡ ok b) × ((b ≡ true) ↔ P)

pub Decides-bool {ℓ} : {P : Type ℓ} (b : Bool) → ((b ≡ true) ↔ P) → Decides (ok b) P
Decides-bool b h = (b, refl, h)

pub Decides-iff {ℓ κ} :
    {P : Type ℓ} {Q : Type κ} {r : Result Bool} → P ↔ Q → Decides r P → Decides r Q
Decides-iff e (b, returned, h) = (b, returned, (λ t. e.0 (h.0 t), λ q. h.1 (e.1 q)))

pub and_iff {ℓ κ} :
    {P : Type ℓ} {Q : Type κ} (a b : Bool)
    → (a ≡ true) ↔ P
    → (b ≡ true) ↔ Q
    → ((a && b) ≡ true) ↔ (P × Q)
and_iff true true h k = (λ _. (h.0 refl, k.0 refl), λ _. refl)
and_iff true false h k = (λ e. (cc), λ pq. k.1 pq.1)
and_iff false b h k = (λ e. (cc), λ pq. h.1 pq.0)

pub or_iff {ℓ κ} :
    {P : Type ℓ} {Q : Type κ} (a b : Bool)
    → (a ≡ true) ↔ P
    → (b ≡ true) ↔ Q
    → ((a || b) ≡ true) ↔ (P ⊎ Q)
or_iff true b h k = (λ _. inl (h.0 refl), λ _. refl)
or_iff false b h k = (λ e. inr (k.0 e), λ d. elim d [ inl p ↦ absurd_eq (h.1 p) | inr q ↦ k.1 q ])
  where
    absurd_eq : false ≡ true → b ≡ true
    absurd_eq e = cc

-- `a && b` after both have been evaluated, and `a || b` likewise.
pub Decides-and {ℓ κ} :
    {P : Type ℓ} {Q : Type κ} {r s : Result Bool}
    → Decides r P
    → Decides s Q
    → Decides (r >>= λ a. s >>= λ b. ok (a && b)) (P × Q)
Decides-and (a, ra, h) (b, rb, k) = (a && b, rw (ra, rb) refl, and_iff a b h k)

-- `b && a`, where `a` was evaluated first.
pub Decides-and_flip {ℓ κ} :
    {P : Type ℓ} {Q : Type κ} {r s : Result Bool}
    → Decides r P
    → Decides s Q
    → Decides (r >>= λ a. s >>= λ b. ok (b && a)) (Q × P)
Decides-and_flip (a, ra, h) (b, rb, k) = (b && a, rw (ra, rb) refl, and_iff b a k h)

pub Decides-or {ℓ κ} :
    {P : Type ℓ} {Q : Type κ} {r s : Result Bool}
    → Decides r P
    → Decides s Q
    → Decides (r >>= λ a. s >>= λ b. ok (a || b)) (P ⊎ Q)
Decides-or (a, ra, h) (b, rb, k) = (a || b, rw (ra, rb) refl, or_iff a b h k)

and_then-ok : (a b : Bool) → and_then (ok a) (ok b) ≡ ok (a && b)
and_then-ok true b = refl
and_then-ok false b = refl

or_else-ok : (a b : Bool) → or_else (ok a) (ok b) ≡ ok (a || b)
or_else-ok true b = refl
or_else-ok false b = refl

pub Decides-and_then {ℓ κ} :
    {P : Type ℓ} {Q : Type κ} {r s : Result Bool}
    → Decides r P
    → Decides s Q
    → Decides (and_then r s) (P × Q)
Decides-and_then (a, ra, h) (b, rb, k) = (a && b, rw (ra, rb) (and_then-ok a b), and_iff a b h k)

pub Decides-or_else {ℓ κ} :
    {P : Type ℓ} {Q : Type κ} {r s : Result Bool}
    → Decides r P
    → Decides s Q
    → Decides (or_else r s) (P ⊎ Q)
Decides-or_else (a, ra, h) (b, rb, k) = (a || b, rw (ra, rb) (or_else-ok a b), or_iff a b h k)

pub Decides-unique {ℓ} : {P : Type ℓ} {r : Result Bool} → Decides r P → (r ≡ ok true) ↔ P
Decides-unique (b, returned, h) = (λ e. h.0 (cc), λ p. returned ∙ ap ok (h.1 p))

-- What is decided is the value of a Boolean: then that is the answer.
pub Decides-eq : {r : Result Bool} (c : Bool) → Decides r (c ≡ true) → r ≡ ok c
Decides-eq c (b, returned, (to, from)) = returned ∙ ap ok (same b c to from)
  where
    same : (b c : Bool) → (b ≡ true → c ≡ true) → (c ≡ true → b ≡ true) → b ≡ c
    same true c to from = sym (to refl)
    same false true to from = from refl
    same false false to from = refl
