-- ===== src/BoardNode/Level.antt =====
-- The nodes of one level of a board and of what lies below them, as a list.
use schulcloud_server.Prelude.{
  clash, ℕ, suc, true, false, List, [], ◌∷◌, ◌++◌, none, some, ◌≡◌, refl, sym, ap, ◌∙◌, arith, All,
  Memᴰ, length, get_elem?, ◌==◌, nat_eq, ==_iff, includes, is_distinct, Bool-cases, inl, inr,
  some_inj,
}
use mathlib.Core.List.{append-nil, append_assoc}
use schulcloud_server.Domain.User.{EntityId}
use schulcloud_server.BoardNode.Node.{NodePath, BoardNode}
use schulcloud_server.BoardNode.Builder.{same_path}
use schulcloud_server.BoardNode.Children.{at, same_path_iff, at-append}

-- The path, or one that goes on from it.
abbrev pub Extends : NodePath → NodePath → Type 0
Extends p t = (l : NodePath) × (t ≡ p ++ l)

-- The id that comes in a path right after another path.
elem-end : (p : NodePath) → get_elem? p (length p) ≡ none
elem-end [] = refl
elem-end (i ∷ p) = elem-end p

elem-extends : (p l : NodePath) (i : EntityId) → get_elem? ((p ++ i ∷ []) ++ l) (length p) ≡ some i
elem-extends [] l i = refl
elem-extends (j ∷ p) l i = elem-extends p l i

at-end : (p t : NodePath) (i : EntityId) → Extends (p ++ i ∷ []) t → get_elem? t (length p) ≡ some i
at-end p t i (l, e) = rw e (elem-extends p l i)

none_at :
    (t : NodePath) (ns : List BoardNode) → All (λ n. same_path n.path t ≡ false) ns → at t ns ≡ []
none_at t [] h = refl
none_at t (n ∷ ns) (other, rest) = rw other (none_at t ns rest)

pub All-append :
    (P : BoardNode → Type 0) (xs ys : List BoardNode) → All P xs → All P ys → All P (xs ++ ys)
All-append P [] ys h k = k
All-append P (x ∷ xs) ys (p, h) k = (p, All-append P xs ys h k)

pub All-weaken :
    (P Q : BoardNode → Type 0) (xs : List BoardNode)
    → ((n : BoardNode) → P n → Q n)
    → All P xs
    → All Q xs
All-weaken P Q [] f h = tt
All-weaken P Q (x ∷ xs) f (p, h) = (f x p, All-weaken P Q xs f h)

module _ {A : Type 0} (id_of : A → EntityId) (node_of : NodePath → (position : ℕ) → A → BoardNode)
    (below : NodePath → A → List BoardNode) where
  -- The nodes of the members of a level under a path, their positions counted from `i` on.
  abbrev pub nodes_of : NodePath → (i : ℕ) → List A → List BoardNode
  nodes_of p i [] = []
  nodes_of p i (x ∷ xs) = node_of p i x ∷ nodes_of p (suc i) xs

  -- Each with what lies below it.
  abbrev pub flatten : NodePath → (i : ℕ) → List A → List BoardNode
  flatten p i [] = []
  flatten p i (x ∷ xs) = node_of p i x ∷ (below p x ++ flatten p (suc i) xs)

  abbrev pub ids : List A → List EntityId
  ids [] = []
  ids (x ∷ xs) = id_of x ∷ ids xs

  pub ids-mem : (xs : List A) (x : A) → Memᴰ x xs → includes (ids xs) (id_of x) ≡ true
  ids-mem [] x m = elim m [ ]
  ids-mem (z ∷ zs) x (Memᴰ.head e) = ground (arith, ==_iff (id_of z) (id_of x), ap id_of e)
  ids-mem (z ∷ zs) x (Memᴰ.tail m) = ground (arith, ids-mem zs x m)

  -- What holds of every member's node, and of all below it, holds in the whole.
  pub flatten-All :
      (P : BoardNode → Type 0) (p : NodePath) (i : ℕ) (xs : List A)
      → ((i : ℕ) (x : A) → P (node_of p i x))
      → ((x : A) → All P (below p x))
      → All P (flatten p i xs)
  flatten-All P p i [] h k = tt
  flatten-All P p i (x ∷ xs) h k = (
    h i x,
    All-append P (below p x) (flatten p (suc i) xs) (k x) (flatten-All P p (suc i) xs h k),
  )

  module _ (path_of : (p : NodePath) (i : ℕ) (x : A) → (node_of p i x).path ≡ p)
      (inside : (p : NodePath) (x : A)
        → All (λ n. Extends (p ++ id_of x ∷ []) n.path) (below p x)) where
    -- Everything of the level lies under its path.
    pub flatten-inside :
        (p : NodePath) (i : ℕ) (xs : List A) → All (λ n. Extends p n.path) (flatten p i xs)
    flatten-inside p i xs =
        flatten-All (λ n. Extends p n.path) p i xs (λ j x. ([], path_of p j x ∙ sym (append-nil p)))
          (λ x.
            All-weaken _ _ (below p x)
              (λ n (l, e). (id_of x ∷ l, e ∙ append_assoc p (id_of x ∷ []) l)) (inside p x))

    -- What lies below one member is not found where another's is, nor at the path itself.
    below-elsewhere :
        (p t : NodePath) (x : A)
        → ¬ (get_elem? t (length p) ≡ some (id_of x))
        → at t (below p x) ≡ []
    below-elsewhere p t x differs =
        none_at t (below p x) (All-weaken _ _ (below p x) apart (inside p x))
      where
        apart : (n : BoardNode) → Extends (p ++ id_of x ∷ []) n.path → same_path n.path t ≡ false
        apart n under = elim (Bool-cases (same_path n.path t)) [
          | inl same ↦ absurd (
              differs (
                ap (λ q. get_elem? q (length p)) (sym ((same_path_iff n.path t).0 same))
                ∙ at-end p n.path (id_of x) under))
          | inr other ↦ other
        ]

    pub at-flatten : (p : NodePath) (i : ℕ) (xs : List A) → at p (flatten p i xs) ≡ nodes_of p i xs
    at-flatten p i [] = refl
    at-flatten p i (x ∷ xs) =
        rw (ap (λ q. same_path q p) (path_of p i x) ∙ (same_path_iff p p).1 refl) (
          ap (λ l. node_of p i x ∷ l)
            (at-append p (below p x) (flatten p (suc i) xs)
              ∙ ap (λ l. l ++ at p (flatten p (suc i) xs))
                  (below-elsewhere p p x (λ e. not_some (sym (elem-end p) ∙ e)))
              ∙ at-flatten p (suc i) xs))
      where
        not_some : {i : EntityId} → ¬ (none ≡ some i)
        not_some e = cc

    -- Past a member, at a path that goes on from the path of the level.
    skip :
        (p t : NodePath) (i : ℕ) (y : A) (xs : List A) (j : EntityId)
        → Extends (p ++ j ∷ []) t
        → at t (flatten p i (y ∷ xs)) ≡ at t (below p y) ++ at t (flatten p (suc i) xs)
    skip p t i y xs j under =
        rw (path_of p i y, longer) (at-append t (below p y) (flatten p (suc i) xs))
      where
        not_some : ¬ (none ≡ some j)
        not_some e = cc

        longer : same_path p t ≡ false
        longer = elim (Bool-cases (same_path p t)) [
          | inl same ↦ absurd (
              not_some (
                sym (elem-end p)
                ∙ ap (λ q. get_elem? q (length p)) ((same_path_iff p t).0 same)
                ∙ at-end p t j under))
          | inr other ↦ other
        ]

    differs :
        (p t : NodePath) (i j : EntityId)
        → Extends (p ++ i ∷ []) t
        → (j == i) ≡ false
        → ¬ (get_elem? t (length p) ≡ some j)
    differs p t i j under other e =
        clash (sym other ∙ (==_iff j i).1 (some_inj (sym e ∙ at-end p t i under)))

    rest-elsewhere :
        (p t : NodePath) (i : ℕ) (xs : List A) (j : EntityId)
        → Extends (p ++ j ∷ []) t
        → includes (ids xs) j ≡ false
        → at t (flatten p i xs) ≡ []
    rest-elsewhere p t i [] j under absent = refl
    rest-elsewhere p t i (y ∷ xs) j under absent =
        skip p t i y xs j under
        ∙ ap (λ l. l ++ at t (flatten p (suc i) xs))
            (below-elsewhere p t y (differs p t j (id_of y) under (ground (arith, absent))))
        ∙ rest-elsewhere p t (suc i) xs j under (ground (arith, absent))

    pub at-below :
        (p t : NodePath) (i : ℕ) (xs : List A) (x : A)
        → is_distinct (ids xs) ≡ true
        → Memᴰ x xs
        → Extends (p ++ id_of x ∷ []) t
        → at t (flatten p i xs) ≡ at t (below p x)
    at-below p t i [] x distinct m under = elim m [ ]
    at-below p t i (y ∷ xs) x distinct (Memᴰ.head e) under =
        skip p t i y xs (id_of x) under
        ∙ ap (λ l. at t (below p y) ++ l)
            (rest-elsewhere p t (suc i) xs (id_of x) under
              (ap (λ z. includes (ids xs) (id_of z)) e ∙ ground (arith, distinct)))
        ∙ append-nil (at t (below p y))
        ∙ ap (λ z. at t (below p z)) (sym e)
    at-below p t i (y ∷ xs) x distinct (Memᴰ.tail m) under =
        skip p t i y xs (id_of x) under
        ∙ ap (λ l. l ++ at t (flatten p (suc i) xs))
            (below-elsewhere p t y (
              differs p t (id_of x) (id_of y) under
                (ground (arith, distinct, ==_iff (id_of y) (id_of x), ids-mem xs x m))))
        ∙ at-below p t (suc i) xs x (ground (arith, distinct)) m under
