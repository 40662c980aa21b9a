-- ===== src/BoardNode/Order.antt =====
-- board-do.builder.ts: sorting children, whatever the order in which they come.
use schulcloud_server.Prelude.{
  Bool, List, [], ◌∷◌, ◌≡◌, ◌≢◌, refl, sym, ap, ◌∙◌, arith, filterb, inl, inr, Bool-cases,
}
use mathlib.Core.Path.{subst}
use mathlib.Core.List.{Permᴰ}
use mathlib.Core.List.Permᴰ
use schulcloud_server.BoardNode.Node.{BoardNode}
use schulcloud_server.BoardNode.Builder.{insert_by_position, sort_by_position}

pub filter-Permᴰ :
    (p : BoardNode → Bool) {xs ys : List BoardNode}
    → Permᴰ xs ys
    → Permᴰ (filterb p xs) (filterb p ys)
filter-Permᴰ p Permᴰ.nil = Permᴰ.nil
filter-Permᴰ p (Permᴰ.cons {a = a} {b = b} e q) = elim (Bool-cases (p a)) [
  | inl hit ↦ rw (hit, sym (ap p e) ∙ hit) (Permᴰ.cons e (filter-Permᴰ p q))
  | inr miss ↦ rw (miss, sym (ap p e) ∙ miss) (filter-Permᴰ p q)
]
filter-Permᴰ p (Permᴰ.swap {a = a} {b = b} {l = l} e e') = elim (Bool-cases (p a)) [
  | inl hit ↦ elim (Bool-cases (p b)) [
    | inl hit' ↦ rw (hit, hit', sym (ap p e) ∙ hit, sym (ap p e') ∙ hit') (Permᴰ.swap e e')
    | inr miss' ↦
        rw (hit, miss', sym (ap p e) ∙ hit, sym (ap p e') ∙ miss')
          (Permᴰ.cons e (Permᴰ.refl (filterb p l)))
  ]
  | inr miss ↦ elim (Bool-cases (p b)) [
    | inl hit' ↦
        rw (miss, hit', sym (ap p e) ∙ miss, sym (ap p e') ∙ hit')
          (Permᴰ.cons e' (Permᴰ.refl (filterb p l)))
    | inr miss' ↦
        rw (miss, miss', sym (ap p e) ∙ miss, sym (ap p e') ∙ miss') (Permᴰ.refl (filterb p l))
  ]
]
filter-Permᴰ p (Permᴰ.trans q r) = Permᴰ.trans (filter-Permᴰ p q) (filter-Permᴰ p r)

-- A node at another position than all of these, and nodes whose positions differ.
abbrev pub Apart : BoardNode → List BoardNode → Type 0
Apart n [] = Unit
Apart n (m ∷ ms) = (n.position ≢ m.position) × Apart n ms

abbrev pub Spread : List BoardNode → Type 0
Spread [] = Unit
Spread (n ∷ ns) = Apart n ns × Spread ns

same_position : {a b : BoardNode} → a ≡ b → a.position ≡ b.position
same_position e = ap (λ (n : BoardNode). n.position) e

Apart-Permᴰ : (n : BoardNode) {xs ys : List BoardNode} → Permᴰ xs ys → Apart n xs → Apart n ys
Apart-Permᴰ n Permᴰ.nil h = h
Apart-Permᴰ n (Permᴰ.cons e p) (first, rest) =
    (λ k. first (k ∙ sym (same_position e)), Apart-Permᴰ n p rest)
Apart-Permᴰ n (Permᴰ.swap e e') (first, (second, rest)) =
    (λ k. second (k ∙ sym (same_position e')), (λ k. first (k ∙ sym (same_position e)), rest))
Apart-Permᴰ n (Permᴰ.trans p q) h = Apart-Permᴰ n q (Apart-Permᴰ n p h)

Spread-Permᴰ : {xs ys : List BoardNode} → Permᴰ xs ys → Spread xs → Spread ys
Spread-Permᴰ Permᴰ.nil h = h
Spread-Permᴰ (Permᴰ.cons {a = a} {l₂ = l₂} e p) (apart, rest) =
    (subst (λ n. Apart n l₂) e (Apart-Permᴰ a p apart), Spread-Permᴰ p rest)
Spread-Permᴰ (Permᴰ.swap {l = l} e e') ((differ, apart), (apart', rest)) = (
  (
    λ k. differ (same_position e ∙ sym k ∙ sym (same_position e')),
    subst (λ n. Apart n l) e' apart',
  ),
  (subst (λ n. Apart n l) e apart, rest),
)
Spread-Permᴰ (Permᴰ.trans p q) h = Spread-Permᴰ q (Spread-Permᴰ p h)

insert_swap :
    (n m : BoardNode) (ns : List BoardNode)
    → n.position ≢ m.position
    → insert_by_position n (insert_by_position m ns)
      ≡ insert_by_position m (insert_by_position n ns)
insert_swap n m [] differ = grind (arith, differ)
insert_swap n m (k ∷ ns) differ = grind (arith, differ, insert_swap n m ns differ)

sort-Permᴰ :
    {xs ys : List BoardNode} → Permᴰ xs ys → Spread xs → sort_by_position xs ≡ sort_by_position ys
sort-Permᴰ Permᴰ.nil h = refl
sort-Permᴰ (Permᴰ.cons e p) (_, rest) = rw (e, sort-Permᴰ p rest) refl
sort-Permᴰ (Permᴰ.swap {a = a} {b = b} {l = l} e e') ((differ, _), _) =
    rw (sym e, sym e') (insert_swap a b (sort_by_position l) differ)
sort-Permᴰ (Permᴰ.trans p q) h = sort-Permᴰ p h ∙ sort-Permᴰ q (Spread-Permᴰ p h)

-- Nodes in any order are sorted into the order of their positions, if these differ.
pub sort_unique :
    (xs ys : List BoardNode)
    → Permᴰ xs ys
    → Spread ys
    → sort_by_position ys ≡ ys
    → sort_by_position xs ≡ ys
sort_unique xs ys p spread sorted = sym (sort-Permᴰ (Permᴰ.symm p) spread) ∙ sorted
