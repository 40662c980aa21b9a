-- ===== src/BoardNode/Children.antt =====
-- board-do.builder.ts: the children map, as the nodes that have a path in the order in which they come.
use schulcloud_server.Prelude.{
  clash, true, false, List, [], ◌∷◌, ◌++◌, ◌≡◌, refl, sym, ap, ◌∙◌, arith, filterb, nat_eq, ==_iff,
  Bool-cases, ◌↔◌, inl, inr,
}
use mathlib.Core.List.{append-nil, append_assoc}
use schulcloud_server.BoardNode.Node.{NodePath, BoardNode}
use schulcloud_server.BoardNode.Builder.{
  ChildrenMap, same_path, push, push_all, nodes_at, new_builder,
}

pub same_path_iff : (p q : NodePath) → (same_path p q ≡ true) ↔ (p ≡ q)
same_path_iff [] [] = (λ _. refl, λ _. refl)
same_path_iff [] (j ∷ q) = (λ e. (cc), λ e. (cc))
same_path_iff (i ∷ p) [] = (λ e. (cc), λ e. (cc))
same_path_iff (i ∷ p) (j ∷ q) = ground (arith, same_path_iff p q, ==_iff i j)

-- The nodes that have a path, in their order.
abbrev pub at : NodePath → List BoardNode → List BoardNode
at t ns = filterb (λ n. same_path n.path t) ns

nodes_at-push :
    (m : ChildrenMap) (n : BoardNode) (t : NodePath)
    → nodes_at (push m n) t ≡ nodes_at m t ++ at t (n ∷ [])
nodes_at-push [] n t = ground arith
nodes_at-push ((path, nodes) ∷ m) n t = elim (Bool-cases (same_path path n.path)) [
  | inl same ↦ elim (Bool-cases (same_path path t)) [
    | inl here ↦ rw (same, here, at_t here same) refl
    | inr elsewhere ↦ rw (same, elsewhere, not_t elsewhere same) (sym (append-nil (nodes_at m t)))
  ]
  | inr other ↦ elim (Bool-cases (same_path path t)) [
    | inl here ↦ rw (other, here, apart here other) (sym (append-nil nodes))
    | inr elsewhere ↦ rw (other, elsewhere) (nodes_at-push m n t)
  ]
]
  where
    same_t : same_path path n.path ≡ true → same_path path t ≡ same_path n.path t
    same_t same = ap (λ q. same_path q t) ((same_path_iff path n.path).0 same)

    at_t : same_path path t ≡ true → same_path path n.path ≡ true → same_path n.path t ≡ true
    at_t here same = sym (same_t same) ∙ here

    not_t : same_path path t ≡ false → same_path path n.path ≡ true → same_path n.path t ≡ false
    not_t elsewhere same = sym (same_t same) ∙ elsewhere

    apart : same_path path t ≡ true → same_path path n.path ≡ false → same_path n.path t ≡ false
    apart here other = elim (Bool-cases (same_path n.path t)) [
      | inl both ↦ absurd (
          clash (
            sym other
            ∙ (same_path_iff path n.path).1
                ((same_path_iff path t).0 here ∙ sym ((same_path_iff n.path t).0 both))))
      | inr other_path ↦ other_path
    ]

pub at-append : (t : NodePath) (xs ys : List BoardNode) → at t (xs ++ ys) ≡ at t xs ++ at t ys
at-append t [] ys = refl
at-append t (x ∷ xs) ys = ground (arith, at-append t xs ys)

nodes_at-push_all :
    (ns : List BoardNode) (m : ChildrenMap) (t : NodePath)
    → nodes_at (push_all m ns) t ≡ nodes_at m t ++ at t ns
nodes_at-push_all [] m t = sym (append-nil (nodes_at m t))
nodes_at-push_all (n ∷ ns) m t =
    nodes_at-push_all ns (push m n) t
    ∙ ap (λ l. l ++ at t ns) (nodes_at-push m n t)
    ∙ append_assoc (nodes_at m t) (at t (n ∷ [])) (at t ns)
    ∙ ap (λ l. nodes_at m t ++ l) (sym (at-append t (n ∷ []) ns))

pub nodes_at-builder : (ns : List BoardNode) (t : NodePath) → nodes_at (new_builder ns) t ≡ at t ns
unfolding new_builder
nodes_at-builder ns t = nodes_at-push_all ns [] t
