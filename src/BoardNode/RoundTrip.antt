-- ===== src/BoardNode/RoundTrip.antt =====
-- board-do.builder.ts: building from the nodes of a board.
use schulcloud_server.Prelude.{
  ℕ, Bool, true, List, [], ◌∷◌, ◌++◌, ◌≡◌, refl, sym, ap, ◌∙◌, arith, Memᴰ, ok, all, nat_eq,
}
use mathlib.Core.List.{append_assoc, append-nil}
use mathlib.Core.List.{Permᴰ}
use mathlib.Core.Path.{subst}
use schulcloud_server.Domain.User.{EntityId}
use schulcloud_server.BoardNode.Node.{NodePath, BoardNode, of_column, of_card, of_text_element}
use schulcloud_server.BoardNode.Builder.{
  same_path, TextElement, Card, Column, ColumnBoard, new_builder, ensure_leaf_node,
  ensure_board_node_type, build_text_element, use_element, use_card, use_column, build_card,
  build_column, build_column_board,
}
use schulcloud_server.BoardNode.Children.{at}
use schulcloud_server.BoardNode.Order.{filter-Permᴰ}
use schulcloud_server.BoardNode.Level.{Extends, at-flatten, at-below}
use schulcloud_server.BoardNode.Flat.{
  element_node, card_node, column_node, board_node, below_element, below_card, below_column,
  descendants, distinct_card, distinct_column, distinct_board, inside_element, inside_card,
  inside_column, type-nodes_of, map_result-nodes_of, get_children-nodes_of,
}

-- Below a path the nodes are these, in any order.
abbrev pub Below : List BoardNode → NodePath → List BoardNode → Type 0
Below ns p some_nodes = (t : NodePath) → Extends p t → Permᴰ (at t ns) (at t some_nodes)

-- A permutation of a list that is another one.
pub Permᴰ_same : {xs ys zs : List BoardNode} → Permᴰ xs ys → ys ≡ zs → Permᴰ xs zs
Permᴰ_same {xs} p e = subst (λ l. Permᴰ xs l) e p

Extends-self : (p : NodePath) → Extends p p
Extends-self p = ([], sym (append-nil p))

Extends-down : (p : NodePath) (i : ℕ) (t : NodePath) → Extends (p ++ i ∷ []) t → Extends p t
Extends-down p i t (l, e) = (i ∷ l, e ∙ append_assoc p (i ∷ []) l)

pub all-mem :
    {A : Type 0} (p : A → Bool) (xs : List A) (x : A) → all p xs ≡ true → Memᴰ x xs → p x ≡ true
all-mem p [] x h m = elim m [ ]
all-mem p (y ∷ ys) x h (Memᴰ.head e) = ap p e ∙ ground (arith, h)
all-mem p (y ∷ ys) x h (Memᴰ.tail m) = all-mem p ys x (ground (arith, h)) m

build_element :
    (ns : List BoardNode) (p : NodePath) (i : ℕ) (e : TextElement)
    → Below ns (p ++ e.id ∷ []) []
    → build_text_element (new_builder ns) (element_node p i e) e.text ≡ ok e
unfolding build_text_element ensure_leaf_node
build_element ns p i e below =
    rw
      (get_children-nodes_of (λ e. e.id) element_node below_element (λ _ _ _. refl) ns
        (element_node p i e) [] (below (p ++ e.id ∷ []) (Extends-self (p ++ e.id ∷ []))))
      refl

build_whole_card :
    (ns : List BoardNode) (p : NodePath) (i : ℕ) (c : Card)
    → distinct_card c ≡ true
    → Below ns (p ++ c.id ∷ []) (below_card p c)
    → build_card (new_builder ns) (card_node p i c) c.title c.height ≡ ok c
unfolding build_card ensure_board_node_type
build_whole_card ns p i c distinct below =
    rw
      (
        get_children-nodes_of element_id element_node below_element (λ _ _ _. refl) ns
            (card_node p i c) c.elements
            (Permᴰ_same (below q (Extends-self q)) (
              at-flatten element_id element_node below_element (λ _ _ _. refl) inside_element q 0
                c.elements)),
        type-nodes_of element_id element_node below_element (λ _ _ _. refl) of_text_element q 0
            c.elements (λ _ _. refl),
        map_result-nodes_of element_id element_node below_element (λ _ _ _. refl)
            (λ n. use_element (new_builder ns) n n.content) q 0 c.elements
            (λ j e m. build_element ns q j e (under e m)),
      )
      refl
  where
    q : NodePath
    q = p ++ c.id ∷ []

    element_id : TextElement → EntityId
    element_id e = e.id

    under : (e : TextElement) → Memᴰ e c.elements → Below ns (q ++ e.id ∷ []) []
    under e m t extends = Permᴰ_same (below t (Extends-down q e.id t extends)) (
        at-below element_id element_node below_element (λ _ _ _. refl) inside_element q t 0
          c.elements e distinct m extends)

build_whole_column :
    (ns : List BoardNode) (p : NodePath) (i : ℕ) (c : Column)
    → distinct_column c ≡ true
    → Below ns (p ++ c.id ∷ []) (below_column p c)
    → build_column (new_builder ns) (column_node p i c) c.title ≡ ok c
unfolding build_column ensure_board_node_type
build_whole_column ns p i c distinct below =
    rw
      (
        get_children-nodes_of card_id card_node below_card (λ _ _ _. refl) ns (column_node p i c)
            c.cards
            (Permᴰ_same (below q (Extends-self q))
              (at-flatten card_id card_node below_card (λ _ _ _. refl) inside_card q 0 c.cards)),
        type-nodes_of card_id card_node below_card (λ _ _ _. refl) of_card q 0 c.cards
            (λ _ _. refl),
        map_result-nodes_of card_id card_node below_card (λ _ _ _. refl)
            (λ n. use_card (new_builder ns) n n.content) q 0 c.cards
            (λ j k m.
              build_whole_card ns q j k
                (all-mem distinct_card c.cards k (ground (arith, distinct)) m) (under k m)),
      )
      refl
  where
    q : NodePath
    q = p ++ c.id ∷ []

    card_id : Card → EntityId
    card_id k = k.id

    under : (k : Card) → Memᴰ k c.cards → Below ns (q ++ k.id ∷ []) (below_card q k)
    under k m t extends = Permᴰ_same (below t (Extends-down q k.id t extends)) (
        at-below card_id card_node below_card (λ _ _ _. refl) inside_card q t 0 c.cards k
          (ground (arith, distinct)) m extends)

-- The nodes may be any that below the board are those of the board.
pub build_whole_board :
    (ns : List BoardNode) (b : ColumnBoard)
    → distinct_board b ≡ true
    → Below ns (b.id ∷ []) (descendants b)
    → build_column_board (new_builder ns) (board_node b) b.title ≡ ok b
unfolding build_column_board ensure_board_node_type descendants distinct_board
build_whole_board ns b distinct below =
    rw
      (
        get_children-nodes_of column_id column_node below_column (λ _ _ _. refl) ns (board_node b)
            b.columns
            (Permᴰ_same (below q (Extends-self q)) (
              at-flatten column_id column_node below_column (λ _ _ _. refl) inside_column q 0
                b.columns)),
        type-nodes_of column_id column_node below_column (λ _ _ _. refl) of_column q 0 b.columns
            (λ _ _. refl),
        map_result-nodes_of column_id column_node below_column (λ _ _ _. refl)
            (λ n. use_column (new_builder ns) n n.content) q 0 b.columns
            (λ j c m.
              build_whole_column ns q j c
                (all-mem distinct_column b.columns c (ground (arith, distinct)) m)
                (λ t extends. Permᴰ_same (below t (Extends-down q c.id t extends)) (
                  at-below column_id column_node below_column (λ _ _ _. refl) inside_column q t 0
                    b.columns c (ground (arith, distinct)) m extends))),
      )
      refl
  where
    column_id : Column → EntityId
    column_id c = c.id

    q : NodePath
    q = b.id ∷ []

-- A board in which the children of a node have different ids is what the builder makes from its
-- node and the nodes of its columns, cards and elements, in whatever order these come.
pub build_column_board-descendants :
    (ns : List BoardNode) (b : ColumnBoard)
    → Permᴰ ns (descendants b)
    → distinct_board b ≡ true
    → build_column_board (new_builder ns) (board_node b) b.title ≡ ok b
build_column_board-descendants ns b all_nodes distinct =
    build_whole_board ns b distinct (λ t _. filter-Permᴰ (λ n. same_path n.path t) all_nodes)
