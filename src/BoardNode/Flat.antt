-- ===== src/BoardNode/Flat.antt =====
-- shared/domain/entity/boardnode: the nodes that stand for a board, its columns, cards and elements
-- at the positions that they have in their lists.
use schulcloud_server.Prelude.{
  ℕ, suc, ◌<◌, Bool, true, ◌&&◌, List, [], ◌∷◌, ◌++◌, ◌≡◌, refl, ap, ◌∙◌, arith, All, Memᴰ, Result,
  ok, map_result, all, length, leb, is_distinct, nat_eq,
}
use mathlib.Core.List.{Permᴰ}
use schulcloud_server.Domain.User.{EntityId}
use schulcloud_server.BoardNode.Node.{
  NodePath, BoardNode, BoardNodeType, column_board, column, card, text_element, same_type, type_of,
  path_of_children, join_path,
}
use schulcloud_server.BoardNode.Builder.{
  TextElement, Card, Column, ColumnBoard, new_builder, get_children, insert_by_position,
  sort_by_position,
}
use schulcloud_server.BoardNode.Children.{at, nodes_at-builder}
use schulcloud_server.BoardNode.Order.{Apart, Spread, sort_unique}
use schulcloud_server.BoardNode.Level.{nodes_of, flatten, ids, Extends, flatten-inside}

abbrev pub element_node : NodePath → (position : ℕ) → TextElement → BoardNode
element_node path position e = record {
  id = e.id;
  path = path;
  level = length path;
  position = position;
  content = text_element e.text;
  created_at = e.created_at;
  updated_at = e.updated_at;
}

abbrev pub card_node : NodePath → (position : ℕ) → Card → BoardNode
card_node path position c = record {
  id = c.id;
  path = path;
  level = length path;
  position = position;
  content = card c.title c.height;
  created_at = c.created_at;
  updated_at = c.updated_at;
}

abbrev pub column_node : NodePath → (position : ℕ) → Column → BoardNode
column_node path position c = record {
  id = c.id;
  path = path;
  level = length path;
  position = position;
  content = column c.title;
  created_at = c.created_at;
  updated_at = c.updated_at;
}

abbrev pub board_node : ColumnBoard → BoardNode
board_node b = record {
  id = b.id;
  path = [];
  level = 0;
  position = 0;
  content = column_board b.title;
  created_at = b.created_at;
  updated_at = b.updated_at;
}

abbrev pub below_element : NodePath → TextElement → List BoardNode
below_element path e = []

abbrev pub below_card : NodePath → Card → List BoardNode
below_card path c = flatten (λ e. e.id) element_node below_element (path ++ c.id ∷ []) 0 c.elements

abbrev pub below_column : NodePath → Column → List BoardNode
below_column path c = flatten (λ k. k.id) card_node below_card (path ++ c.id ∷ []) 0 c.cards

-- All nodes of the board but its own.
unfoldable pub descendants : ColumnBoard → List BoardNode
descendants b = flatten (λ c. c.id) column_node below_column (b.id ∷ []) 0 b.columns

-- No id twice among the children of a node.
abbrev pub distinct_card : Card → Bool
distinct_card c = is_distinct (ids (λ e. e.id) element_node below_element c.elements)

abbrev pub distinct_column : Column → Bool
distinct_column c =
    is_distinct (ids (λ k. k.id) card_node below_card c.cards) && all distinct_card c.cards

unfoldable pub distinct_board : ColumnBoard → Bool
distinct_board b =
    is_distinct (ids (λ c. c.id) column_node below_column b.columns)
    && all distinct_column b.columns

pub inside_element :
    (p : NodePath) (e : TextElement)
    → All (λ n. Extends (p ++ e.id ∷ []) n.path) (below_element p e)
inside_element p e = tt

pub inside_card :
    (p : NodePath) (c : Card) → All (λ n. Extends (p ++ c.id ∷ []) n.path) (below_card p c)
inside_card p c =
    flatten-inside (λ e. e.id) element_node below_element (λ _ _ _. refl) inside_element
      (p ++ c.id ∷ []) 0 c.elements

pub inside_column :
    (p : NodePath) (c : Column) → All (λ n. Extends (p ++ c.id ∷ []) n.path) (below_column p c)
inside_column p c =
    flatten-inside (λ k. k.id) card_node below_card (λ _ _ _. refl) inside_card (p ++ c.id ∷ []) 0
      c.cards

module _ {A : Type 0} (id_of : A → EntityId) (node_of : NodePath → (position : ℕ) → A → BoardNode)
    (below : NodePath → A → List BoardNode)
    (position_of : (p : NodePath) (i : ℕ) (x : A) → (node_of p i x).position ≡ i) where
  -- The nodes of a level stand in the order of their positions.
  pub sort-nodes_of :
      (p : NodePath) (i : ℕ) (xs : List A)
      → sort_by_position (nodes_of id_of node_of below p i xs) ≡ nodes_of id_of node_of below p i xs
  sort-nodes_of p i [] = refl
  sort-nodes_of p i (x ∷ xs) =
      ap (insert_by_position (node_of p i x)) (sort-nodes_of p (suc i) xs) ∙ first xs
    where
      first :
          (xs : List A)
          → insert_by_position (node_of p i x) (nodes_of id_of node_of below p (suc i) xs)
            ≡ node_of p i x ∷ nodes_of id_of node_of below p (suc i) xs
      first [] = refl
      first (y ∷ ys) = rw lower refl
        where
          lower : leb (node_of p i x).position (node_of p (suc i) y).position ≡ true
          lower = ground (arith, position_of p i x, position_of p (suc i) y)

  pub type-nodes_of :
      (type : BoardNodeType) (p : NodePath) (i : ℕ) (xs : List A)
      → ((i : ℕ) (x : A) → same_type (type_of (node_of p i x).content) type ≡ true)
      → all (λ n. same_type (type_of n.content) type) (nodes_of id_of node_of below p i xs) ≡ true
  type-nodes_of type p i [] h = refl
  type-nodes_of type p i (x ∷ xs) h = rw (h i x, type-nodes_of type p (suc i) xs h) refl

  pub map_result-nodes_of :
      (build : BoardNode → Result A) (p : NodePath) (i : ℕ) (xs : List A)
      → ((i : ℕ) (x : A) → Memᴰ x xs → build (node_of p i x) ≡ ok x)
      → map_result build (nodes_of id_of node_of below p i xs) ≡ ok xs
  map_result-nodes_of build p i [] h = refl
  map_result-nodes_of build p i (x ∷ xs) h =
      rw
        (
          h i x (Memᴰ.head refl),
          map_result-nodes_of build p (suc i) xs (λ j y m. h j y (Memᴰ.tail m)),
        )
        refl

  Apart-nodes_of :
      (n : BoardNode) (p : NodePath) (i : ℕ) (xs : List A)
      → n.position < i
      → Apart n (nodes_of id_of node_of below p i xs)
  Apart-nodes_of n p i [] h = tt
  Apart-nodes_of n p i (x ∷ xs) h = (
    λ e. omega (arith, e, position_of p i x, h),
    Apart-nodes_of n p (suc i) xs (omega (arith, h)),
  )

  -- No two nodes of a level have the same position.
  pub Spread-nodes_of :
      (p : NodePath) (i : ℕ) (xs : List A) → Spread (nodes_of id_of node_of below p i xs)
  Spread-nodes_of p i [] = tt
  Spread-nodes_of p i (x ∷ xs) = (
    Apart-nodes_of (node_of p i x) p (suc i) xs (omega (arith, position_of p i x)),
    Spread-nodes_of p (suc i) xs,
  )

  -- The children of a node, from the nodes at the path of its children in any order.
  pub get_children-nodes_of :
      (ns : List BoardNode) (n : BoardNode) (xs : List A)
      → Permᴰ
          (at (n.path ++ n.id ∷ []) ns)
          (nodes_of id_of node_of below (n.path ++ n.id ∷ []) 0 xs)
      → get_children (new_builder ns) n ≡ nodes_of id_of node_of below (n.path ++ n.id ∷ []) 0 xs
  unfolding get_children path_of_children join_path
  get_children-nodes_of ns n xs found =
      ap sort_by_position (nodes_at-builder ns (n.path ++ n.id ∷ []))
      ∙ sort_unique (at (n.path ++ n.id ∷ []) ns)
          (nodes_of id_of node_of below (n.path ++ n.id ∷ []) 0 xs) found
          (Spread-nodes_of (n.path ++ n.id ∷ []) 0 xs) (sort-nodes_of (n.path ++ n.id ∷ []) 0 xs)
