-- ===== src/BoardNode/Builder.antt =====
-- board-do.builder.ts and the domain objects of shared/domain/domainobject/board.
use schulcloud_server.Prelude.{
  ℕ, String, Bool, true, false, ◌&&◌, List, [], ◌∷◌, ◌++◌, Result, ok, throw, not_implemented,
  error, guard, ◌>>=◌, ◌>>◌, map_result, all, leb, if◌then◌else◌, ◌==◌, nat_eq,
}
use schulcloud_server.Domain.User.{EntityId}
use schulcloud_server.BoardNode.Node.{
  NodePath, BoardNode, BoardNodeType, Content, of_column, of_card, of_text_element, column, card,
  text_element, path_of_children, type_of, same_type,
}

pub record TextElement : Type 0 where
  pub id : EntityId
  pub text : String
  pub created_at : ℕ
  pub updated_at : ℕ

pub record Card : Type 0 where
  pub id : EntityId
  pub title : String
  pub height : ℕ
  pub elements : List TextElement
  pub created_at : ℕ
  pub updated_at : ℕ

pub record Column : Type 0 where
  pub id : EntityId
  pub title : String
  pub cards : List Card
  pub created_at : ℕ
  pub updated_at : ℕ

pub record ColumnBoard : Type 0 where
  pub id : EntityId
  pub title : String
  pub columns : List Column
  pub created_at : ℕ
  pub updated_at : ℕ

-- The children map: for each path the nodes that have it, in the order they were pushed.
abbrev pub ChildrenMap : Type 0
ChildrenMap = List (NodePath × List BoardNode)

abbrev pub same_path : NodePath → NodePath → Bool
same_path [] [] = true
same_path (i ∷ is) (j ∷ js) = i == j && same_path is js
same_path _ _ = false

abbrev pub push : ChildrenMap → BoardNode → ChildrenMap
push [] n = (n.path, n ∷ []) ∷ []
push ((path, nodes) ∷ m) n =
    let rest = push m n in
    if same_path path n.path then (path, nodes ++ n ∷ []) ∷ m else (path, nodes) ∷ rest

-- `childrenMap[path] || []`
abbrev pub nodes_at : ChildrenMap → NodePath → List BoardNode
nodes_at [] t = []
nodes_at ((path, nodes) ∷ m) t = let rest = nodes_at m t in if same_path path t then nodes else rest

abbrev pub push_all : ChildrenMap → List BoardNode → ChildrenMap
push_all m [] = m
push_all m (n ∷ ns) = push_all (push m n) ns

-- The constructor.
unfoldable pub new_builder : (descendants : List BoardNode) → ChildrenMap
new_builder descendants = push_all [] descendants

-- `children.sort((a, b) => a.position - b.position)`, which is stable.
abbrev pub insert_by_position : BoardNode → List BoardNode → List BoardNode
insert_by_position n [] = n ∷ []
insert_by_position n (m ∷ ms) =
    let rest = insert_by_position n ms in if leb n.position m.position then n ∷ m ∷ ms else m ∷ rest

abbrev pub sort_by_position : List BoardNode → List BoardNode
sort_by_position [] = []
sort_by_position (n ∷ ns) = insert_by_position n (sort_by_position ns)

module _ (builder : ChildrenMap) where
  unfoldable pub get_children : BoardNode → List BoardNode
  get_children n = sort_by_position (nodes_at builder (path_of_children n))

  unfoldable pub ensure_leaf_node : BoardNode → Result (Unit {0})
  ensure_leaf_node n = none_of (get_children n)
    where
      none_of : List BoardNode → Result (Unit {0})
      none_of [] = ok tt
      none_of (_ ∷ _) = throw (error "BoardNode is a leaf node but children were provided.")

  unfoldable pub ensure_board_node_type : List BoardNode → BoardNodeType → Result (Unit {0})
  ensure_board_node_type ns type =
      guard (all (λ n. same_type (type_of n.content) type) ns) not_implemented

  unfoldable pub build_text_element : BoardNode → (text : String) → Result TextElement
  build_text_element n text =
      ensure_leaf_node n
      >> ok
          (record { id = n.id; text = text; created_at = n.created_at; updated_at = n.updated_at })

  -- useDoBuilder of a child whose type has been ensured.
  abbrev pub use_element : BoardNode → Content → Result TextElement
  use_element n (text_element text) = build_text_element n text
  use_element n _ = throw not_implemented

  unfoldable pub build_card : BoardNode → (title : String) → (height : ℕ) → Result Card
  build_card n title height = do
    ensure_board_node_type (get_children n) of_text_element
    elements ← map_result (λ c. use_element c c.content) (get_children n)
    ok (record {
      id = n.id;
      title = title;
      height = height;
      elements = elements;
      created_at = n.created_at;
      updated_at = n.updated_at;
    })

  abbrev pub use_card : BoardNode → Content → Result Card
  use_card n (card title height) = build_card n title height
  use_card n _ = throw not_implemented

  unfoldable pub build_column : BoardNode → (title : String) → Result Column
  build_column n title = do
    ensure_board_node_type (get_children n) of_card
    cards ← map_result (λ c. use_card c c.content) (get_children n)
    ok (record {
      id = n.id;
      title = title;
      cards = cards;
      created_at = n.created_at;
      updated_at = n.updated_at;
    })

  abbrev pub use_column : BoardNode → Content → Result Column
  use_column n (column title) = build_column n title
  use_column n _ = throw not_implemented

  unfoldable pub build_column_board : BoardNode → (title : String) → Result ColumnBoard
  build_column_board n title = do
    ensure_board_node_type (get_children n) of_column
    columns ← map_result (λ c. use_column c c.content) (get_children n)
    ok (record {
      id = n.id;
      title = title;
      columns = columns;
      created_at = n.created_at;
      updated_at = n.updated_at;
    })
