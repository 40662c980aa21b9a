-- ===== src/BoardNode/Node.antt =====
-- boardnode.entity.ts with column-board-node, column-node, card-node and text-element-node.entity.ts.
-- A path is the list of the ids between its commas, from the root on.
use schulcloud_server.Prelude.{
  ℕ, ◌+◌, String, Bool, true, false, List, [], ◌∷◌, ◌++◌, Option, none, some, Result, ok, throw,
  internal_server_error, nat_eq,
}
use schulcloud_server.Domain.User.{EntityId}
use schulcloud_server.FileStorage.Record.{or_default}

abbrev pub NodePath : Type 0
NodePath = List EntityId

pub data BoardNodeType : Type 0 where
  of_column_board of_column of_card of_text_element : BoardNodeType

-- What a node of each class has of its own.
pub data Content : Type 0 where
  column_board : (title : String) → Content
  column : (title : String) → Content
  card : (title : String) → (height : ℕ) → Content
  text_element : (text : String) → Content

pub record BoardNode : Type 0 where
  pub id : EntityId
  pub path : NodePath
  pub level : ℕ
  pub position : ℕ
  pub content : Content
  pub created_at : ℕ
  pub updated_at : ℕ

unfoldable pub join_path : NodePath → EntityId → NodePath
join_path path id = path ++ id ∷ []

unfoldable pub path_of_children : BoardNode → NodePath
path_of_children n = join_path n.path n.id

-- What the constructor takes of the parent, whose id is missing until it is stored, and what it sets.
pub record Parent : Type 0 where
  pub id : Option EntityId
  pub path : NodePath
  pub level : ℕ

pub record Place : Type 0 where
  pub path : NodePath
  pub level : ℕ
  pub position : ℕ

abbrev pub place_under : (id : Option EntityId) → Parent → (position : ℕ) → Result Place
place_under none parent position =
    throw (internal_server_error "Cannot create board node with a parent having no id")
place_under (some id) parent position =
    ok (record { path = join_path parent.path id; level = parent.level + 1; position = position })

unfoldable pub new_board_node : (parent : Option Parent) → (position : Option ℕ) → Result Place
new_board_node none position =
    ok (record { path = []; level = 0; position = or_default position 0 })
new_board_node (some parent) position = place_under parent.id parent (or_default position 0)

abbrev pub ancestor_ids : BoardNode → List EntityId
ancestor_ids n = n.path

abbrev pub last_id : List EntityId → Option EntityId
last_id [] = none
last_id (i ∷ []) = some i
last_id (i ∷ j ∷ is) = last_id (j ∷ is)

unfoldable pub parent_id : BoardNode → Option EntityId
parent_id n = last_id (ancestor_ids n)

abbrev pub type_of : Content → BoardNodeType
type_of (column_board _) = of_column_board
type_of (column _) = of_column
type_of (card _ _) = of_card
type_of (text_element _) = of_text_element

abbrev pub same_type : BoardNodeType → BoardNodeType → Bool
same_type of_column_board of_column_board = true
same_type of_column of_column = true
same_type of_card of_card = true
same_type of_text_element of_text_element = true
same_type _ _ = false
