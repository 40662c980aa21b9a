-- ===== src/BoardNode/Repo.antt =====
-- modules/board/repo: board-node.repo.ts, column-board.repo.ts and card.repo.ts over the entity
-- manager, which is a parameter. That a path matches `^` and another is that its list begins with
-- the other's, since each id ends in a comma.
use schulcloud_server.Prelude.{
  ℕ, ◌+◌, Bool, true, false, ◌&&◌, List, [], ◌∷◌, Option, none, some, Result, ok, throw, not_found,
  ◌>>=◌, map_result, ltb, leb, ◌==◌, nat_eq, any, filterb, Memᴰ, ◌≡◌,
}
use mathlib.Core.List.{Permᴰ}
use schulcloud_server.Domain.User.{EntityId}
use schulcloud_server.BoardNode.Node.{
  NodePath, BoardNode, Content, column_board, card, of_column_board, of_card, same_type, type_of,
  path_of_children,
}
use schulcloud_server.BoardNode.Builder.{
  Card, ColumnBoard, ChildrenMap, same_path, nodes_at, push_all, new_builder, build_card,
  build_column_board,
}

-- `em.find` and `em.findOne` by a query, in a database that holds these nodes. No order is asked
-- for, so what is found may come in any.
pub record EntityManager : Type 0 where
  pub stored : List BoardNode
  pub find : (BoardNode → Bool) → List BoardNode
  pub find_one : (BoardNode → Bool) → Option BoardNode
  pub find_lem : (p : BoardNode → Bool) → Permᴰ (find p) (filterb p stored)
  pub find_one-found :
      (p : BoardNode → Bool) (n : BoardNode) → find_one p ≡ some n → Memᴰ n stored × (p n ≡ true)
  pub find_one-none :
      (p : BoardNode → Bool) (n : BoardNode) → find_one p ≡ none → Memᴰ n stored → p n ≡ false

abbrev pub begins_with : (start path : NodePath) → Bool
begins_with [] path = true
begins_with (i ∷ start) [] = false
begins_with (i ∷ start) (j ∷ path) = i == j && begins_with start path

-- The query on the level; without a depth it has no upper bound.
abbrev pub in_depth : (level : ℕ) → (depth : Option ℕ) → BoardNode → Bool
in_depth level none n = ltb level n.level
in_depth level (some depth) n = ltb level n.level && leb n.level (level + depth)

abbrev pub or_fail : Option BoardNode → Result BoardNode
or_fail none = throw (not_found "BoardNode")
or_fail (some n) = ok n

-- A node that was found as one of a class has the content of the class.
abbrev pub as_column_board : ChildrenMap → BoardNode → Content → Result ColumnBoard
as_column_board builder n (column_board title) = build_column_board builder n title
as_column_board builder n _ = throw (not_found "ColumnBoardNode")

abbrev pub as_card : ChildrenMap → BoardNode → Content → Result Card
as_card builder n (card title height) = build_card builder n title height
as_card builder n _ = throw (not_found "CardNode")

module _ (em : EntityManager) where
  unfoldable pub find_descendants : BoardNode → (depth : Option ℕ) → List BoardNode
  find_descendants n depth = em.find (λ m. begins_with n.path m.path && in_depth n.level depth m)

  unfoldable pub find_children_of_many : List BoardNode → ChildrenMap
  find_children_of_many ns =
      push_all [] (em.find (λ m. any (λ n. same_path (path_of_children n) m.path) ns))

  unfoldable pub find_column_board_by_id : EntityId → Result ColumnBoard
  find_column_board_by_id id = do
    n ← or_fail (em.find_one (λ m. same_type (type_of m.content) of_column_board && m.id == id))
    as_column_board (new_builder (find_descendants n (some 3))) n n.content

  unfoldable pub find_card_by_id : EntityId → Result Card
  find_card_by_id id = do
    n ← or_fail (em.find_one (λ m. same_type (type_of m.content) of_card && m.id == id))
    as_card (new_builder (find_descendants n (some 2))) n n.content

  unfoldable pub find_cards_by_ids : List EntityId → Result (List Card)
  find_cards_by_ids ids =
      let ns = em.find (λ m. same_type (type_of m.content) of_card && any (λ i. i == m.id) ids) in
      let children = find_children_of_many ns in
      map_result (λ n. as_card (new_builder (nodes_at children (path_of_children n))) n n.content)
        ns
