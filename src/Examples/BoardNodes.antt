-- ===== src/Examples/BoardNodes.antt =====
-- The theorems on board nodes at a database with two boards.
use schulcloud_server.Prelude.{
  ℕ, Bool, true, false, List, [], ◌∷◌, ◌++◌, none, some, ok, ◌≡◌, refl, sym, ap, ◌∙◌, filterb,
  find?, all, Memᴰ, Bool-cases, inl, inr, some_inj,
}
use mathlib.Core.List.{Permᴰ}
use mathlib.Core.List.Permᴰ
use schulcloud_server.BoardNode.Node.{BoardNode}
use schulcloud_server.BoardNode.Order.{filter-Permᴰ}
use schulcloud_server.BoardNode.Builder.{
  TextElement, Card, Column, ColumnBoard, new_builder, build_column_board,
}
use schulcloud_server.BoardNode.Flat.{board_node, descendants, distinct_board}
use schulcloud_server.BoardNode.RoundTrip.{build_column_board-descendants}
use schulcloud_server.BoardNode.Repo.{EntityManager, find_column_board_by_id}
use schulcloud_server.BoardNode.Stored.{nodes_of_boards, mem-Permᴰ, find_column_board_by_id_lem}

abbrev element_of : (id : ℕ) → TextElement
element_of id = record { id = id; text = "some text"; created_at = 1; updated_at = 2 }

abbrev card_of : (id : ℕ) → List TextElement → Card
card_of id elements = record {
  id = id;
  title = "card";
  height = 150;
  elements = elements;
  created_at = 1;
  updated_at = 2;
}

abbrev column_of : (id : ℕ) → List Card → Column
column_of id cards = record {
  id = id;
  title = "column";
  cards = cards;
  created_at = 1;
  updated_at = 2;
}

abbrev board : ColumnBoard
board = record {
  id = 1;
  title = "board";
  columns =
      column_of 12 (card_of 121 (element_of 1212 ∷ element_of 1211 ∷ []) ∷ card_of 122 [] ∷ [])
      ∷ column_of 11 []
      ∷ [];
  created_at = 1;
  updated_at = 2;
}

abbrev other_board : ColumnBoard
other_board = record {
  id = 2;
  title = "another board";
  columns = column_of 21 (card_of 211 [] ∷ []) ∷ [];
  created_at = 3;
  updated_at = 4;
}

abbrev boards : List ColumnBoard
boards = other_board ∷ board ∷ []

abbrev reversed : List BoardNode → List BoardNode
reversed [] = []
reversed (n ∷ ns) = reversed ns ++ n ∷ []

reversed-Permᴰ : (ns : List BoardNode) → Permᴰ (reversed ns) ns
reversed-Permᴰ [] = Permᴰ.nil
reversed-Permᴰ (n ∷ ns) =
    Permᴰ.trans (Permᴰ.append_comm (reversed ns) (n ∷ [])) (Permᴰ.cons refl (reversed-Permᴰ ns))

found_by :
    (p : BoardNode → Bool) (ns : List BoardNode) (n : BoardNode)
    → find? p ns ≡ some n
    → Memᴰ n ns × (p n ≡ true)
found_by p [] n e = cc
found_by p (k ∷ ns) n e = elim (Bool-cases (p k)) [
  | inl hit ↦
      let same : k ≡ n = some_inj (rw hit at e) in (Memᴰ.head (sym same), sym (ap p same) ∙ hit)
  | inr miss ↦ let (inside, fits) = found_by p ns n (rw miss at e) in (Memᴰ.tail inside, fits)
]

missed_by :
    (p : BoardNode → Bool) (ns : List BoardNode) (n : BoardNode)
    → find? p ns ≡ none
    → Memᴰ n ns
    → p n ≡ false
missed_by p [] n e m = elim m [ ]
missed_by p (k ∷ ns) n e m = elim (Bool-cases (p k)) [
  | inl hit ↦ absurd (no_some (rw hit at e))
  | inr miss ↦ elim m [
    | Memᴰ.head same ↦ ap p same ∙ miss
    | Memᴰ.tail later ↦ missed_by p ns n (rw miss at e) later
  ]
]
  where
    no_some : ¬ (some k ≡ none)
    no_some h = cc

-- The nodes lie in the database in the reverse order, and are found in the order of the boards.
abbrev em : EntityManager
em = record {
  stored = reversed (nodes_of_boards boards);
  find = λ p. filterb p (nodes_of_boards boards);
  find_one = λ p. find? p (nodes_of_boards boards);
  find_lem = λ p. filter-Permᴰ p (Permᴰ.symm (reversed-Permᴰ (nodes_of_boards boards)));
  find_one-found = λ p n e.
      let (inside, fits) = found_by p (nodes_of_boards boards) n e in
      (mem-Permᴰ (Permᴰ.symm (reversed-Permᴰ (nodes_of_boards boards))) inside, fits);
  find_one-none = λ p n e m.
      missed_by p (nodes_of_boards boards) n e
        (mem-Permᴰ (reversed-Permᴰ (nodes_of_boards boards)) m);
}

distinct_ids : distinct_board board ≡ true
unfolding distinct_board
distinct_ids = refl

other_distinct_ids : distinct_board other_board ≡ true
unfolding distinct_board
other_distinct_ids = refl

all_distinct : all distinct_board boards ≡ true
all_distinct = rw (distinct_ids, other_distinct_ids) refl

build_column_board-descendants_example :
    build_column_board (new_builder (reversed (descendants board))) (board_node board) "board"
    ≡ ok board
build_column_board-descendants_example =
    build_column_board-descendants (reversed (descendants board)) board
      (reversed-Permᴰ (descendants board)) distinct_ids

find_column_board_by_id_lem_example : find_column_board_by_id em 1 ≡ ok board
find_column_board_by_id_lem_example =
    find_column_board_by_id_lem em boards board (reversed-Permᴰ (nodes_of_boards boards)) refl
      all_distinct (Memᴰ.tail (Memᴰ.head refl))
