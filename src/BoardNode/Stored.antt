-- ===== src/BoardNode/Stored.antt =====
-- column-board.repo.ts: a database that holds the nodes of several boards.
use schulcloud_server.Prelude.{
  clash, Option-cases, includes, ◌⊎◌, ℕ, suc, Bool, true, false, ◌&&◌, List, [], ◌∷◌, ◌++◌, some,
  ◌≡◌, refl, sym, ap, ◌∙◌, arith, All, Memᴰ, ok, all, is_distinct, nat_eq, ◌==◌, ==_iff, filterb,
  length, Bool-cases, inl, inr,
}
use mathlib.Core.Path.{subst}
use mathlib.Core.List.{Permᴰ}
use mathlib.Core.List.Permᴰ
use schulcloud_server.Domain.User.{EntityId}
use schulcloud_server.BoardNode.Node.{NodePath, BoardNode, of_column_board, same_type, type_of}
use schulcloud_server.BoardNode.Builder.{TextElement, Card, Column, ColumnBoard, same_path}
use schulcloud_server.BoardNode.Children.{at}
use schulcloud_server.BoardNode.Level.{flatten, ids, ids-mem, at-below, flatten-All, flatten-inside}
use schulcloud_server.BoardNode.Flat.{
  element_node, card_node, column_node, board_node, below_element, below_card, below_column,
  descendants, distinct_board, inside_column,
}
use schulcloud_server.BoardNode.RoundTrip.{Below, Permᴰ_same, build_whole_board, all-mem}
use schulcloud_server.BoardNode.Order.{filter-Permᴰ}
use schulcloud_server.BoardNode.Repo.{
  EntityManager, find_descendants, find_column_board_by_id, in_depth, begins_with,
}

abbrev pub board_id : ColumnBoard → EntityId
board_id b = b.id

abbrev pub column_id : Column → EntityId
column_id c = c.id

abbrev card_id : Card → EntityId
card_id k = k.id

abbrev element_id : TextElement → EntityId
element_id e = e.id

-- A board stands at no position.
abbrev pub stored_board : NodePath → (position : ℕ) → ColumnBoard → BoardNode
stored_board path position b = record (board_node b) { path = path; level = length path }

abbrev pub below_board : NodePath → ColumnBoard → List BoardNode
below_board path b = flatten column_id column_node below_column (path ++ b.id ∷ []) 0 b.columns

-- The nodes of all these boards.
unfoldable pub nodes_of_boards : List ColumnBoard → List BoardNode
nodes_of_boards bs = flatten board_id stored_board below_board [] 0 bs

-- What lies below a board is no board.
Inner : BoardNode → Type 0
Inner n = same_type (type_of n.content) of_column_board ≡ false

Inner-board : (p : NodePath) (b : ColumnBoard) → All Inner (below_board p b)
unfolding Inner
Inner-board p b =
    flatten-All column_id column_node below_column Inner (p ++ b.id ∷ []) 0 b.columns (λ _ _. refl)
      (λ c.
        flatten-All card_id card_node below_card Inner ((p ++ b.id ∷ []) ++ c.id ∷ []) 0 c.cards
          (λ _ _. refl)
          (λ k.
            flatten-All element_id element_node below_element Inner
              (((p ++ b.id ∷ []) ++ c.id ∷ []) ++ k.id ∷ []) 0 k.elements (λ _ _. refl) (λ _. tt)))

-- The nodes of a board are in the depth that the query asks for.
Reached : BoardNode → Type 0
Reached n = in_depth 0 (some 3) n ≡ true

Reached-board : (b : ColumnBoard) → All Reached (descendants b)
unfolding Reached descendants
Reached-board b =
    flatten-All column_id column_node below_column Reached (b.id ∷ []) 0 b.columns (λ _ _. refl)
      (λ c.
        flatten-All card_id card_node below_card Reached (b.id ∷ c.id ∷ []) 0 c.cards (λ _ _. refl)
          (λ k.
            flatten-All element_id element_node below_element Reached (b.id ∷ c.id ∷ k.id ∷ []) 0
              k.elements (λ _ _. refl) (λ _. tt)))

filter-All :
    (g : BoardNode → Bool) (ns : List BoardNode) → All (λ n. g n ≡ true) ns → filterb g ns ≡ ns
filter-All g [] h = refl
filter-All g (n ∷ ns) (hit, h) = rw hit (ap (λ l. n ∷ l) (filter-All g ns h))

filter-filter :
    (f g : BoardNode → Bool) (ns : List BoardNode)
    → filterb f (filterb g ns) ≡ filterb g (filterb f ns)
filter-filter f g [] = refl
filter-filter f g (n ∷ ns) = ground (arith, filter-filter f g ns)

All-filter :
    (P : BoardNode → Type 0) (f : BoardNode → Bool) (ns : List BoardNode)
    → All P ns
    → All P (filterb f ns)
All-filter P f [] h = tt
All-filter P f (n ∷ ns) (p, h) = elim (Bool-cases (f n)) [
  | inl hit ↦ rw hit (p, All-filter P f ns h)
  | inr miss ↦ rw miss (All-filter P f ns h)
]

abbrev is_board : EntityId → BoardNode → Bool
is_board id n = same_type (type_of n.content) of_column_board && n.id == id

All-mem :
    (P : BoardNode → Type 0) (ns : List BoardNode) (n : BoardNode) → All P ns → Memᴰ n ns → P n
All-mem P [] n h m = elim m [ ]
All-mem P (k ∷ ns) n (first, rest) (Memᴰ.head e) = subst P (sym e) first
All-mem P (k ∷ ns) n (first, rest) (Memᴰ.tail m) = All-mem P ns n rest m

mem_append : (xs ys : List BoardNode) (n : BoardNode) → Memᴰ n (xs ++ ys) → Memᴰ n xs ⊎ Memᴰ n ys
mem_append [] ys n m = inr m
mem_append (x ∷ xs) ys n (Memᴰ.head e) = inl (Memᴰ.head e)
mem_append (x ∷ xs) ys n (Memᴰ.tail m) = elim (mem_append xs ys n m) [
  | inl left ↦ inl (Memᴰ.tail left)
  | inr right ↦ inr right
]

mem_after : (xs ys : List BoardNode) (n : BoardNode) → Memᴰ n ys → Memᴰ n (xs ++ ys)
mem_after [] ys n m = m
mem_after (x ∷ xs) ys n m = Memᴰ.tail (mem_after xs ys n m)

pub mem-Permᴰ : {xs ys : List BoardNode} {n : BoardNode} → Permᴰ xs ys → Memᴰ n xs → Memᴰ n ys
mem-Permᴰ Permᴰ.nil m = m
mem-Permᴰ (Permᴰ.cons e p) (Memᴰ.head k) = Memᴰ.head (k ∙ e)
mem-Permᴰ (Permᴰ.cons e p) (Memᴰ.tail m) = Memᴰ.tail (mem-Permᴰ p m)
mem-Permᴰ (Permᴰ.swap e e') (Memᴰ.head k) = Memᴰ.tail (Memᴰ.head (k ∙ e))
mem-Permᴰ (Permᴰ.swap e e') (Memᴰ.tail (Memᴰ.head k)) = Memᴰ.head (k ∙ e')
mem-Permᴰ (Permᴰ.swap e e') (Memᴰ.tail (Memᴰ.tail m)) = Memᴰ.tail (Memᴰ.tail m)
mem-Permᴰ (Permᴰ.trans p q) m = mem-Permᴰ q (mem-Permᴰ p m)

-- Among the nodes of some boards, one that is found as a board with an id is the node of such a board.
board_of :
    (i : ℕ) (bs : List ColumnBoard) (id : EntityId) (n : BoardNode)
    → Memᴰ n (flatten board_id stored_board below_board [] i bs)
    → is_board id n ≡ true
    → (c : ColumnBoard) × Memᴰ c bs × (c.id ≡ id) × (n ≡ board_node c)
unfolding Inner
board_of i [] id n m h = elim m [ ]
board_of i (c ∷ bs) id n (Memᴰ.head e) h =
    (c, Memᴰ.head refl, (==_iff c.id id).0 (sym (ap (is_board id) e) ∙ h), e)
board_of i (c ∷ bs) id n (Memᴰ.tail m) h =
    elim (mem_append (below_board [] c) (flatten board_id stored_board below_board [] (suc i) bs) n
      m) [
        | inl within ↦
            let inner : same_type (type_of n.content) of_column_board ≡ false =
              All-mem Inner (below_board [] c) n (Inner-board [] c) within in
            absurd (clash (sym (ground (arith, inner)) ∙ h))
        | inr later ↦
            let (d, m', same, e) = board_of (suc i) bs id n later h in (d, Memᴰ.tail m', same, e)
      ]

board_within :
    (i : ℕ) (bs : List ColumnBoard) (b : ColumnBoard)
    → Memᴰ b bs
    → Memᴰ (board_node b) (flatten board_id stored_board below_board [] i bs)
board_within i [] b m = elim m [ ]
board_within i (c ∷ bs) b (Memᴰ.head e) = Memᴰ.head (ap board_node e)
board_within i (c ∷ bs) b (Memᴰ.tail m) =
    Memᴰ.tail (mem_after (below_board [] c) _ (board_node b) (board_within (suc i) bs b m))

same_board :
    (bs : List ColumnBoard) (b c : ColumnBoard)
    → is_distinct (ids board_id stored_board below_board bs) ≡ true
    → Memᴰ b bs
    → Memᴰ c bs
    → c.id ≡ b.id
    → c ≡ b
same_board [] b c distinct m k e = elim m [ ]
same_board (d ∷ bs) b c distinct (Memᴰ.head x) (Memᴰ.head y) e = y ∙ sym x
same_board (d ∷ bs) b c distinct (Memᴰ.head x) (Memᴰ.tail k) e =
    absurd (twice (e ∙ ap board_id x) (ids-mem board_id stored_board below_board bs c k))
  where
    twice : c.id ≡ d.id → ¬ (includes (ids board_id stored_board below_board bs) c.id ≡ true)
    twice same here = clash (
        sym
          (ap (includes (ids board_id stored_board below_board bs)) same ∙ ground (arith, distinct))
        ∙ here)
same_board (d ∷ bs) b c distinct (Memᴰ.tail m) (Memᴰ.head y) e =
    absurd (twice (sym e ∙ ap board_id y) (ids-mem board_id stored_board below_board bs b m))
  where
    twice : b.id ≡ d.id → ¬ (includes (ids board_id stored_board below_board bs) b.id ≡ true)
    twice same here = clash (
        sym
          (ap (includes (ids board_id stored_board below_board bs)) same ∙ ground (arith, distinct))
        ∙ here)
same_board (d ∷ bs) b c distinct (Memᴰ.tail m) (Memᴰ.tail k) e =
    same_board bs b c (ground (arith, distinct)) m k e

board_found :
    (em : EntityManager) (bs : List ColumnBoard) (b : ColumnBoard)
    → Permᴰ em.stored (nodes_of_boards bs)
    → is_distinct (ids board_id stored_board below_board bs) ≡ true
    → Memᴰ b bs
    → em.find_one (is_board b.id) ≡ some (board_node b)
unfolding nodes_of_boards
board_found em bs b stored distinct m = elim (Option-cases (em.find_one (is_board b.id))) [
  | inl missing ↦ absurd (
      clash (
        sym (
          em.find_one-none (is_board b.id) (board_node b) missing
            (mem-Permᴰ (Permᴰ.symm stored) (board_within 0 bs b m)))
        ∙ (==_iff b.id b.id).1 refl))
  | inr (n, found) ↦
      let (inside, fits) = em.find_one-found (is_board b.id) n found in
      let (c, k, same, e) = board_of 0 bs b.id n (mem-Permᴰ stored inside) fits in
      found ∙ ap some (e ∙ ap board_node (same_board bs b c distinct m k same))
]

-- In a database that holds the nodes of some boards, in any order, whose ids differ and in each
-- of which the children of a node have different ids, finding one of these boards by its id gives
-- that board: its columns, cards and elements, each in its place, in whatever order a query gives
-- the nodes that fulfil it.
pub find_column_board_by_id_lem :
    (em : EntityManager) (bs : List ColumnBoard) (b : ColumnBoard)
    → Permᴰ em.stored (nodes_of_boards bs)
    → is_distinct (ids board_id stored_board below_board bs) ≡ true
    → all distinct_board bs ≡ true
    → Memᴰ b bs
    → find_column_board_by_id em b.id ≡ ok b
unfolding find_column_board_by_id find_descendants nodes_of_boards descendants Reached
find_column_board_by_id_lem em bs b stored distinct siblings m =
    rw (board_found em bs b stored distinct m)
      (build_whole_board (em.find reach) b (all-mem distinct_board bs b siblings m) below)
  where
    reach : BoardNode → Bool
    reach n = begins_with [] n.path && in_depth 0 (some 3) n

    found : Permᴰ (em.find reach) (filterb reach (nodes_of_boards bs))
    found = Permᴰ.trans (em.find_lem reach) (filter-Permᴰ reach stored)

    below : Below (em.find reach) (b.id ∷ []) (descendants b)
    below t extends = Permᴰ_same (filter-Permᴰ (λ n. same_path n.path t) found) (
        filter-filter (λ n. same_path n.path t) reach (nodes_of_boards bs)
        ∙ ap (filterb reach) (
            at-below board_id stored_board below_board (λ _ _ _. refl)
              (λ p x.
                flatten-inside column_id column_node below_column (λ _ _ _. refl) inside_column
                  (p ++ x.id ∷ []) 0 x.columns)
              [] t 0 bs b distinct m extends)
        ∙ filter-All reach (at t (descendants b))
            (All-filter Reached (λ n. same_path n.path t) (descendants b) (Reached-board b)))
