-- ===== src/Board.antt =====
-- board.entity.ts and boardelement.entity.ts: the board of a course, which shows its tasks and
-- lessons in an order. A target is a task or a lesson, as its identity and its id.
pub mod Sorting
pub mod Reordering
use schulcloud_server.Prelude.{
  ℕ, suc, Bool, true, false, not, ◌&&◌, List, [], ◌∷◌, ◌++◌, Option, none, some, Result, ok, throw,
  bad_request, not_found, guard, ◌>>=◌, ◌>>◌, map, map_result, filterb, find?, any, ◌==◌, nat_eq,
  leb, if◌then◌else◌,
}
use schulcloud_server.Domain.User.{EntityId}

pub record Target : Type 0 where
  pub ref : ℕ
  pub id : EntityId

pub data ElementType : Type 0 where
  of_task of_lesson : ElementType

pub record BoardElement : Type 0 where
  pub ref : ℕ
  pub element_type : ElementType
  pub target : Target

pub record Board : Type 0 where
  pub course : EntityId
  pub references : List BoardElement

-- `references.set` and `references.remove` of @mikro-orm/core, as functions of what the collection
-- holds.
pub record References : Type 0 where
  pub set : List BoardElement → List BoardElement → List BoardElement
  pub remove : List BoardElement → BoardElement → List BoardElement

abbrev pub same_type : ElementType → ElementType → Bool
same_type of_task of_task = true
same_type of_lesson of_lesson = true
same_type _ _ = false

abbrev pub target_ids : List BoardElement → List EntityId
target_ids es = map (λ e. e.target.id) es

abbrev pub or_missing : Option BoardElement → Result BoardElement
or_missing none = throw (not_found "board does not contain such element")
or_missing (some e) = ok e

unfoldable pub get_element_by_target_id : EntityId → Board → Result BoardElement
get_element_by_target_id id b = or_missing (find? (λ e. e.target.id == id) b.references)

unfoldable pub get_by_target_id : EntityId → Board → Result Target
get_by_target_id id b = get_element_by_target_id id b >>= λ e. ok e.target

-- `[...ids].sort()`
abbrev pub insert_id : EntityId → List EntityId → List EntityId
insert_id i [] = i ∷ []
insert_id i (j ∷ js) = let rest = insert_id i js in if leb i j then i ∷ j ∷ js else j ∷ rest

abbrev pub sort_ids : List EntityId → List EntityId
sort_ids [] = []
sort_ids (i ∷ is) = insert_id i (sort_ids is)

-- Equality of the two texts that `JSON.stringify` makes.
abbrev pub same_ids : List EntityId → List EntityId → Bool
same_ids [] [] = true
same_ids (i ∷ is) (j ∷ js) = i == j && same_ids is js
same_ids _ _ = false

unfoldable pub check_lists_containing_equal_entities : (first second : List EntityId) → Bool
check_lists_containing_equal_entities first second = same_ids (sort_ids first) (sort_ids second)

unfoldable pub validate_reordering : List EntityId → Board → Result (Unit {0})
validate_reordering reordered_ids b =
    guard (check_lists_containing_equal_entities reordered_ids (target_ids b.references)) (
      bad_request
        "elements did not match. please fetch the elements of the board before reordering")

module _ (collection : References) where
  unfoldable pub reorder_elements : List EntityId → Board → Result Board
  reorder_elements ids b = do
    validate_reordering ids b
    elements ← map_result (λ id. get_element_by_target_id id b) ids
    ok (record b { references = collection.set b.references elements })

  -- removeTasksNotInList and removeLessonsNotInList. `filter` has copied the elements that are
  -- visited.
  abbrev pub remove_each :
      (targets : List Target) → List BoardElement → List BoardElement → List BoardElement
  remove_each targets [] references = references
  remove_each targets (e ∷ es) references = remove_each targets es (
      if any (λ t. t.ref == e.target.ref) targets
      then references
      else collection.remove references e)

  unfoldable pub remove_not_in_list : ElementType → List Target → Board → Board
  remove_not_in_list type targets b = record b {
    references =
        remove_each targets (filterb (λ e. same_type e.element_type type) b.references)
          b.references;
  }

  -- FromTask and FromLesson make a new object, whose identity is the next free one.
  abbrev pub from_targets : ElementType → (fresh : ℕ) → List Target → List BoardElement
  from_targets type fresh [] = []
  from_targets type fresh (t ∷ ts) =
      record { ref = fresh; element_type = type; target = t } ∷ from_targets type (suc fresh) ts

  abbrev pub is_on : ElementType → List BoardElement → Target → Bool
  is_on type current t = any (λ e. same_type e.element_type type && e.target.ref == t.ref) current

  -- addTasksOnList and addLessonsOnList.
  unfoldable pub add_on_list : (fresh : ℕ) → ElementType → List Target → Board → Board
  add_on_list fresh type targets b =
      let to_add = filterb (λ t. not (is_on type b.references t)) targets in
      record b {
        references = collection.set b.references (from_targets type fresh to_add ++ b.references);
      }

  -- syncTasksFromList and syncLessonsFromList.
  unfoldable pub sync_from_list : (fresh : ℕ) → ElementType → List Target → Board → Board
  sync_from_list fresh type targets b =
      add_on_list fresh type targets (remove_not_in_list type targets b)
