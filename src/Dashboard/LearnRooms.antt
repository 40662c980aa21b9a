-- ===== src/Dashboard/LearnRooms.antt =====
-- dashboard.entity.ts: bringing the grid in line with the user's courses.
pub mod OpenIndex
pub mod Removal
pub mod Coverage
use schulcloud_server.Prelude.{
  ℕ, zero, suc, ◌+◌, ◌<◌, ◌≤◌, Bool, true, false, not, ◌||◌, List, [], ◌∷◌, ◌++◌, Option, none,
  some, Result, ok, ◌>>=◌, length, includes, includes-append, if◌then◌else◌, ◌≡◌, ◌≢◌, refl, sym,
  arith, is_some, filterb, get_elem?, eqb, Bool-cases, ap, ◌∙◌, ◌⊎◌, inl, inr,
}
use schulcloud_server.Dashboard.Element.{
  Learnroom, learnroom_eq, same_room, same_room_iff, Metadata, GridElement, from_single_reference,
  remove_reference, remove_at, index_of,
}
use schulcloud_server.Dashboard.Map
use schulcloud_server.Dashboard.Map.{Entries, keys, all_rooms, get-set}
use schulcloud_server.Dashboard.Grid.{Dashboard}

-- The `forEach` of `removeRoomsNotInList` over `element.getReferences()`. It walks the array by
-- index, and `removeReference` takes entries out of that very array: `rounds` is how many indices
-- are left to visit, `i` the index. A visit past the end does nothing.
unfoldable pub remove_missing_from :
    (rooms : List Learnroom) → (rounds i : ℕ) → GridElement → Result GridElement
remove_missing_from rooms zero i e = ok e
remove_missing_from rooms (suc rounds) i e = elim (get_elem? e.references i) [
  | none ↦ ok e
  | some r ↦ (if includes rooms r then ok e else remove_reference r e) >>= λ e'.
      remove_missing_from rooms rounds (suc i) e'
]

unfoldable pub remove_missing : (rooms : List Learnroom) → GridElement → Result GridElement
unfolding remove_missing_from
remove_missing rooms e = remove_missing_from rooms (length e.references) 0 e

-- The loop of `removeRoomsNotInList` over the keys.
unfoldable pub remove_rooms_at : (rooms : List Learnroom) → List ℕ → Entries → Result Entries
remove_rooms_at rooms [] grid = ok grid
remove_rooms_at rooms (key ∷ ks) grid = elim (Map.get grid key) [
  | none ↦ remove_rooms_at rooms ks grid
  | some e ↦ remove_missing rooms e >>= λ e'.
      remove_rooms_at rooms ks
        (if eqb (length e'.references) 0 then Map.delete grid key else Map.set grid key e')
]

unfoldable pub remove_rooms_not_in_list : List Learnroom → Entries → Result Entries
unfolding remove_rooms_at
remove_rooms_not_in_list room_list grid = remove_rooms_at room_list (keys grid) grid

unfoldable pub determine_new_rooms_in : List Learnroom → Entries → List Learnroom
determine_new_rooms_in rooms grid = filterb (λ r. not (includes (all_rooms grid) r)) rooms

-- The `while` of `getFirstOpenIndex`. There is an open index among the first `length grid + 1`.
unfoldable pub first_open_from : (fuel i : ℕ) → Entries → ℕ
first_open_from zero i grid = i
first_open_from (suc fuel) i grid = elim (Map.get grid i) [
  | none ↦ i
  | some _ ↦ first_open_from fuel (suc i) grid
]

unfoldable pub get_first_open_index : Entries → ℕ
unfolding first_open_from
get_first_open_index grid = first_open_from (length grid) 0 grid

module _ (meta : ℕ → Metadata) where
  unfoldable pub add_room : Learnroom → Entries → Entries
  add_room r grid = Map.set grid (get_first_open_index grid) (from_single_reference meta r)

  abbrev pub add_rooms : List Learnroom → Entries → Entries
  add_rooms [] grid = grid
  add_rooms (r ∷ rs) grid = add_rooms rs (add_room r grid)

  unfoldable pub set_learn_rooms : List Learnroom → Dashboard → Result Dashboard
  set_learn_rooms rooms d = do
    grid ← remove_rooms_not_in_list rooms d.grid
    let new_rooms = determine_new_rooms_in rooms grid
    ok (record d { grid = add_rooms new_rooms grid })
