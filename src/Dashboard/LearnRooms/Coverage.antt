-- ===== src/Dashboard/LearnRooms/Coverage.antt =====
-- `setLearnRooms` of dashboard.entity.ts, and the courses on the grid after it.
use schulcloud_server.Prelude.{
  ℕ, true, false, ◌||◌, List, [], ◌∷◌, ok, ◌≡◌, refl, arith, includes, includes-append, length, eqb,
  Option-cases, inl, inr, is_some, if◌then◌else◌,
}
use schulcloud_server.Dashboard.Element.{
  Learnroom, learnroom_eq, same_room, same_room_iff, Metadata, GridElement, from_single_reference,
}
use schulcloud_server.Dashboard.Map
use schulcloud_server.Dashboard.Map.{Entries, keys, all_rooms}
use schulcloud_server.Dashboard.Grid.{Dashboard}
use schulcloud_server.Dashboard.LearnRooms.{
  remove_rooms_at, remove_rooms_not_in_list, determine_new_rooms_in, get_first_open_index, add_room,
  add_rooms, set_learn_rooms,
}
use schulcloud_server.Dashboard.LearnRooms.OpenIndex.{get_first_open_index_lem}
use schulcloud_server.Dashboard.LearnRooms.Removal.{remove_missing_lem}

-- The removal of stale courses never fails.
remove_rooms_at_returns :
    (rooms : List Learnroom) (ks : List ℕ) (grid : Entries)
    → (grid' : Entries) × (remove_rooms_at rooms ks grid ≡ ok grid')
unfolding remove_rooms_at
remove_rooms_at_returns rooms [] grid = (grid, refl)
remove_rooms_at_returns rooms (k ∷ ks) grid = elim (Option-cases (Map.get grid k)) [
  | inl nothing ↦
      let (grid', returned) = remove_rooms_at_returns rooms ks grid in
      (grid', rw (nothing, remove_rooms_at) returned)
  | inr (e, there) ↦
      let (e', kept, _) = remove_missing_lem rooms e in
      let after = if eqb (length e'.references) 0 then Map.delete grid k else Map.set grid k e' in
      let (grid', returned) = remove_rooms_at_returns rooms ks after in
      (grid', rw (there, remove_rooms_at) (rw kept returned))
]

includes-set :
    (m : Entries) (k : ℕ) (v : GridElement) (r : Learnroom)
    → is_some (Map.get m k) ≡ false
    → includes (all_rooms (Map.set m k v)) r ≡ (includes v.references r || includes (all_rooms m) r)
unfolding Map.get Map.set all_rooms
includes-set [] k v r h = ground (arith, includes-append v.references [] r)
includes-set ((j, e) ∷ m) k v r h = ground (
  arith,
  includes-set m k v r,
  includes-append e.references (all_rooms m) r,
  includes-append e.references (all_rooms (Map.set m k v)) r,
)

includes-determine_new_rooms_in :
    (rooms : List Learnroom) (grid : Entries) (r : Learnroom)
    → includes rooms r ≡ true
    → (includes (all_rooms grid) r || includes (determine_new_rooms_in rooms grid) r) ≡ true
unfolding determine_new_rooms_in
includes-determine_new_rooms_in [] grid r h = cc
includes-determine_new_rooms_in (x ∷ xs) grid r h =
    ground (arith, includes-determine_new_rooms_in xs grid r, same_room_iff x r)

module _ (meta : ℕ → Metadata) where
  includes-add_room :
      (x : Learnroom) (grid : Entries) (r : Learnroom)
      → includes (all_rooms (add_room meta x grid)) r
        ≡ (same_room x r || includes (all_rooms grid) r)
  unfolding add_room from_single_reference
  includes-add_room x grid r = ground (
    arith,
    includes-set grid (get_first_open_index grid) (from_single_reference meta x) r
        ((get_first_open_index_lem grid).0),
  )

  includes-add_rooms :
      (xs : List Learnroom) (grid : Entries) (r : Learnroom)
      → includes (all_rooms (add_rooms meta xs grid)) r
        ≡ (includes (all_rooms grid) r || includes xs r)
  includes-add_rooms [] grid r = ground arith
  includes-add_rooms (x ∷ xs) grid r =
      ground (arith, includes-add_rooms xs (add_room meta x grid) r, includes-add_room x grid r)

  -- Setting the courses of a dashboard never fails, and afterwards each of the courses stands
  -- somewhere on the grid.
  pub set_learn_rooms_lem :
      (rooms : List Learnroom) (d : Dashboard)
      → (d' : Dashboard) × (set_learn_rooms meta rooms d ≡ ok d')
        × ((r : Learnroom) → includes rooms r ≡ true → includes (all_rooms d'.grid) r ≡ true)
  unfolding set_learn_rooms remove_rooms_not_in_list
  set_learn_rooms_lem rooms d =
      let (grid, returned) = remove_rooms_at_returns rooms (keys d.grid) d.grid in
      (
        record d { grid = add_rooms meta (determine_new_rooms_in rooms grid) grid },
        rw returned refl,
        λ r h.
            (ground (
              arith,
              includes-add_rooms (determine_new_rooms_in rooms grid) grid r,
              includes-determine_new_rooms_in rooms grid r h,
            )),
      )
