-- ===== src/Dashboard/Placing.antt =====
-- `moveElement` (dashboard.entity.ts) and the places of the grid.
use schulcloud_server.Prelude.{
  ℕ, ◌≡◌, ◌≢◌, refl, sym, ap, ◌∙◌, true, List, [], Option, none, some, ok, arith, is_distinct,
  nat_eq, ok_inj, >>=-returns,
}
use schulcloud_server.Dashboard.Element.{Metadata, GridElement, remove_reference_by_index}
use schulcloud_server.Dashboard.Map
use schulcloud_server.Dashboard.Map.{
  Entries, keys, get-set, get-set_ne, get-delete_ne, get-delete_self, keys-set,
}
use schulcloud_server.Dashboard.Grid.{
  GridPosition, GridPositionWithGroupIndex, Dashboard, grid_index_from_position, get_element,
  get_references_from_position, pick, merged, merge_element_into_position, remove_by,
  remove_from_position, move_element,
}
use schulcloud_server.Dashboard.Moving.{move_element-Moved}

module _ (meta : ℕ → Metadata) where
  remove_by_ne :
      (gi : Option ℕ) (g g' : Entries) (f k : ℕ) (e : GridElement)
      → remove_by meta gi g f e ≡ ok g'
      → f ≢ k
      → Map.get g' k ≡ Map.get g k
  remove_by_ne none g g' f k e h apart =
      ap (λ x. Map.get x k) (sym (ok_inj h)) ∙ get-delete_ne g f k apart
  remove_by_ne (some i) g g' f k e h apart =
      let (smaller, _, placed) = >>=-returns (remove_reference_by_index i e) _ h in
      ap (λ x. Map.get x k) (sym (ok_inj placed)) ∙ get-set_ne g f k smaller apart

  -- A move that succeeds leaves every place but its origin and its target as it was.
  pub move_element-elsewhere :
      (d : Dashboard) (from to : GridPositionWithGroupIndex) (subs : List ℕ) (d' : Dashboard)
      (res : GridPosition × GridElement) (f t : ℕ)
      → move_element meta d from to subs ≡ ok (d', res)
      → grid_index_from_position d.columns from.pos ≡ ok f
      → grid_index_from_position d.columns to.pos ≡ ok t
      → (k : ℕ) → f ≢ k
      → t ≢ k
      → Map.get d'.grid k ≡ Map.get d.grid k
  move_element-elsewhere d from to subs d' res f t h hf ht k not_f not_t =
      let m = move_element-Moved meta d from to subs d' res f t h hf ht in
      remove_by_ne from.group_index m.grid' d'.grid f k m.element' m.removed not_f
      ∙ ap (λ g. Map.get g k) m.merged_there
      ∙ get-set_ne d.grid t k
          (merged meta (Map.get d.grid t) (pick meta from.group_index m.element)) not_t

  -- The board after a whole element was put on its own place.
  lost : Dashboard → GridElement → (f : ℕ) → Dashboard
  lost d e f = record d { grid = Map.delete (Map.set d.grid f (merged meta (some e) e)) f }

  -- On a grid with one entry for each key, a move of a whole element onto its own place, with
  -- no substitution courses given, succeeds and leaves nothing there.
  pub move_element_onto_itself :
      (d : Dashboard) (pos : GridPosition) (e : GridElement) (f : ℕ)
      → is_distinct (keys d.grid) ≡ true
      → grid_index_from_position d.columns pos ≡ ok f
      → Map.get d.grid f ≡ some e
      → let here : GridPositionWithGroupIndex = record { pos = pos; group_index = none } in
        (d' : Dashboard) × (res : GridPosition × GridElement) × (move_element meta d here here []
          ≡ ok (d', res))
        × (Map.get d'.grid f ≡ none)
  unfolding move_element get_references_from_position get_element merge_element_into_position
      remove_from_position lost
  move_element_onto_itself d pos e f distinct hf there =
      let put = merged meta (some e) e in
      let put_there : Map.get (Map.set d.grid f put) f ≡ some put =
        ground (arith, get-set d.grid f f put) in
      let gone = get-delete_self (Map.set d.grid f put) f (keys-set d.grid f put distinct) in
      (lost d e f, (pos, put), rw (hf, there) (rw (hf, put_there) (rw gone refl)), gone)
