-- ===== src/Dashboard/Moving.antt =====
-- The steps of `moveElement` (dashboard.entity.ts), and the learn rooms that it keeps.
use schulcloud_server.Prelude.{
  ℕ, zero, suc, ◌+◌, true, false, List, [], ◌∷◌, Option, none, some, ok, ◌∙◌, ◌≡◌, ◌≢◌, refl, sym,
  arith, >>=-returns, ok_inj, some_inj, ap, get_elem?, length, nat_eq, leb,
}
use schulcloud_server.Dashboard.Element.{
  Learnroom, Metadata, GridElement, is_group, from_single_reference, remove_reference_by_index,
  remove_at, learnroom_eq,
}
use schulcloud_server.Dashboard.Element.Order.{count, count-remove_at, count-add_references}
use schulcloud_server.Dashboard.Map
use schulcloud_server.Dashboard.Map.{
  Entries, get-set, get-set_ne, get-delete_ne, get-delete_self, count_at, count-set, count-delete,
  all_rooms, keys,
}
use schulcloud_server.Dashboard.Grid.{
  GridPosition, GridPositionWithGroupIndex, Dashboard, grid_index_from_position, or_not_found,
  get_element, check_substitutes, get_references_from_position, pick, at, merged,
  merge_element_into_position, remove_by, remove_from_position, move_element,
}

-- What a successful removal by index took away.
remove_reference_by_index_lem :
    (i : ℕ) (e smaller : GridElement)
    → remove_reference_by_index i e ≡ ok smaller
    → (is_group e ≡ true)
      × (smaller.references ≡ remove_at e.references i)
      × (leb (length e.references) i ≡ false)
unfolding remove_reference_by_index is_group
remove_reference_by_index_lem i e smaller h = ground arith

get_elem?-at :
    (meta : ℕ → Metadata) (rs : List Learnroom) (i : ℕ)
    → leb (length rs) i ≡ false
    → get_elem? rs i ≡ some (at meta rs i)
get_elem?-at meta [] i h = ground arith
get_elem?-at meta (x ∷ xs) zero h = refl
get_elem?-at meta (x ∷ xs) (suc i) h = get_elem?-at meta xs i (ground arith)

module _ (meta : ℕ → Metadata) where
  from_single_reference_lem : (x : Learnroom) → (from_single_reference meta x).references ≡ x ∷ []
  unfolding from_single_reference
  from_single_reference_lem x = refl

  count-merged :
      (o : Option GridElement) (e : GridElement) (r : Learnroom)
      → count (merged meta o e).references r ≡ count_at o r + count e.references r
  count-merged none e r = omega arith
  count-merged (some t) e r = count-add_references meta e.references t r

  -- The removal takes from the element at `f` just what was moved.
  count-removed :
      (gi : Option ℕ) (grid grid' : Entries) (f : ℕ) (e : GridElement) (r : Learnroom)
      → Map.get grid f ≡ some e
      → remove_by meta gi grid f e ≡ ok grid'
      → count (all_rooms grid') r + count (pick meta gi e).references r ≡ count (all_rooms grid) r
  count-removed none grid grid' f e r at_f h = ground (arith, count-delete grid f r)
  count-removed (some i) grid grid' f e r at_f h =
      let (smaller, removed, is_set) = >>=-returns (remove_reference_by_index i e) _ h in
      let (group, refs, in_range) = remove_reference_by_index_lem i e smaller removed in
      let x = at meta e.references i in
      let picked : count (pick meta (some i) e).references r ≡ count (x ∷ []) r =
        rw (group, from_single_reference_lem x) refl in
      let taken = count-remove_at e.references i x r (get_elem?-at meta e.references i in_range) in
      let less : count smaller.references r ≡ count (remove_at e.references i) r =
        ap (λ rs. count rs r) refs in
      let placed = count-set grid f smaller r in
      let held : count_at (Map.get grid f) r ≡ count e.references r = ap (λ o. count_at o r) at_f in
      let same : count (all_rooms grid') r ≡ count (all_rooms (Map.set grid f smaller)) r =
        ap (λ g. count (all_rooms g) r) (sym (ok_inj is_set)) in
      omega (arith, picked, taken, less, placed, held, same)

  -- The board and the element that a successful move leaves.
  pub record Moved (d : Dashboard) (from to : GridPositionWithGroupIndex) (d' : Dashboard) (f t : ℕ)
      : Type 0 where
    pub element : GridElement
    pub at_from : Map.get d.grid f ≡ some element
    pub grid' : Entries
    pub merged_there :
        grid'
        ≡ Map.set d.grid t (merged meta (Map.get d.grid t) (pick meta from.group_index element))
    pub element' : GridElement
    pub still_at_from : Map.get grid' f ≡ some element'
    pub removed : remove_by meta from.group_index grid' f element' ≡ ok d'.grid

  get_element_lem :
      (d : Dashboard) (pos : GridPosition) (e : GridElement) (f : ℕ)
      → get_element d pos ≡ ok e
      → grid_index_from_position d.columns pos ≡ ok f
      → Map.get d.grid f ≡ some e
  unfolding get_element
  get_element_lem d pos e f h hf = found (Map.get d.grid f) (rw hf at h)
    where
      found : (o : Option GridElement) → or_not_found o ≡ ok e → o ≡ some e
      found none q = cc
      found (some e') q = ap some (ok_inj q)

  merge_lem :
      (d : Dashboard) (e : GridElement) (pos : GridPosition) (b : Dashboard) (res : GridElement)
      (t : ℕ)
      → merge_element_into_position meta d e pos ≡ ok (b, res)
      → grid_index_from_position d.columns pos ≡ ok t
      → (b.columns ≡ d.columns) × (b.grid ≡ Map.set d.grid t (merged meta (Map.get d.grid t) e))
  unfolding merge_element_into_position
  merge_lem d e pos b res t h ht =
      let same : (record d { grid = Map.set d.grid t (merged meta (Map.get d.grid t) e) }) ≡ b =
        ap (λ (p : Dashboard × GridElement). p.0) (ok_inj (rw ht at h)) in
      (sym (ap (λ (x : Dashboard). x.columns) same), sym (ap (λ (x : Dashboard). x.grid) same))

  remove_lem :
      (d : Dashboard) (from : GridPositionWithGroupIndex) (d' : Dashboard) (f : ℕ)
      → remove_from_position meta d from ≡ ok d'
      → grid_index_from_position d.columns from.pos ≡ ok f
      → (e : GridElement) × (Map.get d.grid f ≡ some e)
        × (remove_by meta from.group_index d.grid f e ≡ ok d'.grid)
  unfolding remove_from_position
  remove_lem d from d' f h hf =
      let (e, got, h1) = >>=-returns (get_element d from.pos) _ h in
      let (grid, removed, h2) =
        >>=-returns (remove_by meta from.group_index d.grid f e) _ (rw hf at h1) in
      (
        e,
        get_element_lem d from.pos e f got hf,
        removed ∙ ap ok (ap (λ (x : Dashboard). x.grid) (ok_inj h2)),
      )

  pub move_element-Moved :
      (d : Dashboard) (from to : GridPositionWithGroupIndex) (subs : List ℕ) (d' : Dashboard)
      (r : GridPosition × GridElement) (f t : ℕ)
      → move_element meta d from to subs ≡ ok (d', r)
      → grid_index_from_position d.columns from.pos ≡ ok f
      → grid_index_from_position d.columns to.pos ≡ ok t
      → Moved d from to d' f t
  unfolding move_element get_references_from_position
  move_element-Moved d from to subs d' r f t h hf ht =
      let (moved_one, got, h1) = >>=-returns (get_references_from_position meta d from) _ h in
      let (e, at_from, picked) = >>=-returns (get_element d from.pos) _ got in
      let (_, _, h2) = >>=-returns (check_substitutes meta d moved_one to.pos subs) _ h1 in
      let (both, is_merged, h3) =
        >>=-returns (merge_element_into_position meta d moved_one to.pos) _ h2 in
      let (b, removed, h4) = >>=-returns (remove_from_position meta both.0 from) _ h3 in
      let (_, _, h5) = >>=-returns (grid_index_from_position d.columns to.pos) _ h4 in
      let (columns, grid) = merge_lem d moved_one to.pos both.0 both.1 t is_merged ht in
      let (e', still, taken) = remove_lem both.0 from b f removed (rw columns hf) in
      let same : pick meta from.group_index e ≡ moved_one = ok_inj picked in
      record {
        element = e;
        at_from = get_element_lem d from.pos e f at_from hf;
        grid' = both.0.grid;
        merged_there = rw same grid;
        element' = e';
        still_at_from = still;
        removed =
            taken
            ∙ ap ok (
                ap (λ (x : Dashboard). x.grid)
                  (ap (λ (p : Dashboard × (GridPosition × GridElement)). p.0) (ok_inj h5)));
      }

  -- A move that succeeds, between two places with different indices, keeps every learn room on
  -- the dashboard as often as it was there.
  pub move_element-conserves :
      (d : Dashboard) (from to : GridPositionWithGroupIndex) (subs : List ℕ) (d' : Dashboard)
      (res : GridPosition × GridElement) (f t : ℕ)
      → move_element meta d from to subs ≡ ok (d', res)
      → grid_index_from_position d.columns from.pos ≡ ok f
      → grid_index_from_position d.columns to.pos ≡ ok t
      → t ≢ f
      → (r : Learnroom) → count (all_rooms d'.grid) r ≡ count (all_rooms d.grid) r
  move_element-conserves d from to subs d' res f t h hf ht apart r =
      let m = move_element-Moved d from to subs d' res f t h hf ht in
      let e = m.element in
      let moved = pick meta from.group_index e in
      let target = merged meta (Map.get d.grid t) moved in
      let merged_grid = Map.set d.grid t target in
      let kept : Map.get merged_grid f ≡ some e = get-set_ne d.grid t f target apart ∙ m.at_from in
      let same_element : e ≡ m.element' =
        some_inj (sym kept ∙ ap (λ g. Map.get g f) (sym m.merged_there) ∙ m.still_at_from) in
      let placed = count-set d.grid t target r in
      let joined = count-merged (Map.get d.grid t) moved r in
      let taken =
        count-removed from.group_index m.grid' d'.grid f m.element' r m.still_at_from m.removed in
      let same_moved : count moved.references r
          ≡ count (pick meta from.group_index m.element').references r =
        ap (λ x. count (pick meta from.group_index x).references r) same_element in
      let same_grid : count (all_rooms m.grid') r ≡ count (all_rooms merged_grid) r =
        ap (λ g. count (all_rooms g) r) m.merged_there in
      omega (arith, placed, joined, taken, same_moved, same_grid)
