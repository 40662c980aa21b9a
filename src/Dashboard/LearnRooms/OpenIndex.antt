-- ===== src/Dashboard/LearnRooms/OpenIndex.antt =====
-- `getFirstOpenIndex` of dashboard.entity.ts.
use schulcloud_server.Prelude.{
  ℕ, zero, suc, ◌+◌, ◌<◌, ◌≤◌, true, false, List, [], ◌∷◌, length, includes, is_distinct, ◌≡◌, refl,
  arith, is_some, nat_eq, ltb, length-le_of_includes, Option-cases, inl, inr,
}
use schulcloud_server.Dashboard.Map
use schulcloud_server.Dashboard.Map.{Entries, keys}
use schulcloud_server.Dashboard.LearnRooms.{first_open_from, get_first_open_index}

below : ℕ → List ℕ
below zero = []
below (suc n) = n ∷ below n

includes-below : (n k : ℕ) → includes (below n) k ≡ ltb k n
unfolding below
includes-below zero k = ground arith
includes-below (suc n) k = ground (arith, includes-below n k)

is_distinct-below : (n : ℕ) → is_distinct (below n) ≡ true
unfolding below
is_distinct-below zero = refl
is_distinct-below (suc n) = ground (arith, includes-below n n, is_distinct-below n)

length-below : (n : ℕ) → length (below n) ≡ n
unfolding below
length-below zero = refl
length-below (suc n) = omega (arith, length-below n)

length-keys : (m : Entries) → length (keys m) ≡ length m
unfolding keys
length-keys [] = refl
length-keys ((j, e) ∷ m) = omega (arith, length-keys m)

includes-keys_of_get : (m : Entries) (k : ℕ) → is_some (Map.get m k) ≡ includes (keys m) k
unfolding keys Map.get
includes-keys_of_get [] k = refl
includes-keys_of_get ((j, e) ∷ m) k = ground (arith, includes-keys_of_get m k)

-- The keys 0 to n - 1 are all taken.
abbrev AllTaken : ℕ → Entries → Type 0
AllTaken n grid = (k : ℕ) → k < n → is_some (Map.get grid k) ≡ true

AllTaken-le : (n : ℕ) (grid : Entries) → AllTaken n grid → n ≤ length grid
AllTaken-le n grid taken =
    let fits =
      length-le_of_includes (below n) (keys grid) (is_distinct-below n)
        λ k h. ground (arith, includes-below n k, taken k, includes-keys_of_get grid k) in
    omega (arith, fits, length-below n, length-keys grid)

first_open_from_lem :
    (fuel i : ℕ) (grid : Entries)
    → length grid ≤ fuel + i
    → AllTaken i grid
    → (is_some (Map.get grid (first_open_from fuel i grid)) ≡ false)
      × AllTaken (first_open_from fuel i grid) grid
unfolding first_open_from
first_open_from_lem zero i grid enough taken = elim (Option-cases (Map.get grid i)) [
  | inl free ↦ (rw free refl, taken)
  | inr (e, there) ↦
      let more : AllTaken (suc i) grid = λ k h. ground (arith, taken k, there) in
      absurd (omega (arith, AllTaken-le (suc i) grid more))
]
first_open_from_lem (suc fuel) i grid enough taken = elim (Option-cases (Map.get grid i)) [
  | inl free ↦ rw (free, first_open_from) (rw free refl, taken)
  | inr (e, there) ↦
      rw (there, first_open_from)
        (first_open_from_lem fuel (suc i) grid (omega arith) λ k h. ground (arith, taken k, there))
]

-- The search for an open index ends at a key that holds nothing, below which every key is taken.
pub get_first_open_index_lem :
    (grid : Entries)
    → (is_some (Map.get grid (get_first_open_index grid)) ≡ false)
      × ((k : ℕ) → k < get_first_open_index grid → is_some (Map.get grid k) ≡ true)
unfolding get_first_open_index
get_first_open_index_lem grid =
    first_open_from_lem (length grid) 0 grid (omega arith) λ k h. elim h [ ]
