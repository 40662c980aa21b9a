-- ===== src/Dashboard/Map.antt =====
-- `Map<number, IGridElement>`: the entries in the order of their insertion.
use schulcloud_server.Prelude.{
  ℕ, ◌+◌, true, false, List, [], ◌∷◌, ◌++◌, Option, none, some, ◌≡◌, ◌≢◌, refl, eqb, arith,
  if◌then◌else◌, nat_eq, includes, is_distinct, ◌||◌,
}
use schulcloud_server.Dashboard.Element.{Learnroom, GridElement}
use schulcloud_server.Dashboard.Element.Order.{count, count-append}

abbrev pub Entries : Type 0
Entries = List (ℕ × GridElement)

unfoldable pub get : Entries → ℕ → Option GridElement
get [] k = none
get ((j, e) ∷ m) k = if eqb j k then some e else get m k

unfoldable pub set : Entries → ℕ → GridElement → Entries
set [] k v = (k, v) ∷ []
set ((j, e) ∷ m) k v = if eqb j k then (k, v) ∷ m else (j, e) ∷ set m k v

unfoldable pub delete : Entries → ℕ → Entries
delete [] k = []
delete ((j, e) ∷ m) k = if eqb j k then m else (j, e) ∷ delete m k

unfoldable pub keys : Entries → List ℕ
keys [] = []
keys ((j, e) ∷ m) = j ∷ keys m

-- The learn rooms of all elements: `allRooms`.
unfoldable pub all_rooms : Entries → List Learnroom
all_rooms [] = []
all_rooms ((j, e) ∷ m) = e.references ++ all_rooms m

pub get-set :
    (m : Entries) (j k : ℕ) (v : GridElement)
    → get (set m j v) k ≡ (if eqb j k then some v else get m k)
unfolding get set
get-set [] j k v = refl
get-set ((i, e) ∷ m) j k v = ground (arith, get-set m j k v)

pub get-set_ne : (m : Entries) (j k : ℕ) (v : GridElement) → j ≢ k → get (set m j v) k ≡ get m k
get-set_ne m j k v h = ground (arith, get-set m j k v)

includes-keys-set :
    (m : Entries) (j k : ℕ) (v : GridElement)
    → includes (keys (set m j v)) k ≡ (eqb j k || includes (keys m) k)
unfolding keys set
includes-keys-set [] j k v = refl
includes-keys-set ((i, e) ∷ m) j k v = ground (arith, includes-keys-set m j k v)

-- A map keeps one entry for each key.
pub keys-set :
    (m : Entries) (k : ℕ) (v : GridElement)
    → is_distinct (keys m) ≡ true
    → is_distinct (keys (set m k v)) ≡ true
unfolding keys set
keys-set [] k v d = refl
keys-set ((j, e) ∷ m) k v d = ground (arith, keys-set m k v, includes-keys-set m k j v)

pub get-delete_ne : (m : Entries) (j k : ℕ) → j ≢ k → get (delete m j) k ≡ get m k
unfolding get delete
get-delete_ne [] j k h = refl
get-delete_ne ((i, e) ∷ m) j k h = ground (arith, get-delete_ne m j k h)

pub get_of_absent : (m : Entries) (k : ℕ) → includes (keys m) k ≡ false → get m k ≡ none
unfolding get keys
get_of_absent [] k h = refl
get_of_absent ((j, e) ∷ m) k h = ground (arith, get_of_absent m k)

pub get-delete_self :
    (m : Entries) (k : ℕ) → is_distinct (keys m) ≡ true → get (delete m k) k ≡ none
unfolding get delete keys
get-delete_self [] k d = refl
get-delete_self ((j, e) ∷ m) k d = ground (arith, get-delete_self m k, get_of_absent m k)

-- How often a room stands in what a key holds.
abbrev pub count_at : Option GridElement → Learnroom → ℕ
count_at none r = 0
count_at (some e) r = count e.references r

pub count-delete :
    (m : Entries) (k : ℕ) (r : Learnroom)
    → count (all_rooms (delete m k)) r + count_at (get m k) r ≡ count (all_rooms m) r
unfolding get delete all_rooms
count-delete [] k r = omega arith
count-delete ((j, e) ∷ m) k r = ground (
  arith,
  count-delete m k r,
  count-append e.references (all_rooms m) r,
  count-append e.references (all_rooms (delete m k)) r,
)

pub count-set :
    (m : Entries) (k : ℕ) (v : GridElement) (r : Learnroom)
    → count (all_rooms (set m k v)) r + count_at (get m k) r
      ≡ count (all_rooms m) r + count v.references r
unfolding get set all_rooms
count-set [] k v r = ground (arith, count-append v.references [] r)
count-set ((j, e) ∷ m) k v r = ground (
  arith,
  count-set m k v r,
  count-append e.references (all_rooms m) r,
  count-append v.references (all_rooms m) r,
  count-append e.references (all_rooms (set m k v)) r,
)
