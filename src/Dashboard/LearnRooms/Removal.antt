-- ===== src/Dashboard/LearnRooms/Removal.antt =====
-- `removeRoomsNotInList` of dashboard.entity.ts, on one element of the grid.
use schulcloud_server.Prelude.{
  ℕ, zero, suc, true, false, List, [], ◌∷◌, some, ok, length, includes, is_distinct, get_elem?, ◌≡◌,
  ◌≢◌, refl, sym, ap, ◌∙◌, arith, Bool-cases, Option-cases, inl, inr, if◌then◌else◌, ok_inj,
}
use schulcloud_server.Dashboard.Element.{
  Learnroom, learnroom_eq, same_room, same_room_iff, GridElement, remove_reference, remove_at,
  index_of,
}
use schulcloud_server.Dashboard.LearnRooms.{remove_missing_from, remove_missing}

-- The list that a removal leaves.
abbrev remove_first : List Learnroom → Learnroom → List Learnroom
remove_first [] r = []
remove_first (x ∷ xs) r = if same_room x r then xs else x ∷ remove_first xs r

index_of_lem :
    (xs : List Learnroom) (r : Learnroom)
    → includes xs r ≡ true
    → (i : ℕ) × (index_of xs r ≡ some i) × (remove_at xs i ≡ remove_first xs r)
index_of_lem [] r h = cc
index_of_lem (x ∷ xs) r h = elim (Bool-cases (same_room x r)) [
  | inl same ↦ (0, rw same refl, rw same refl)
  | inr other ↦
      let (i, found, left) = index_of_lem xs r (rw other at h) in
      (suc i, rw (other, found) refl, rw (other, left) refl)
]

remove_reference_lem :
    (r : Learnroom) (e : GridElement)
    → includes e.references r ≡ true
    → remove_reference r e ≡ ok (record e { references = remove_first e.references r })
unfolding remove_reference
remove_reference_lem r e h =
    let (i, found, left) = index_of_lem e.references r h in rw (found, left) refl

includes-get_elem? :
    (xs : List Learnroom) (i : ℕ) (r : Learnroom) → get_elem? xs i ≡ some r → includes xs r ≡ true
includes-get_elem? [] i r h = cc
includes-get_elem? (x ∷ xs) zero r h = ground (arith, same_room_iff x r)
includes-get_elem? (x ∷ xs) (suc i) r h = ground (arith, includes-get_elem? xs i r h)

includes-remove_first_ne :
    (xs : List Learnroom) (r s : Learnroom) → r ≢ s → includes (remove_first xs r) s ≡ includes xs s
includes-remove_first_ne [] r s h = refl
includes-remove_first_ne (x ∷ xs) r s h =
    ground (arith, includes-remove_first_ne xs r s h, same_room_iff x r, same_room_iff x s)

includes-remove_first :
    (xs : List Learnroom) (r s : Learnroom)
    → includes (remove_first xs r) s ≡ true
    → includes xs s ≡ true
includes-remove_first [] r s h = cc
includes-remove_first (x ∷ xs) r s h = ground (arith, includes-remove_first xs r s)

is_distinct-remove_first :
    (xs : List Learnroom) (r : Learnroom)
    → is_distinct xs ≡ true
    → is_distinct (remove_first xs r) ≡ true
is_distinct-remove_first [] r d = refl
is_distinct-remove_first (x ∷ xs) r d =
    ground (arith, is_distinct-remove_first xs r, includes-remove_first xs r x)

-- The removal never fails, keeps the rooms of the list, and adds none.
abbrev Trimmed : (rooms before after : List Learnroom) → Type 0
Trimmed rooms before after =
    (s : Learnroom)
    → (includes rooms s ≡ true → includes before s ≡ true → includes after s ≡ true)
      × (includes after s ≡ true → includes before s ≡ true)

remove_missing_from_lem :
    (rooms : List Learnroom) (rounds i : ℕ) (e : GridElement)
    → (e' : GridElement) × (remove_missing_from rooms rounds i e ≡ ok e')
      × Trimmed rooms e.references e'.references
unfolding remove_missing_from
remove_missing_from_lem rooms zero i e = (e, refl, λ s. (λ _ h. h, λ h. h))
remove_missing_from_lem rooms (suc rounds) i e = elim (Option-cases (get_elem? e.references i)) [
  | inl past ↦ (e, rw (past, remove_missing_from) refl, λ s. (λ _ h. h, λ h. h))
  | inr (r, here) ↦ elim (Bool-cases (includes rooms r)) [
    | inl listed ↦
        let (e', returned, trimmed) = remove_missing_from_lem rooms rounds (suc i) e in
        (e', rw (here, remove_missing_from) (rw listed returned), trimmed)
    | inr missing ↦
        let removed = remove_reference_lem r e (includes-get_elem? e.references i r here) in
        let smaller : GridElement = record e { references = remove_first e.references r } in
        let (e', returned, trimmed) = remove_missing_from_lem rooms rounds (suc i) smaller in
        (
          e',
          rw (here, remove_missing_from) (rw (missing, removed) returned),
          λ s. (
            λ l h. (trimmed s).0 l (
                rw
                  (includes-remove_first_ne e.references r s
                    (λ same. (ground (arith, same, l, missing))))
                  h),
            λ h. includes-remove_first e.references r s ((trimmed s).1 h),
          ),
        )
  ]
]

-- Bringing an element in line with the user's courses never fails; it keeps the courses that the
-- user has, and brings in none.
pub remove_missing_lem :
    (rooms : List Learnroom) (e : GridElement)
    → (e' : GridElement) × (remove_missing rooms e ≡ ok e')
      × ((s : Learnroom)
          → (includes rooms s ≡ true
              → includes e.references s ≡ true
              → includes e'.references s ≡ true)
            × (includes e'.references s ≡ true → includes e.references s ≡ true))
unfolding remove_missing
remove_missing_lem rooms e = remove_missing_from_lem rooms (length e.references) 0 e

-- The visit of a course that is not in the list.
walk_step :
    (rooms : List Learnroom) (rounds i : ℕ) (e : GridElement) (r : Learnroom)
    → get_elem? e.references i ≡ some r
    → includes rooms r ≡ false
    → remove_missing_from rooms (suc rounds) i e
      ≡ remove_missing_from rooms rounds
          (suc i)
          (record e { references = remove_first e.references r })
unfolding remove_missing_from
walk_step rooms rounds i e r here missing =
    rw (here, remove_missing_from)
      (rw (missing, remove_reference_lem r e (includes-get_elem? e.references i r here)) refl)

-- A walk that starts behind the first room never takes the first room out.
head_stays :
    (rooms : List Learnroom) (rounds i : ℕ) (e e' : GridElement) (b : Learnroom)
    (rest : List Learnroom)
    → e.references ≡ b ∷ rest
    → is_distinct (b ∷ rest) ≡ true
    → remove_missing_from rooms rounds (suc i) e ≡ ok e'
    → includes e'.references b ≡ true
unfolding remove_missing_from
head_stays rooms zero i e e' b rest shape distinct h =
    rw (sym (ap (λ (x : GridElement). x.references) (ok_inj h)))
      (rw shape (ground (arith, same_room_iff b b)))
head_stays rooms (suc rounds) i e e' b rest shape distinct h =
    elim (Option-cases (get_elem? e.references (suc i))) [
      | inl past ↦
          let same = ok_inj (rw (past, remove_missing_from) at h) in
          rw (sym (ap (λ (x : GridElement). x.references) same))
            (rw shape (ground (arith, same_room_iff b b)))
      | inr (r, here) ↦ elim (Bool-cases (includes rooms r)) [
        | inl listed ↦
            head_stays rooms rounds (suc i) e e' b rest shape distinct
              (rw listed at (rw (here, remove_missing_from) at h))
        | inr missing ↦
            let there : includes rest r ≡ true = includes-get_elem? rest i r (rw shape at here) in
            let other : same_room b r ≡ false =
              ground (arith, there, distinct, same_room_iff b r) in
            let shape' : remove_first e.references r ≡ b ∷ remove_first rest r =
              rw shape (rw other refl) in
            head_stays rooms rounds (suc i) (record e { references = remove_first e.references r })
              e' b (remove_first rest r) shape'
              (rw shape' at (is_distinct-remove_first e.references r (rw shape distinct)))
              (sym (walk_step rooms rounds (suc i) e r here missing) ∙ h)
      ]
    ]

-- Of two courses at the head of an element without repetitions, the first of which the user no
-- longer has, the second stays in the element, even if the user does not have it either.
pub remove_missing_skips :
    (rooms : List Learnroom) (e : GridElement) (a b : Learnroom) (rest : List Learnroom)
    → e.references ≡ a ∷ b ∷ rest
    → is_distinct (a ∷ b ∷ rest) ≡ true
    → includes rooms a ≡ false
    → (e' : GridElement) × (remove_missing rooms e ≡ ok e') × (includes e'.references b ≡ true)
unfolding remove_missing
remove_missing_skips rooms e a b rest shape distinct missing =
    let (e', returned, _) = remove_missing_lem rooms e in
    let smaller : GridElement = record e { references = remove_first e.references a } in
    let left : remove_first e.references a ≡ b ∷ rest =
      rw shape (ground (arith, same_room_iff a a)) in
    let here : get_elem? e.references 0 ≡ some a = rw shape refl in
    let size : suc (suc (length rest)) ≡ length e.references = rw shape refl in
    let walked = sym (walk_step rooms (suc (length rest)) 0 e a here missing) in
    (
      e',
      returned,
      head_stays rooms (suc (length rest)) 0 smaller e' b rest left (ground (arith, distinct))
          (walked ∙ (ap (λ n. remove_missing_from rooms n 0 e) size ∙ returned)),
    )
