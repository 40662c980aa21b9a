-- ===== src/FileStorage/Names/Resolved.antt =====
-- helper/file-name.ts: the loop of resolveFileNameDuplicates.
use Prim.Native.String.{◌++◌ as concat}
use text.Mathlib.TextLemmas.{append_cancel_left, append_cancel_right}
use schulcloud_server.Prelude.{
  ℕ, zero, suc, ◌+◌, ◌≤◌, ◌<◌, String, true, false, List, [], ◌∷◌, none, some, map, length, ◌≡◌,
  inl, inr, refl, sym, arith, Bool-cases, Option-cases, includes, is_distinct, ◌==◌, string_eq,
  ==_iff, length-le_of_includes, some_inj, ◌∙◌, ap, eqb, eqb_iff,
}
use schulcloud_server.FileStorage.Record.{FileRecord, has_name, or_default}
use schulcloud_server.FileStorage.Names.{
  Naming, numbered, ParsedPath, has_duplicate_name, search_name,
  resolve_file_name_duplicates_within, resolve_file_name_duplicates,
}

abbrev names : List FileRecord → List String
names rs = map (λ r. r.name) rs

duplicate_iff :
    (rs : List FileRecord) (name : String) → has_duplicate_name rs name ≡ includes (names rs) name
unfolding has_duplicate_name has_name
duplicate_iff [] name = refl
duplicate_iff (r ∷ rs) name = ground (arith, duplicate_iff rs name)

length-names : (rs : List FileRecord) → length (names rs) ≡ length rs
length-names [] = refl
length-names (r ∷ rs) = omega (arith, length-names rs)

module _ (naming : Naming) where
  -- The name that is tried after `counter` rounds.
  abbrev pub tried : String → ℕ → String
  tried filename zero = filename
  tried filename (suc i) = numbered naming (naming.parse filename) (suc i)

  -- The numbered names from `counter + 1` on.
  abbrev series : String → (many counter : ℕ) → List String
  series filename zero counter = []
  series filename (suc many) counter =
      tried filename (suc counter) ∷ series filename many (suc counter)

  length-series :
      (filename : String) (many counter : ℕ) → length (series filename many counter) ≡ many
  length-series filename zero counter = refl
  length-series filename (suc many) counter =
      omega (arith, length-series filename many (suc counter))

  includes-series :
      (filename : String) (many counter : ℕ) (a : String)
      → includes (series filename many counter) a ≡ true
      → (i : ℕ) × (counter < i) × (i ≤ counter + many) × (a ≡ tried filename i)
  includes-series filename zero counter a h = cc
  includes-series filename (suc many) counter a h =
      elim (Bool-cases (tried filename (suc counter) == a)) [
        | inl same ↦ (
          suc counter,
          omega arith,
          omega arith,
          sym ((==_iff (tried filename (suc counter)) a).0 same),
        )
        | inr other ↦
            let (i, later, within, e) =
              includes-series filename many (suc counter) a (ground arith) in
            (i, omega (arith, later), omega (arith, within), e)
      ]

  numbered_inj :
      (parsed : ParsedPath) (i j : ℕ) → numbered naming parsed i ≡ numbered naming parsed j → i ≡ j
  unfolding numbered
  numbered_inj parsed i j e = naming.show_inj i j (
      append_cancel_right (naming.show i) (naming.show j) (concat ")" parsed.ext)
        (append_cancel_left " (" _ _ (append_cancel_left parsed.name _ _ e)))

  tried_inj :
      (filename : String) (i j : ℕ) → tried filename (suc i) ≡ tried filename (suc j) → i ≡ j
  tried_inj filename i j e = omega (arith, numbered_inj (naming.parse filename) (suc i) (suc j) e)

  not_again :
      (filename : String) (many counter : ℕ)
      → includes (series filename many (suc counter)) (tried filename (suc counter)) ≡ false
  not_again filename many counter =
      elim (Bool-cases
        (includes (series filename many (suc counter)) (tried filename (suc counter)))) [
          | inl again ↦ absurd (
              clash
                (includes-series filename many (suc counter) (tried filename (suc counter)) again))
          | inr fresh ↦ fresh
        ]
    where
      clash : ¬ (
          (i : ℕ) × (suc counter < i)
          × (i ≤ suc counter + many)
          × (tried filename (suc counter) ≡ tried filename i))
      clash (zero, later, within, e) = omega (arith, later)
      clash (suc i, later, within, e) = omega (arith, later, tried_inj filename counter i e)

  is_distinct-series :
      (filename : String) (many counter : ℕ) → is_distinct (series filename many counter) ≡ true
  is_distinct-series filename zero counter = refl
  is_distinct-series filename (suc many) counter =
      rw (not_again filename many counter, is_distinct-series filename many (suc counter)) refl

  -- As long as the search finds nothing, every name it tried is taken.
  all_taken :
      (fuel : ℕ) (rs : List FileRecord) (filename : String) (counter : ℕ)
      → search_name naming fuel rs (naming.parse filename) counter (tried filename counter) ≡ none
      → (i : ℕ) → counter ≤ i
      → i < counter + fuel
      → has_duplicate_name rs (tried filename i) ≡ true
  all_taken zero rs filename counter h i from to = absurd (omega (arith, from, to))
  all_taken (suc fuel) rs filename counter h i from to =
      elim (Bool-cases (has_duplicate_name rs (tried filename counter))) [
        | inl taken ↦ elim (Bool-cases (eqb counter i)) [
          | inl now ↦ rw (sym ((eqb_iff counter i).0 now)) taken
          | inr later ↦
              all_taken fuel rs filename (suc counter) (rw taken at h) i
                (ground (arith, from, later)) (omega (arith, to))
        ]
        | inr free ↦ absurd (found_now (rw free at h))
      ]
    where
      found_now : {a : String} → ¬ (some a ≡ none)
      found_now e = cc

  -- What it finds is not taken, and was tried after names that are.
  found_free :
      (fuel : ℕ) (rs : List FileRecord) (filename : String) (counter : ℕ) (answer : String)
      → search_name naming fuel rs (naming.parse filename) counter (tried filename counter)
        ≡ some answer
      → (i : ℕ) × (counter ≤ i)
        × (answer ≡ tried filename i)
        × (has_duplicate_name rs (tried filename i) ≡ false)
        × ((j : ℕ) → counter ≤ j → j < i → has_duplicate_name rs (tried filename j) ≡ true)
  found_free zero rs filename counter answer h = cc
  found_free (suc fuel) rs filename counter answer h =
      elim (Bool-cases (has_duplicate_name rs (tried filename counter))) [
        | inl taken ↦
            let (i, from, e, free, before) =
              found_free fuel rs filename (suc counter) answer (rw taken at h) in
            (
              i,
              omega (arith, from),
              e,
              free,
              λ j above below. elim (Bool-cases (eqb counter j)) [
                | inl now ↦ rw (sym ((eqb_iff counter j).0 now)) taken
                | inr later ↦ before j (ground (arith, above, later)) below
              ],
            )
        | inr free ↦ (
          counter,
          omega arith,
          sym (some_inj (rw free at h)),
          free,
          λ j above below. absurd (omega (arith, above, below)),
        )
      ]

  too_many :
      (filename : String) (rs : List FileRecord)
      → search_name naming (length rs + 2) rs (naming.parse filename) 0 filename ≡ none
      → suc (length rs) ≤ length rs
  too_many filename rs out = omega (
    arith,
    length-series filename (suc (length rs)) 0,
    length-names rs,
    length-le_of_includes (series filename (suc (length rs)) 0) (names rs)
        (is_distinct-series filename (suc (length rs)) 0) included,
  )
    where
      included :
          (a : String)
          → includes (series filename (suc (length rs)) 0) a ≡ true
          → includes (names rs) a ≡ true
      included a m =
          let (i, after, within, e) = includes-series filename (suc (length rs)) 0 a m in
          rw (sym (duplicate_iff rs a), e)
            (all_taken (length rs + 2) rs filename 0 out i (omega arith) (omega (arith, within)))

  -- With two rounds more than there are records a free name is found.
  within_finds :
      (filename : String) (rs : List FileRecord)
      → (answer : String) × (resolve_file_name_duplicates_within naming (length rs + 2) filename rs
          ≡ some answer)
  unfolding resolve_file_name_duplicates_within
  within_finds filename rs =
      elim (Option-cases
        (search_name naming (length rs + 2) rs (naming.parse filename) 0 filename)) [
          | inl out ↦ absurd (omega (arith, too_many filename rs out))
          | inr found ↦ found
        ]

  -- The search for a free name ends within two rounds more than the parent has files, with the
  -- first name of the series (the given name, then the given name with the counters 1, 2, ...)
  -- that none of the files has.
  pub resolve_file_name_duplicates_lem :
      (filename : String) (rs : List FileRecord)
      → (i : ℕ) × (resolve_file_name_duplicates_within naming (length rs + 2) filename rs
          ≡ some (tried filename i))
        × (resolve_file_name_duplicates naming filename rs ≡ tried filename i)
        × (has_duplicate_name rs (tried filename i) ≡ false)
        × ((j : ℕ) → j < i → has_duplicate_name rs (tried filename j) ≡ true)
  unfolding resolve_file_name_duplicates_within resolve_file_name_duplicates
  resolve_file_name_duplicates_lem filename rs =
      let (answer, found) = within_finds filename rs in
      let (i, _, e, free, before) = found_free (length rs + 2) rs filename 0 answer found in
      (
        i,
        found ∙ ap some e,
        ap (λ o. or_default o filename) found ∙ e,
        free,
        λ j below. before j (omega arith) below,
      )
