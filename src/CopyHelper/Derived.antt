-- ===== src/CopyHelper/Derived.antt =====
-- What the status derived by copy-helper.service.ts is to say of the parts.
use schulcloud_server.Prelude.{
  Bool, true, false, not, ◌&&◌, ◌||◌, List, [], ◌∷◌, all, any, filterb, length, ltb, arith, ◌≡◌,
  refl, sym, ◌∙◌, inl, inr, Bool-cases,
}
use schulcloud_server.CopyHelper.{
  CopyStatusEnum, success, fail, not_doing, not_implemented, partial, same_status,
  is_at_least_partial_successfull, derive_status_from_elements,
}

-- A part that was to be copied.
abbrev pub tried : CopyStatusEnum → Bool
tried s = not (same_status s not_doing)

-- A part that came out, at least partly.
abbrev pub came_out : CopyStatusEnum → Bool
came_out s = same_status s partial || same_status s success

-- What a status of the whole says of the statuses of the parts.
abbrev pub Describes : CopyStatusEnum → List CopyStatusEnum → Type 0
Describes success parts = all (λ s. not (tried s) || same_status s success) parts ≡ true
Describes fail parts =
    (any tried parts ≡ true) × (all (λ s. not (tried s) || not (came_out s)) parts ≡ true)
Describes partial parts =
    (any came_out parts ≡ true) × (any (λ s. tried s && not (same_status s success)) parts ≡ true)
Describes not_doing parts = ⊥
Describes not_implemented parts = ⊥

module _ (p : CopyStatusEnum → Bool) where
  all-filter :
      (q : CopyStatusEnum → Bool) (xs : List CopyStatusEnum)
      → all q (filterb p xs) ≡ all (λ s. not (p s) || q s) xs
  all-filter q [] = refl
  all-filter q (x ∷ xs) = ground (arith, all-filter q xs)

  any-filter :
      (q : CopyStatusEnum → Bool) (xs : List CopyStatusEnum)
      → any q (filterb p xs) ≡ any (λ s. p s && q s) xs
  any-filter q [] = refl
  any-filter q (x ∷ xs) = ground (arith, any-filter q xs)

  some-filter : (xs : List CopyStatusEnum) → ltb 0 (length (filterb p xs)) ≡ any p xs
  some-filter [] = refl
  some-filter (x ∷ xs) = ground (arith, some-filter xs)

all-not :
    (q : CopyStatusEnum → Bool) (xs : List CopyStatusEnum)
    → all (λ s. not (q s)) xs ≡ not (any q xs)
all-not q [] = refl
all-not q (x ∷ xs) = ground (arith, all-not q xs)

none_tried :
    (xs : List CopyStatusEnum)
    → any tried xs ≡ false
    → all (λ s. not (tried s) || same_status s success) xs ≡ true
none_tried [] h = refl
none_tried (x ∷ xs) h = ground (arith, h, none_tried xs)

some_came_out :
    (xs : List CopyStatusEnum) → any (λ s. tried s && came_out s) xs ≡ true → any came_out xs ≡ true
some_came_out [] h = cc
some_came_out (x ∷ xs) h = ground (arith, h, some_came_out xs)

all_successful :
    (xs : List CopyStatusEnum)
    → any (λ s. tried s && not (same_status s success)) xs ≡ false
    → all (λ s. not (tried s) || same_status s success) xs ≡ true
all_successful [] h = refl
all_successful (x ∷ xs) h = ground (arith, h, all_successful xs)

-- The status of a copy is success if every part that was tried succeeded, fail if some part was
-- tried and none came out even partly, and partial if some part came out and some part that was
-- tried did not succeed; it is never another status.
pub derive_status_from_elements_lem :
    (parts : List CopyStatusEnum) → Describes (derive_status_from_elements parts) parts
unfolding derive_status_from_elements is_at_least_partial_successfull
derive_status_from_elements_lem parts = elim (Bool-cases (ltb 0 (length (filterb tried parts)))) [
  | inr nothing ↦ rw nothing (none_tried parts (sym (some-filter tried parts) ∙ nothing))
  | inl something ↦ elim (Bool-cases (all (λ s. not (came_out s)) (filterb tried parts))) [
    | inl failed ↦
        rw (something, failed)
          (
            sym (some-filter tried parts) ∙ something,
            sym (all-filter tried (λ s. not (came_out s)) parts) ∙ failed,
          )
    | inr out ↦
        let some_out : any came_out (filterb tried parts) ≡ true =
          ground (arith, out, all-not came_out (filterb tried parts)) in
        elim (Bool-cases (any (λ s. not (same_status s success)) (filterb tried parts))) [
          | inl mixed ↦
              rw (something, out, mixed)
                (
                  some_came_out parts (sym (any-filter tried came_out parts) ∙ some_out),
                  sym (any-filter tried (λ s. not (same_status s success)) parts) ∙ mixed,
                )
          | inr clean ↦
              rw (something, out, clean)
                (all_successful parts
                  (sym (any-filter tried (λ s. not (same_status s success)) parts) ∙ clean))
        ]
  ]
]
