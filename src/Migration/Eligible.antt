-- ===== src/Migration/Eligible.antt =====
-- school-migration.service.ts: which school a user may migrate.
use schulcloud_server.Prelude.{
  clash, String, true, Option, none, some, Result, ok, throw, Exception, error, ◌≡◌, ◌≢◌, ◌↔◌, refl,
  ap, sym, ◌∙◌, ◌==◌, string_eq, ==_iff, if◌then◌else◌, Bool-cases, some_inj, ok_inj, inl, inr, ◌⊎◌,
  Option-cases,
}
use schulcloud_server.Migration.School.{
  SchoolDo, Services, Memory, same_text, is_external_user_in_school, if_found, school_to_migrate,
}

Result-cases :
    {A : Type 0} (r : Result A) → ((a : A) × (r ≡ ok a)) ⊎ ((e : Exception) × (r ≡ throw e))
Result-cases (ok a) = inl (a, refl)
Result-cases (throw e) = inr (e, refl)

not_thrown : {e : Exception} {o : Option SchoolDo} → ¬ (throw e ≡ ok o)
not_thrown h = cc

same_text_iff : (o : Option String) (s : String) → (same_text o s ≡ true) ↔ (o ≡ some s)
same_text_iff none s = (λ e. (cc), λ e. (cc))
same_text_iff (some t) s = (λ e. ap some ((==_iff t s).0 e), λ e. (==_iff t s).1 (some_inj e))

module _ {W : Type 0} (services : Services W) where
  -- The school that is found by a number, the user that belongs to it, and the id that is new to it.
  abbrev pub Eligible : (current_user_id external_id number : String) → SchoolDo → W → Type 0
  Eligible current_user_id external_id number school w =
      (number ≢ "")
      × (services.get_school_by_school_number number w ≡ some school)
      × (school_id : String) × ((services.school_id_of current_user_id w).0 ≡ ok school_id)
      × (school.id ≡ some school_id)
      × (school.external_id ≢ some external_id)

  -- What is answered for a school that was found, by the school of the user.
  abbrev judged : (external_id : String) → SchoolDo → Result String → Result (Option SchoolDo)
  judged external_id found (throw e) = throw e
  judged external_id found (ok school_id) =
      if same_text found.id school_id
      then ok (if same_text found.external_id external_id then none else some found)
      else throw (error "ext_official_school_number_mismatch")

  if_found-judged :
      (current_user_id external_id : String) (found : SchoolDo) (m : Memory W)
      → (if_found services current_user_id external_id (some found) m).0
        ≡ judged external_id found (services.school_id_of current_user_id m.world).0
  unfolding is_external_user_in_school
  if_found-judged current_user_id external_id found m =
      elim (Result-cases (services.school_id_of current_user_id m.world).0) [
        | inr (e, failed) ↦ rw failed refl
        | inl (school_id, known) ↦ elim (Bool-cases (same_text found.id school_id)) [
          | inl same ↦ rw (known, same) refl
          | inr other ↦ rw (known, other) refl
        ]
      ]

  judged_iff :
      (external_id : String) (found school : SchoolDo) (r : Result String)
      → (judged external_id found r ≡ ok (some school)) ↔ (
          (found ≡ school)
          × (school_id : String) × (r ≡ ok school_id)
          × (found.id ≡ some school_id)
          × (found.external_id ≢ some external_id))
  judged_iff external_id found school (throw e) = (λ h. (cc), λ (_, school_id, known, _, _). (cc))
  judged_iff external_id found school (ok school_id) =
      elim (Bool-cases (same_text found.id school_id)) [
        | inr other ↦ (
          λ h. absurd (not_thrown (rw other at h)),
          λ (_, known_id, known, same, _). absurd (
              clash (
                sym other
                ∙ (same_text_iff found.id school_id).1 (same ∙ ap some (sym (ok_inj known))))),
        )
        | inl same ↦ elim (Bool-cases (same_text found.external_id external_id)) [
          | inl again ↦ (
            λ h. absurd (not_none (rw (same, again) at h)),
            λ (_, _, _, _, differs).
                absurd (differs ((same_text_iff found.external_id external_id).0 again)),
          )
          | inr fresh ↦ (
            λ h. (
              some_inj (ok_inj (rw (same, fresh) at h)),
              school_id,
              refl,
              (same_text_iff found.id school_id).0 same,
              λ e. clash (sym fresh ∙ (same_text_iff found.external_id external_id).1 e),
            ),
            λ (is_found, _, _, _, _). rw (same, fresh) (ap (λ x. ok (some x)) is_found),
          )
        ]
      ]
    where
      not_none : ¬ (ok none ≡ ok (some school))
      not_none h = cc

  -- A school is answered for migration exactly if an official school number that is not empty
  -- is given, the school is found by it, the user is found and belongs to this school, and the
  -- external id differs from that of the school.
  pub school_to_migrate_lem :
      (current_user_id external_id : String) (school_number : Option String) (school : SchoolDo)
      (m : Memory W)
      → ((school_to_migrate services current_user_id external_id school_number m).0
          ≡ ok (some school))
        ↔ ((number : String) × (school_number ≡ some number)
            × Eligible current_user_id external_id number school m.world)
  unfolding school_to_migrate
  school_to_migrate_lem current_user_id external_id none school m =
      (λ e. (cc), λ (number, given, _). (cc))
  school_to_migrate_lem current_user_id external_id (some number) school m =
      elim (Bool-cases (number == "")) [
        | inl blank ↦ (
          λ h. absurd (not_thrown (rw blank at h)),
          λ (n, given, (filled, _, _, _, _, _)).
              absurd (filled (sym (some_inj given) ∙ (==_iff number "").0 blank)),
        )
        | inr filled ↦ elim (Option-cases (services.get_school_by_school_number number m.world)) [
          | inl missing ↦ (
            λ h. absurd (not_thrown (rw (filled, missing) at h)),
            λ (n, given, (_, is_school, _, _, _, _)).
                absurd (not_some (sym missing ∙ again n given ∙ is_school)),
          )
          | inr (found, is_found) ↦ (
            λ h.
                let (same, school_id, known, belongs, differs) =
                  (judged_iff external_id found school
                      (services.school_id_of current_user_id m.world).0).0
                    (sym (if_found-judged current_user_id external_id found m)
                      ∙ rw (filled, is_found) at h) in
                (
                  number,
                  refl,
                  (
                    λ e. clash (sym filled ∙ (==_iff number "").1 e),
                    is_found ∙ ap some same,
                    school_id,
                    known,
                    sym (ap (λ (x : SchoolDo). x.id) same) ∙ belongs,
                    λ e. differs (ap (λ (x : SchoolDo). x.external_id) same ∙ e),
                  ),
                ),
            λ (n, given, (_, is_school, school_id, known, belongs, differs)).
                let same : found ≡ school = some_inj (sym is_found ∙ again n given ∙ is_school) in
                rw (filled, is_found)
                  (if_found-judged current_user_id external_id found m
                    ∙ (judged_iff external_id found school
                          (services.school_id_of current_user_id m.world).0).1
                        (
                          same,
                          school_id,
                          known,
                          ap (λ (x : SchoolDo). x.id) same ∙ belongs,
                          λ e. differs (sym (ap (λ (x : SchoolDo). x.external_id) same) ∙ e),
                        )),
          )
        ]
      ]
    where
      again :
          (n : String)
          → some number ≡ some n
          → services.get_school_by_school_number number m.world
            ≡ services.get_school_by_school_number n m.world
      again n given = ap (λ x. services.get_school_by_school_number x m.world) (some_inj given)

      not_some : ¬ (none ≡ some school)
      not_some h = cc
