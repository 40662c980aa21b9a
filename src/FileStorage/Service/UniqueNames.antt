-- ===== src/FileStorage/Service/UniqueNames.antt =====
-- files-storage.service.ts: the names of the files of a parent.
use schulcloud_server.Prelude.{
  Result, throw, String, Bool, true, false, not, ◌&&◌, List, [], ◌∷◌, any, none, some, ok, conflict,
  bad_request, ◌≡◌, ◌≢◌, ◌⊎◌, inl, inr, refl, sym, ap, ◌∙◌, arith, if◌then◌else◌, ◌==◌, string_eq,
  ==_iff, ==_self, Bool-cases, some_inj, any_from, any_to,
}
use schulcloud_server.FileStorage.Record.{
  FileRecord, Fresh, ParentInfo, has_name, set_name, get_parent_info,
}
use schulcloud_server.FileStorage.Names.{has_duplicate_name}
use schulcloud_server.Action.{pure, of_result, continued, ◌>>=◌, ◌>>◌}
use schulcloud_server.Action.Yields.{Yields, Yields-ok, Yields-throw, Yields-bind, Yields-weaken}
use schulcloud_server.FileStorage.Environment.{
  Environment, Keeps, Store, FileDto, save, find_by_school_id_and_parent_id, by_parent, is_marked,
}
use schulcloud_server.FileStorage.Service.{
  check_duplicated_names, patch_filename, upload_file, get_file_records_of_parent,
}
use schulcloud_server.FileStorage.Service.Kept.{Unchanged, Written, SaveThrows, Yields-save}
use schulcloud_server.FileStorage.Service.Uploading.{upload_file_lem}

module _ {D W F : Type 0} (env : Environment D W F) (keeps : Keeps env) where
  -- The record stands in the database and is not marked for deletion.
  abbrev pub Live : D → FileRecord → Type 0
  Live d r = (keeps.lookup d r.id ≡ some r) × (is_marked r ≡ false)

  abbrev pub Siblings : FileRecord → FileRecord → Type 0
  Siblings q r = (q.school_id ≡ r.school_id) × (q.parent_id ≡ r.parent_id)

  -- No two live files of a parent have the same name.
  abbrev pub UniqueNames : D → Type 0
  UniqueNames d =
      (q r : FileRecord) → Live d q → Live d r → Siblings q r → q.name ≡ r.name → q.id ≡ r.id

  -- A live sibling of a name that no record of the parent has, has another name.
  free_name :
      (s : Store D W) (params : ParentInfo) (rs : List FileRecord) (name : String) (q : FileRecord)
      → get_file_records_of_parent env params s ≡ (ok rs, s)
      → has_duplicate_name rs name ≡ false
      → Live s.db q
      → q.school_id ≡ params.school_id
      → q.parent_id ≡ params.parent_id
      → q.name ≢ name
  unfolding get_file_records_of_parent find_by_school_id_and_parent_id has_duplicate_name has_name
  free_name s params rs name q listed free (found, live) school parent same = clash (
      sym (
        any_from (has_name name) rs q
          ((keeps.find_iff p s.db rs q (ap (λ x. x.0) listed)).1 (
            found,
            ground (
              arith,
              live,
              ==_iff q.school_id params.school_id,
              ==_iff q.parent_id params.parent_id,
              school,
              parent,
            ),
          ))
          ((==_iff q.name name).1 same))
      ∙ free)
    where
      p : FileRecord → Bool
      p r = by_parent params.school_id params.parent_id r && not (is_marked r)

      clash : ¬ (true ≡ false)
      clash e = cc

  -- One record more, or changed, whose name is free: names stay unique.
  unique_after :
      (s : Store D W) (d : D) (params : ParentInfo) (rs : List FileRecord) (a : FileRecord)
      → get_file_records_of_parent env params s ≡ (ok rs, s)
      → has_duplicate_name rs a.name ≡ false
      → a.school_id ≡ params.school_id
      → a.parent_id ≡ params.parent_id
      → ((id : String) → keeps.lookup d id ≡ (if a.id == id then some a else keeps.lookup s.db id))
      → UniqueNames s.db
      → UniqueNames d
  unique_after s d params rs a listed free school parent after unique q r (found_q, live_q)
        (found_r, live_r) (schools, parents) same =
      elim (Bool-cases (a.id == q.id)) [
        | inl q_is ↦
            let q_a : a ≡ q = some_inj (sym (rw q_is at (after q.id)) ∙ found_q) in
            elim (Bool-cases (a.id == r.id)) [
              | inl r_is ↦ sym ((==_iff a.id q.id).0 q_is) ∙ (==_iff a.id r.id).0 r_is
              | inr other ↦ absurd (
                  free_name s params rs a.name r listed free
                    (sym (rw other at (after r.id)) ∙ found_r, live_r)
                    (sym schools ∙ sym (ap (λ (x : FileRecord). x.school_id) q_a) ∙ school)
                    (sym parents ∙ sym (ap (λ (x : FileRecord). x.parent_id) q_a) ∙ parent)
                    (sym same ∙ sym (ap (λ (x : FileRecord). x.name) q_a)))
            ]
        | inr q_not ↦
            let q_before : keeps.lookup s.db q.id ≡ some q =
              sym (rw q_not at (after q.id)) ∙ found_q in
            elim (Bool-cases (a.id == r.id)) [
              | inl r_is ↦
                  let r_a : a ≡ r = some_inj (sym (rw r_is at (after r.id)) ∙ found_r) in
                  absurd (
                    free_name s params rs a.name q listed free (q_before, live_q)
                      (schools ∙ sym (ap (λ (x : FileRecord). x.school_id) r_a) ∙ school)
                      (parents ∙ sym (ap (λ (x : FileRecord). x.parent_id) r_a) ∙ parent)
                      (same ∙ sym (ap (λ (x : FileRecord). x.name) r_a)))
              | inr r_not ↦
                  unique q r (q_before, live_q) (sym (rw r_not at (after r.id)) ∙ found_r, live_r)
                    (schools, parents) same
            ]
      ]

  -- Names that were unique stay so where nothing has changed.
  unique_still :
      (s s' : Store D W) → Unchanged env keeps s s' → UniqueNames s.db → UniqueNames s'.db
  unique_still s s' same unique q r (found_q, live_q) (found_r, live_r) =
      unique q r (sym (same q.id) ∙ found_q, live_q) (sym (same r.id) ∙ found_r, live_r)

  -- Where the names of the files of each parent are unique, renaming a file that is stored and
  -- not marked for deletion either stores it under the new name, which is not empty, with all
  -- names still unique; or throws, and the database gives under every id what it gave: a
  -- BadRequestException for an empty name, a ConflictException if a file of the parent has the
  -- name, or the error of the database from the lookup of the parent's files or from storing
  -- the file.
  pub patch_filename_lem :
      (r : FileRecord) (file_name : String) (s : Store D W)
      → Live s.db r
      → UniqueNames s.db
      → Yields
          (λ a s'.
            (a ≡ record r { name = file_name })
            × (file_name ≢ "")
            × (keeps.lookup s'.db r.id ≡ some a)
            × UniqueNames s'.db)
          (λ e s'.
            Unchanged env keeps s s'
            × (((e ≡ bad_request "FILE_NAME_EMPTY") × (file_name ≡ ""))
                ⊎ ((e ≡ conflict "FILE_NAME_EXISTS")
                    × (q : FileRecord) × Live s.db q
                    × Siblings q r
                    × (q.name ≡ file_name))
                ⊎ (get_file_records_of_parent env (get_parent_info r) s ≡ (throw e, s))
                ⊎ SaveThrows env (record r { name = file_name } ∷ []) s.db e))
          (patch_filename env r file_name s)
  unfolding patch_filename has_duplicate_name check_duplicated_names set_name
      get_file_records_of_parent find_by_school_id_and_parent_id has_name get_parent_info
  patch_filename_lem r file_name s (found, live) unique = go (env.find p s.db) refl
    where
      p : FileRecord → Bool
      p q = by_parent r.school_id r.parent_id q && not (is_marked q)

      renamed : FileRecord
      renamed = record r { name = file_name }

      sibling :
          (rs : List FileRecord)
          → env.find p s.db ≡ ok rs
          → any (has_name file_name) rs ≡ true
          → (q : FileRecord) × Live s.db q × Siblings q r × (q.name ≡ file_name)
      sibling rs listed taken =
          let (q, m, named) = any_to (has_name file_name) rs taken in
          let (stored, fits) = (keeps.find_iff p s.db rs q listed).0 m in
          (
            q,
            (stored, ground (arith, fits)),
            (
              ground (arith, fits, ==_iff q.school_id r.school_id),
              ground (arith, fits, ==_iff q.parent_id r.parent_id),
            ),
            (==_iff q.name file_name).0 named,
          )

      go :
          (listing : Result (List FileRecord))
          → env.find p s.db ≡ listing
          → Yields
              (λ a s'.
                (a ≡ renamed)
                × (file_name ≢ "")
                × (keeps.lookup s'.db r.id ≡ some a)
                × UniqueNames s'.db)
              (λ e s'.
                Unchanged env keeps s s'
                × (((e ≡ bad_request "FILE_NAME_EMPTY") × (file_name ≡ ""))
                    ⊎ ((e ≡ conflict "FILE_NAME_EXISTS")
                        × (q : FileRecord) × Live s.db q
                        × Siblings q r
                        × (q.name ≡ file_name))
                    ⊎ (get_file_records_of_parent env (get_parent_info r) s ≡ (throw e, s))
                    ⊎ SaveThrows env (renamed ∷ []) s.db e))
              (continued
                (λ rs.
                  of_result (check_duplicated_names rs file_name)
                  >> (of_result (set_name file_name r) >>= λ a. save env (a ∷ []) >> pure a))
                (listing, s))
      go (throw e) listed = Yields-throw (λ _. refl, inr (inr (inl (ap (λ x. (x, s)) listed))))
      go (ok rs) listed = elim (Bool-cases (any (has_name file_name) rs)) [
        | inl taken ↦
            let (q, stored, siblings, named) = sibling rs listed taken in
            rw taken (Yields-throw (λ _. refl, inr (inl (refl, q, stored, siblings, named))))
        | inr free ↦ elim (Bool-cases (file_name == "")) [
          | inl blank ↦
              rw (free, blank) (Yields-throw (λ _. refl, inl (refl, (==_iff file_name "").0 blank)))
          | inr filled ↦
              rw (free, filled)
                (Yields-bind {P = λ _ s'. Written env keeps (renamed ∷ []) s s'}
                  (save env (renamed ∷ [])) _ s
                  (Yields-weaken _ (Yields-save env keeps (renamed ∷ []) s) (λ _ s' h. h)
                    (λ e s' (fails, same). (same, inr (inr (inr fails)))))
                  (λ _ s' written. Yields-ok (
                    refl,
                    λ e. ground (arith, filled, ==_iff file_name "", e),
                    written r.id ∙ rw (==_self r.id) refl,
                    unique_after s s'.db (get_parent_info r) rs renamed (ap (λ x. (x, s)) listed)
                        free refl refl written unique,
                  )))
        ]
      ]

  -- With a school and a new id that are not empty, and that id not taken, and with a storage
  -- and a database whose deletions do not throw: an upload, whether it returns or throws,
  -- leaves a database in which no two files of a parent that are not marked for deletion have
  -- the same name, if it found one.
  pub upload_file_names :
      (fresh : Fresh) (user_id : String) (params : ParentInfo) (file : FileDto) (s : Store D W)
      → params.school_id ≢ ""
      → fresh.id ≢ ""
      → keeps.lookup s.db fresh.id ≡ none
      → ((paths : List String) (w : W) → (env.delete paths w).0 ≡ ok tt)
      → ((rs : List FileRecord) (d : D) → (env.remove_and_flush rs d).0 ≡ ok tt)
      → UniqueNames s.db
      → Yields
          (λ _ s'. UniqueNames s'.db)
          (λ _ s'. UniqueNames s'.db)
          (upload_file env fresh user_id params file s)
  unfolding get_parent_info
  upload_file_names fresh user_id params file s school id free deletes removes unique =
      Yields-weaken _
        (upload_file_lem env keeps fresh user_id params file s school id free deletes removes)
        (λ a s' (rs, listed, (same_id, same_parent, unused, _, _), after).
          unique_after s s'.db params rs a listed unused
            (ap (λ (x : ParentInfo). x.school_id) same_parent)
            (ap (λ (x : ParentInfo). x.parent_id) same_parent)
            (λ i. after i ∙ ap (λ x. if x == i then some a else keeps.lookup s.db i) (sym same_id))
            unique)
        (λ _ s' same. unique_still s s' same unique)
