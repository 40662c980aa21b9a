-- ===== src/FileStorage/Service/Uploading.antt =====
-- files-storage.service.ts: what an upload leaves in the database.
use schulcloud_server.Prelude.{
  ℕ, throw, sym, Exception, ◌≤◌, String, false, List, [], ◌∷◌, Option, none, some, Result, ok, ◌≡◌,
  ◌≢◌, ◌⊎◌, inl, inr, refl, ap, ◌∙◌, arith, if◌then◌else◌, ◌==◌, string_eq, ==_iff, ltb, Bool-cases,
}
use schulcloud_server.FileStorage.Record.{
  FileRecord, Fresh, ParentInfo, create_file_record, new_file_record, get_parent_info,
}
use schulcloud_server.FileStorage.Names.{has_duplicate_name}
use schulcloud_server.FileStorage.Names.Resolved.{tried, resolve_file_name_duplicates_lem}
use schulcloud_server.Action.{continued}
use schulcloud_server.Action.Yields.{
  Yields, Yields-ok, Yields-throw, Yields-bind, Yields-try, Yields-weaken,
}
use schulcloud_server.FileStorage.Environment.{
  Environment, Keeps, Store, FileDto, save, delete as delete_records, outside, persisted, removed,
  find_by_school_id_and_parent_id,
}
use schulcloud_server.FileStorage.Service.Kept.{
  Unchanged, Written, Removed, Unchanged-trans, Yields-save, Yields-delete, Yields-outside,
  Yields-send,
}
use schulcloud_server.FileStorage.Service.{
  count_file_size, throw_error_if_file_is_too_big, send, store_file, put_file, create_path,
  upload_file, get_file_records_of_parent, create_new_file_record, resolve_file_name,
  create_file_in_storage_and_rollback_on_error,
}

==_false : {a b : String} → a ≢ b → (a == b) ≡ false
==_false {a} {b} differ = ground (arith, ==_iff a b, differ)

-- What an upload returns: a record of the parent under the new id, with the size of the file,
-- which is within the limit, and a name that none of these files has.
abbrev pub IsUploaded :
    (limit : ℕ) → Fresh → ParentInfo → FileDto → List FileRecord → FileRecord → Type 0
IsUploaded limit fresh params file rs r =
    (r.id ≡ fresh.id)
    × (get_parent_info r ≡ params)
    × (has_duplicate_name rs r.name ≡ false)
    × (r.size ≡ count_file_size file.chunks)
    × (r.size ≤ limit)

module _ {D W F : Type 0} (env : Environment D W F) where
  new_record :
      (fresh : Fresh) (user_id : String) (params : ParentInfo) (file : FileDto) (s : Store D W)
      (rs : List FileRecord)
      → get_file_records_of_parent env params s ≡ (ok rs, s)
      → (name : String) × (create_new_file_record env fresh file params user_id s
          ≡ (ok (create_file_record fresh name 0 file.mime_type params user_id), s))
        × (has_duplicate_name rs name ≡ false)
  unfolding create_new_file_record resolve_file_name has_duplicate_name
  new_record fresh user_id params file s [] e = (file.name, rw (e, continued) refl, refl)
  new_record fresh user_id params file s (r ∷ rs) e =
      let (i, _, chosen, free, _) =
        resolve_file_name_duplicates_lem env.naming file.name (r ∷ rs) in
      (tried env.naming file.name i, rw (e, continued, chosen) refl, free)

module _ {D W F : Type 0} (env : Environment D W F) (keeps : Keeps env) where
  put_file_lem :
      (path : String) (sized : FileRecord) (file : FileDto) (s : Store D W)
      → Yields
          (λ a s'.
            (a ≡ sized) × (sized.size ≤ env.max_file_size) × Written env keeps (sized ∷ []) s s')
          (λ _ s'. Unchanged env keeps s s' ⊎ Written env keeps (sized ∷ []) s s')
          (put_file env path sized file s)
  unfolding put_file throw_error_if_file_is_too_big
  put_file_lem path sized file s =
      Yields-bind (outside env (env.create path file)) _ s
        (Yields-weaken _ (Yields-outside env keeps (env.create path file) s) (λ _ s' same. same)
          (λ _ s' same. inl same))
        (λ _ s1 created. elim (Bool-cases (ltb env.max_file_size sized.size)) [
          | inl large ↦ rw large (Yields-throw (inl created))
          | inr small ↦ rw small (
              Yields-bind {P = λ _ s2. Written env keeps (sized ∷ []) s s2} (save env (sized ∷ []))
                _ s1
                (Yields-weaken _ (Yields-save env keeps (sized ∷ []) s1)
                  (λ _ s2 done id. done id ∙ ap (persisted (sized ∷ []) id) (created id))
                  (λ _ s2 (_, same). inl (Unchanged-trans env keeps s s1 s2 created same)))
                (λ _ s2 done.
                  Yields-bind {P = λ _ s3. Written env keeps (sized ∷ []) s s3} (send env sized) _
                    s2
                    (Yields-weaken _ (Yields-send env keeps sized s2)
                      (λ _ s3 same id. same id ∙ done id)
                      (λ _ s3 same. inr (λ id. same id ∙ done id)))
                    (λ _ s3 stored. Yields-ok (refl, ground (arith, small), stored))))
        ])

  removed-persisted :
      (r sized : FileRecord) (id : String) (old : Option FileRecord)
      → sized.id ≡ r.id
      → removed (r ∷ []) id (persisted (sized ∷ []) id old) ≡ removed (r ∷ []) id old
  removed-persisted r sized id old same = ground (arith, ap (λ i. i == id) same)

  store_file_lem :
      (path : String) (r : FileRecord) (file : FileDto) (s : Store D W)
      → ((paths : List String) (w : W) → (env.delete paths w).0 ≡ ok tt)
      → ((rs : List FileRecord) (d : D) → (env.remove_and_flush rs d).0 ≡ ok tt)
      → Yields
          (λ a s'.
            (a ≡ record r { size = count_file_size file.chunks })
            × (count_file_size file.chunks ≤ env.max_file_size)
            × Written env keeps (record r { size = count_file_size file.chunks } ∷ []) s s')
          (λ _ s'. Removed env keeps (r ∷ []) s s')
          (store_file env path r file s)
  unfolding store_file
  store_file_lem path r file s deletes removes =
      Yields-try (put_file env path sized file) _ s (put_file_lem path sized file s) (λ e s1 h.
        rw (deletes (path ∷ []) s1.world) (
          Yields-bind {P = λ _ s'. Removed env keeps (r ∷ []) s s'} (delete_records env (r ∷ [])) _
            (called s1)
            (Yields-weaken _ (Yields-delete env keeps (r ∷ []) (called s1))
              (λ _ s2 gone. undone s1 s2 h gone)
              (λ t s2 (fails, _). absurd (no_throw (sym (removes (r ∷ []) s1.db) ∙ fails))))
            (λ _ s2 gone. Yields-throw gone)))
    where
      sized : FileRecord
      sized = record r { size = count_file_size file.chunks }

      called : Store D W → Store D W
      called s1 = record { db = s1.db; world = (env.delete (path ∷ []) s1.world).1 }

      returned : Result (Unit {0})
      returned = ok tt

      no_throw : {t : Exception} → ¬ (returned ≡ throw t)
      no_throw e = cc

      undone :
          (s1 s2 : Store D W)
          → Unchanged env keeps s s1 ⊎ Written env keeps (sized ∷ []) s s1
          → Removed env keeps (r ∷ []) s1 s2
          → Removed env keeps (r ∷ []) s s2
      undone s1 s2 (inl same) gone id = gone id ∙ ap (removed (r ∷ []) id) (same id)
      undone s1 s2 (inr stored) gone id =
          gone id
          ∙ ap (removed (r ∷ []) id) (stored id)
          ∙ removed-persisted r sized id (keeps.lookup s.db id) refl

  -- With a school and a new id that are not empty, and that id not taken, and with a storage
  -- and a database whose deletions do not throw: an upload either returns a record of the
  -- parent under the new id, with the size of the file, which is within the limit, and a name
  -- that no file of the parent has, and leaves that record in the database, all else being as
  -- it was; or it throws, wherever the error came from, and the database gives under every id
  -- what it gave.
  pub upload_file_lem :
      (fresh : Fresh) (user_id : String) (params : ParentInfo) (file : FileDto) (s : Store D W)
      → params.school_id ≢ ""
      → fresh.id ≢ ""
      → keeps.lookup s.db fresh.id ≡ none
      → ((paths : List String) (w : W) → (env.delete paths w).0 ≡ ok tt)
      → ((rs : List FileRecord) (d : D) → (env.remove_and_flush rs d).0 ≡ ok tt)
      → Yields
          (λ r s'.
            (rs : List FileRecord) × (get_file_records_of_parent env params s ≡ (ok rs, s))
            × IsUploaded env.max_file_size fresh params file rs r
            × ((id : String)
                → keeps.lookup s'.db id
                  ≡ (if fresh.id == id then some r else keeps.lookup s.db id)))
          (λ _ s'. Unchanged env keeps s s')
          (upload_file env fresh user_id params file s)
  unfolding upload_file create_file_in_storage_and_rollback_on_error create_path
      get_file_records_of_parent find_by_school_id_and_parent_id create_new_file_record
      resolve_file_name create_file_record new_file_record get_parent_info
  upload_file_lem fresh user_id params file s school id free deletes removes = go _ refl
    where
      made_with : String → FileRecord
      made_with name = create_file_record fresh name 0 file.mime_type params user_id

      go :
          (found : Result (List FileRecord))
          → (get_file_records_of_parent env params s).0 ≡ found
          → Yields
              (λ r s'.
                (rs : List FileRecord) × (get_file_records_of_parent env params s ≡ (ok rs, s))
                × IsUploaded env.max_file_size fresh params file rs r
                × ((id : String)
                    → keeps.lookup s'.db id
                      ≡ (if fresh.id == id then some r else keeps.lookup s.db id)))
              (λ _ s'. Unchanged env keeps s s')
              (upload_file env fresh user_id params file s)
      go (throw e) listed = rw (listed, continued) (Yields-throw (λ _. refl))
      go (ok rs) listed =
          let both : get_file_records_of_parent env params s ≡ (ok rs, s) =
            ap (λ x. (x, s)) listed in
          let (name, made, unused) = new_record env fresh user_id params file s rs both in
          rw (made, continued)
            (Yields-bind {P = λ _ s1. Written env keeps (made_with name ∷ []) s s1}
              (save env (made_with name ∷ [])) _ s
              (Yields-weaken _ (Yields-save env keeps (made_with name ∷ []) s)
                (λ _ s1 stored. stored) (λ _ s1 (_, same). same))
              (λ _ s1 stored.
                rw (==_false school, ==_false id)
                  (Yields-weaken _ (store_file_lem _ (made_with name) file s1 deletes removes)
                    (λ a s2 (e, fits, after). rw e (
                      rs,
                      both,
                      (refl, refl, unused, refl, fits),
                      λ i. ground (arith, after i, stored i),
                    ))
                    (λ e s2 gone i.
                      ground (
                        arith,
                        gone i,
                        stored i,
                        ==_iff fresh.id i,
                        free,
                        ap (keeps.lookup s.db),
                      )))))
