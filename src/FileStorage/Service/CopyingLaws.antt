-- ===== src/FileStorage/Service/CopyingLaws.antt =====
-- files-storage.service.ts: what a copy leaves in the database, and that a failure stays with its file.
use schulcloud_server.Prelude.{
  Exception, String, false, List, [], ◌∷◌, map, Option, none, some, ◌≡◌, ◌⊎◌, inl, inr, refl, ap,
  ◌∙◌, arith, if◌then◌else◌, ◌==◌, string_eq, ==_iff, Bool-cases,
}
use schulcloud_server.FileStorage.Record.{
  FileRecord, Fresh, ParentInfo, is_blocked, is_pending, is_verified, new_file_record,
  copy as copy_record,
}
use schulcloud_server.Action.{Action, pure, of_result, ◌>>=◌, ◌>>◌}
use schulcloud_server.Action.Yields.{
  Yields, Yields-ok, Yields-throw, Yields-result, Yields-bind, Yields-try, Yields-weaken,
}
use schulcloud_server.FileStorage.Environment.{
  Environment, Keeps, Store, CopyFiles, save, delete as delete_records, outside, removed,
}
use schulcloud_server.FileStorage.Service.{check_scan_status}
use schulcloud_server.FileStorage.Service.Copying.{
  CopyFileResponse, copy, copy_one, copy_file_record, copy_files_with_rollback_on_error,
  create_i_copy_files, send_to_anti_virus_service,
}
use schulcloud_server.FileStorage.Service.Kept.{
  Unchanged, Written, Removed, RemovalThrows, KeptAfter, Unchanged-trans, Yields-save,
  Yields-delete, Yields-outside, Yields-send,
}

copy-id_name :
    (fresh : Fresh) (user_id : String) (params : ParentInfo) (r : FileRecord)
    → ((copy_record fresh user_id params r).id ≡ fresh.id)
      × ((copy_record fresh user_id params r).name ≡ r.name)
unfolding copy_record new_file_record
copy-id_name fresh user_id params r = elim (Bool-cases (is_verified r)) [
  | inl same ↦ rw same (refl, refl)
  | inr other ↦ rw other (refl, refl)
]

module _ {D W F : Type 0} (env : Environment D W F) (keeps : Keeps env) where
  Yields-sent :
      (r : FileRecord) (s : Store D W)
      → Yields
          (λ _ s'. Unchanged env keeps s s')
          (λ _ s'. Unchanged env keeps s s')
          (send_to_anti_virus_service env r s)
  unfolding send_to_anti_virus_service
  Yields-sent r s = elim (Bool-cases (is_pending r)) [
    | inl sends ↦ rw sends (Yields-send env keeps r s)
    | inr silent ↦ rw silent (Yields-ok (λ _. refl))
  ]

  copy_files_lem :
      (source target : FileRecord) (s : Store D W)
      → Yields
          (λ a s'.
            (a ≡ record { id = some target.id; source_id = source.id; name = target.name })
            × Unchanged env keeps s s')
          (λ e s'.
            Removed env keeps (target ∷ []) s s'
            ⊎ (((t : Store D W) × Unchanged env keeps s t × RemovalThrows env (target ∷ []) t.db e)
                × Unchanged env keeps s s'))
          (copy_files_with_rollback_on_error env source target s)
  unfolding copy_files_with_rollback_on_error
  copy_files_lem source target s =
      Yields-try (of_result (create_i_copy_files env source target) >>= put) _ s
        (Yields-bind {P = λ _ s'. Unchanged env keeps s s'}
          (of_result (create_i_copy_files env source target)) put s
          (Yields-result (create_i_copy_files env source target) s (λ _ _ _. refl) (λ _ _ _. refl))
          (λ paths s1 same1.
            Yields-bind {P = λ _ s'. Unchanged env keeps s s'} (outside env (env.copy paths)) _ s1
              (Yields-weaken _ (Yields-outside env keeps (env.copy paths) s1)
                (λ _ s2. Unchanged-trans env keeps s s1 s2 same1)
                (λ _ s2. Unchanged-trans env keeps s s1 s2 same1))
              (λ _ s2 same2.
                Yields-bind {P = λ _ s'. Unchanged env keeps s s'}
                  (send_to_anti_virus_service env source) _ s2
                  (Yields-weaken _ (Yields-sent source s2)
                    (λ _ s3. Unchanged-trans env keeps s s2 s3 same2)
                    (λ _ s3. Unchanged-trans env keeps s s2 s3 same2))
                  (λ _ s3 same3. Yields-ok (refl, same3)))))
        (λ e s1 same.
          Yields-bind {P = λ _ s'. Removed env keeps (target ∷ []) s s'}
            (delete_records env (target ∷ [])) _ s1
            (Yields-weaken _ (Yields-delete env keeps (target ∷ []) s1)
              (λ _ s2 gone id. gone id ∙ ap (removed (target ∷ []) id) (same id))
              (λ t s2 (fails, still).
                inr ((s1, same, fails), Unchanged-trans env keeps s s1 s2 same still)))
            (λ _ s2 gone. Yields-throw (inl gone)))
    where
      answer : CopyFileResponse
      answer = record { id = some target.id; source_id = source.id; name = target.name }

      put : CopyFiles → Action (Store D W) CopyFileResponse
      put paths =
          outside env (env.copy paths) >> (send_to_anti_virus_service env source >> pure answer)

  -- What the database gives, with the copy under its id.
  abbrev pub HasCopy : Fresh → FileRecord → Store D W → Store D W → Type 0
  HasCopy fresh target s s' =
      (id : String)
      → keeps.lookup s'.db id ≡ (if fresh.id == id then some target else keeps.lookup s.db id)

  -- Copying one file under an id that is not taken never throws, and answers with the id and
  -- the name of the source: without an id of a copy, the database giving under every id what it
  -- gave; or, if the source is not blocked, with the new id, under which the database now has
  -- the copy, all else being as it was; or without an id though the copy is in the database,
  -- the source not being blocked, after the database, holding the copy, refused to remove it.
  pub copy_one_lem :
      (user_id : String) (target_params : ParentInfo) (fresh : Fresh) (source : FileRecord)
      (s : Store D W)
      → keeps.lookup s.db fresh.id ≡ none
      → Yields
          (λ a s'.
            (a.source_id ≡ source.id)
            × (a.name ≡ source.name)
            × (((a.id ≡ none) × Unchanged env keeps s s')
                ⊎ ((a.id ≡ some fresh.id)
                    × (is_blocked source ≡ false)
                    × HasCopy fresh (copy_record fresh user_id target_params source) s s')
                ⊎ ((a.id ≡ none)
                    × (is_blocked source ≡ false)
                    × ((e : Exception) × KeptAfter env keeps
                          (copy_record fresh user_id target_params source ∷ [])
                          (copy_record fresh user_id target_params source ∷ [])
                          s
                          e)
                    × HasCopy fresh (copy_record fresh user_id target_params source) s s')))
          (λ _ _. ⊥)
          (copy_one env user_id target_params fresh source s)
  unfolding copy_one copy_file_record check_scan_status
  copy_one_lem user_id target_params fresh source s free =
      Yields-try (of_result (check_scan_status source) >>= λ _. rest) _ s body
        (λ e s' h. Yields-ok (refl, refl, failed e s' h))
    where
      target : FileRecord
      target = copy_record fresh user_id target_params source

      rest : Action (Store D W) CopyFileResponse
      rest = copy_file_record env fresh source target_params user_id >>= λ t.
          copy_files_with_rollback_on_error env source t

      target_id : target.id ≡ fresh.id
      target_id = (copy-id_name fresh user_id target_params source).0

      target_name : target.name ≡ source.name
      target_name = (copy-id_name fresh user_id target_params source).1

      stored :
          (s1 s' : Store D W)
          → Written env keeps (target ∷ []) s s1
          → Unchanged env keeps s1 s'
          → HasCopy fresh target s s'
      stored s1 s' written same id =
          same id
          ∙ written id
          ∙ ap (λ i. if i == id then some target else keeps.lookup s.db id) target_id

      undone :
          (s1 s' : Store D W)
          → Written env keeps (target ∷ []) s s1
          → Removed env keeps (target ∷ []) s1 s'
          → Unchanged env keeps s s'
      undone s1 s' written gone id =
          ground (
            arith,
            gone id,
            written id,
            ==_iff target.id id,
            target_id,
            free,
            ap (keeps.lookup s.db),
          )

      Failed : Exception → Store D W → Type 0
      Failed e s' =
          Unchanged env keeps s s'
          ⊎ ((is_blocked source ≡ false)
              × KeptAfter env keeps (target ∷ []) (target ∷ []) s e
              × HasCopy fresh target s s')

      rolled_back :
          (e : Exception) (s1 s' : Store D W)
          → is_blocked source ≡ false
          → Written env keeps (target ∷ []) s s1
          → Removed env keeps (target ∷ []) s1 s'
            ⊎ (((t : Store D W) × Unchanged env keeps s1 t × RemovalThrows env (target ∷ []) t.db e)
                × Unchanged env keeps s1 s')
          → Failed e s'
      rolled_back e s1 s' passes written (inl gone) = inl (undone s1 s' written gone)
      rolled_back e s1 s' passes written (inr ((t, same_t, fails), same)) =
          inr (passes, (t, λ id. same_t id ∙ written id, fails), stored s1 s' written same)

      no_id : Option String
      no_id = none

      failed :
          (e : Exception) (s' : Store D W)
          → Failed e s'
          → ((no_id ≡ none) × Unchanged env keeps s s')
            ⊎ ((no_id ≡ some fresh.id) × (is_blocked source ≡ false) × HasCopy fresh target s s')
            ⊎ ((no_id ≡ none)
                × (is_blocked source ≡ false)
                × ((e : Exception) × KeptAfter env keeps (target ∷ []) (target ∷ []) s e)
                × HasCopy fresh target s s')
      failed e s' (inl same) = inl (refl, same)
      failed e s' (inr (passes, fails, has)) = inr (inr (refl, passes, (e, fails), has))

      body :
          Yields
            (λ a s'.
              (a.source_id ≡ source.id)
              × (a.name ≡ source.name)
              × (((a.id ≡ none) × Unchanged env keeps s s')
                  ⊎ ((a.id ≡ some fresh.id)
                      × (is_blocked source ≡ false)
                      × HasCopy fresh target s s')
                  ⊎ ((a.id ≡ none)
                      × (is_blocked source ≡ false)
                      × ((e : Exception) × KeptAfter env keeps (target ∷ []) (target ∷ []) s e)
                      × HasCopy fresh target s s')))
            (λ e s'. Failed e s')
            ((of_result (check_scan_status source) >>= λ _. rest) s)
      body = elim (Bool-cases (is_blocked source)) [
        | inl stops ↦ rw stops (Yields-throw (inl (λ _. refl)))
        | inr passes ↦ rw passes (
            Yields-bind {P = λ t s1. (t ≡ target) × Written env keeps (target ∷ []) s s1}
              (copy_file_record env fresh source target_params user_id) _ s
              (Yields-bind {P = λ _ s1. Written env keeps (target ∷ []) s s1}
                (save env (target ∷ [])) _ s
                (Yields-weaken _ (Yields-save env keeps (target ∷ []) s) (λ _ s1 h. h)
                  (λ _ s1 (_, same). inl same))
                (λ _ s1 written. Yields-ok (refl, written)))
              (λ t s1 (is_target, written). rw is_target (
                Yields-weaken _ (copy_files_lem source target s1)
                  (λ a s' (answer, same). rw answer (
                    refl,
                    target_name,
                    inr (inl (ap some target_id, refl, stored s1 s' written same)),
                  ))
                  (λ e s' h. rw passes at (rolled_back e s1 s' passes written h)))))
      ]

  -- The callback answers for its source, whatever happens.
  copy_one-answers :
      (user_id : String) (target_params : ParentInfo) (fresh : Fresh) (source : FileRecord)
      (s : Store D W)
      → Yields
          (λ a _. a.source_id ≡ source.id)
          (λ _ _. ⊥)
          (copy_one env user_id target_params fresh source s)
  unfolding copy_one copy_file_record check_scan_status
  copy_one-answers user_id target_params fresh source s =
      Yields-try {G = λ _ _. Unit} (of_result (check_scan_status source) >>= λ _. rest) _ s
        (elim (Bool-cases (is_blocked source)) [
          | inl stops ↦ rw stops (Yields-throw tt)
          | inr passes ↦ rw passes (
              Yields-bind {P = λ _ _. Unit}
                (copy_file_record env fresh source target_params user_id) _ s
                (Yields-bind {P = λ _ _. Unit} (save env (_ ∷ [])) _ s
                  (Yields-weaken _ (Yields-save env keeps _ s) (λ _ _ _. tt) (λ _ _ _. tt))
                  (λ _ s1 _. Yields-ok tt))
                (λ t s1 _.
                  Yields-weaken _ (copy_files_lem source t s1)
                    (λ a s' (answer, _). ap (λ (x : CopyFileResponse). x.source_id) answer)
                    (λ _ _ _. tt)))
        ])
        (λ e s' _. Yields-ok refl)
    where
      rest : Action (Store D W) CopyFileResponse
      rest = copy_file_record env fresh source target_params user_id >>= λ t.
          copy_files_with_rollback_on_error env source t

  -- The copies answer for their sources in order, and no failure ends the whole call.
  pub copy_lem :
      (fresh : FileRecord → Fresh) (user_id : String) (sources : List FileRecord)
      (target_params : ParentInfo) (s : Store D W)
      → Yields
          (λ answers _.
            map (λ (a : CopyFileResponse). a.source_id) answers
            ≡ map (λ (r : FileRecord). r.id) sources)
          (λ _ _. ⊥)
          (copy env fresh user_id sources target_params s)
  unfolding copy
  copy_lem fresh user_id [] target_params s = Yields-ok refl
  copy_lem fresh user_id (r ∷ rs) target_params s =
      Yields-bind {P = λ a _. a.source_id ≡ r.id} (copy_one env user_id target_params (fresh r) r) _
        s (copy_one-answers user_id target_params (fresh r) r s)
        (λ a s1 first.
          Yields-bind (copy env fresh user_id rs target_params) _ s1
            (copy_lem fresh user_id rs target_params s1)
            (λ others s2 rest. Yields-ok (rw (first, rest) refl)))
