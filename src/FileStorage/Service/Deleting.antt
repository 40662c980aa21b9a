-- ===== src/FileStorage/Service/Deleting.antt =====
-- files-storage.service.ts: what deleting and restoring leave in the database.
use schulcloud_server.Prelude.{
  ℕ, String, List, map, Result, Exception, internal_server_error, ◌≡◌, ◌⊎◌, inl, inr, refl, ap, ◌∙◌,
  string_eq,
}
use schulcloud_server.FileStorage.Record.{
  FileRecord, mark_for_delete, unmark_for_delete, mark_all_for_delete, unmark_all_for_delete,
}
use schulcloud_server.Action.{Action, raise, of_result, try_catch, ◌>>=◌, ◌>>◌}
use schulcloud_server.Action.Yields.{
  Yields, Yields-throw, Yields-result, Yields-bind, Yields-try, Yields-weaken,
}
use schulcloud_server.FileStorage.Environment.{Environment, Keeps, Store, save, outside, persisted}
use schulcloud_server.FileStorage.Service.{get_paths, restore, restore_with_rollback_by_error}
use schulcloud_server.FileStorage.Service.Kept.{
  SaveThrows, RefusedAfter, Unchanged, Written, Unchanged-trans, Yields-save, Yields-outside,
}
use schulcloud_server.FileStorage.Service.Written.{KeepsId, persisted-persisted, map-map}

module _ {D W F : Type 0} (env : Environment D W F) (keeps : Keeps env) where
  -- The storage is called with the paths, unless one of them cannot be made.
  Yields-paths :
      (rs : List FileRecord) (call : List String → W → Result (Unit {0}) × W) (s : Store D W)
      → Yields
          (λ _ s'. Unchanged env keeps s s')
          (λ _ s'. Unchanged env keeps s s')
          ((of_result (get_paths env rs) >>= λ paths. outside env (call paths)) s)
  Yields-paths rs call s =
      Yields-bind {P = λ _ s'. Unchanged env keeps s s'} (of_result (get_paths env rs)) _ s
        (Yields-result (get_paths env rs) s (λ _ _ _. refl) (λ _ _ _. refl))
        (λ paths s' same.
          Yields-weaken _ (Yields-outside env keeps (call paths) s')
            (λ _ s2. Unchanged-trans env keeps s s' s2 same)
            (λ _ s2. Unchanged-trans env keeps s s' s2 same))

  Written-twice :
      (f g : FileRecord → FileRecord) (rs : List FileRecord) (s s' s'' : Store D W)
      → KeepsId f
      → KeepsId g
      → Written env keeps (map g rs) s s'
      → Written env keeps (map f rs) s' s''
      → Written env keeps (map f rs) s s''
  Written-twice f g rs s s' s'' keeps_f keeps_g first second id =
      second id
      ∙ ap (persisted (map f rs) id) (first id)
      ∙ persisted-persisted f g rs id (keeps.lookup s.db id) keeps_f keeps_g

  -- What is left where such a method throws: its first write was refused; or the storage failed
  -- and the second write was done; or it was refused too, and the first stands.
  Left :
      (first second : List FileRecord) (text : String) → Store D W → Exception → Store D W → Type 0
  Left first second text s e s' =
      (SaveThrows env first s.db e × Unchanged env keeps s s')
      ⊎ ((e ≡ internal_server_error text) × Written env keeps second s s')
      ⊎ (RefusedAfter env keeps first second s e × Written env keeps first s s')

  -- The shape of both methods: some write, a call of the storage, another write if that throws.
  guarded :
      (first second : List FileRecord) (call : List String → W → Result (Unit {0}) × W)
      (text : String)
      → Action (Store D W) (Unit {0})
  guarded first second call text =
      save env first
      >> try_catch (of_result (get_paths env first) >>= λ paths. outside env (call paths))
          (λ e. save env second >> raise (internal_server_error text))

  guarded_lem :
      (f g : FileRecord → FileRecord) (rs second : List FileRecord)
      (call : List String → W → Result (Unit {0}) × W) (text : String) (s : Store D W)
      → KeepsId f
      → KeepsId g
      → second ≡ map f rs
      → Yields
          (λ _ s'. Written env keeps (map g rs) s s')
          (Left (map g rs) (map f rs) text s)
          (guarded (map g rs) second call text s)
  unfolding guarded Left
  guarded_lem f g rs second call text s keeps_f keeps_g is_map = rw is_map (
      Yields-bind {P = λ _ s1. Written env keeps (map g rs) s s1} (save env (map g rs)) _ s
        (Yields-weaken _ (Yields-save env keeps (map g rs) s) (λ _ s1 h. h) (λ e s1 h. inl h))
        (λ _ s1 first.
          Yields-try (of_result (get_paths env (map g rs)) >>= λ paths. outside env (call paths))
            (λ e. save env (map f rs) >> raise (internal_server_error text)) s1
            (Yields-weaken _ (Yields-paths (map g rs) call s1) (λ _ s2 same id. same id ∙ first id)
              (λ _ s2 same. kept s1 s2 first same))
            (λ _ s2 stands.
              Yields-bind {P = λ _ s3. Written env keeps (map f rs) s s3} (save env (map f rs)) _ s2
                (Yields-weaken _ (Yields-save env keeps (map f rs) s2)
                  (λ _ s3 again. Written-twice f g rs s s2 s3 keeps_f keeps_g stands again)
                  (λ e s3 (fails, same).
                    inr (inr ((s2, stands, fails), λ id. same id ∙ stands id))))
                (λ _ s3 second. Yields-throw (inr (inl (refl, second)))))))
    where
      kept :
          (s1 s2 : Store D W)
          → Written env keeps (map g rs) s s1
          → Unchanged env keeps s1 s2
          → Written env keeps (map g rs) s s2
      kept s1 s2 first same id = same id ∙ first id

  -- What is left where a restoration throws is as the comment on `Left` says, the first write
  -- taking the marks away and the second one setting them.
  pub restore_lem :
      (now : ℕ) (rs : List FileRecord) (s : Store D W)
      → Yields
          (λ _ s'. Written env keeps (unmark_all_for_delete rs) s s')
          (λ e s'.
            (SaveThrows env (unmark_all_for_delete rs) s.db e × Unchanged env keeps s s')
            ⊎ ((e ≡ internal_server_error "FilesStorageService:restore")
                × Written env keeps (mark_all_for_delete now rs) s s')
            ⊎ (RefusedAfter env keeps (unmark_all_for_delete rs) (mark_all_for_delete now rs) s e
                × Written env keeps (unmark_all_for_delete rs) s s'))
          (restore env now rs s)
  unfolding guarded restore restore_with_rollback_by_error mark_all_for_delete unmark_all_for_delete
      mark_for_delete unmark_for_delete Left
  restore_lem now rs s =
      guarded_lem (mark_for_delete now) unmark_for_delete rs
        (map (mark_for_delete now) (map unmark_for_delete rs)) env.restore
        "FilesStorageService:restore" s (λ _. refl) (λ _. refl)
        (map-map _ _ (mark_for_delete now) rs (λ _. refl))
