-- ===== src/FileStorage/Service/Copying.antt =====
-- files-storage.service.ts: the copies.
use schulcloud_server.Prelude.{
  String, List, [], ◌∷◌, Option, none, some, Result, ok, throw, if◌then◌else◌,
}
use schulcloud_server.FileStorage.Record.{
  FileRecord, Fresh, ParentInfo, is_pending, copy as copy_record,
}
use schulcloud_server.Action.{Action, pure, raise, of_result, try_catch, map_action, ◌>>=◌, ◌>>◌}
use schulcloud_server.FileStorage.Environment.{
  Environment, Store, CopyFiles, save, delete as delete_records, outside,
  find_by_school_id_and_parent_id,
}
use schulcloud_server.FileStorage.Service.{create_path, send, check_scan_status, is_empty_list}

-- What a copy answers: without an id where it failed.
pub record CopyFileResponse : Type 0 where
  pub id : Option String
  pub source_id : String
  pub name : String

module _ {D W F : Type 0} (env : Environment D W F) where
  unfoldable pub copy_file_record :
      Fresh → FileRecord → ParentInfo → (user_id : String) → Action (Store D W) FileRecord
  copy_file_record fresh source target_params user_id =
      let target = copy_record fresh user_id target_params source in
      save env (target ∷ []) >> pure target

  unfoldable pub send_to_anti_virus_service : FileRecord → Action (Store D W) (Unit {0})
  send_to_anti_virus_service source = if is_pending source then send env source else pure tt

  unfoldable pub create_i_copy_files : (source target : FileRecord) → Result CopyFiles
  create_i_copy_files source target =
      copy_files (create_path env source.school_id source.id)
        (create_path env target.school_id target.id)
    where
      copy_files : Result String → Result String → Result CopyFiles
      copy_files (throw e) _ = throw e
      copy_files (ok _) (throw e) = throw e
      copy_files (ok source_path) (ok target_path) =
          ok (record { source_path = source_path; target_path = target_path })

  unfoldable pub copy_files_with_rollback_on_error :
      (source target : FileRecord) → Action (Store D W) CopyFileResponse
  copy_files_with_rollback_on_error source target =
      try_catch
        (do
          paths ← of_result (create_i_copy_files source target)
          outside env (env.copy paths)
          send_to_anti_virus_service source
          pure (record { id = some target.id; source_id = source.id; name = target.name }))
        (λ e. delete_records env (target ∷ []) >> raise e)

  -- The body of the callback of `map`.
  unfoldable pub copy_one :
      (user_id : String)
      → (target_params : ParentInfo) → Fresh
      → FileRecord
      → Action (Store D W) CopyFileResponse
  copy_one user_id target_params fresh source =
      try_catch
        (do
          of_result (check_scan_status source)
          target ← copy_file_record fresh source target_params user_id
          copy_files_with_rollback_on_error source target)
        (λ e. pure (record { id = none; source_id = source.id; name = source.name }))

  -- `fresh` is what is new with the copy of each record.
  unfoldable pub copy :
      (fresh : FileRecord → Fresh)
      → (user_id : String) → List FileRecord
      → (target_params : ParentInfo) → Action (Store D W) (List CopyFileResponse)
  copy fresh user_id sources target_params =
      map_action (λ source. copy_one user_id target_params (fresh source) source) sources

  unfoldable pub copy_files_of_parent :
      (fresh : FileRecord → Fresh)
      → (user_id : String) → (params target_params : ParentInfo)
      → Action (Store D W) (List CopyFileResponse)
  copy_files_of_parent fresh user_id params target_params =
      find_by_school_id_and_parent_id env params.school_id params.parent_id >>= λ rs.
      if is_empty_list rs then pure [] else copy fresh user_id rs target_params
