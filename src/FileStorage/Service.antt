-- ===== src/FileStorage/Service.antt =====
-- files-storage.service.ts with helper/path.ts and antivirus.service.ts. Logging is left out.
pub mod Kept
pub mod Copying
pub mod CopyingLaws
pub mod Uploading
pub mod Written
pub mod Deleting
pub mod DeletingAll
pub mod UniqueNames
pub mod Scanning
use schulcloud_server.Prelude.{
  ℕ, zero, suc, ◌+◌, String, Bool, true, false, not, ◌&&◌, ◌||◌, List, [], ◌∷◌, Option, none, some,
  Result, ok, throw, Exception, error, bad_request, conflict, not_found, not_acceptable,
  internal_server_error, guard, any, map_result, ltb, if◌then◌else◌, ◌==◌, string_eq,
}
use schulcloud_server.FileStorage.Record.{
  FileRecord, Fresh, ParentInfo, ScanStatus, verified, blocked, scan_error, has_name, is_blocked,
  is_pending, get_parent_info, update_security_check_status, mark_all_for_delete,
  unmark_all_for_delete, set_name, create_file_record, copy as copy_record, or_default,
}
use schulcloud_server.FileStorage.ScanResult.{ScanResultParams, map_scan_result_params_to_dto}
use schulcloud_server.FileStorage.Names.{Naming, resolve_file_name_duplicates}
use schulcloud_server.Action.{Action, pure, raise, of_result, try_catch, map_action, ◌>>=◌, ◌>>◌}
use schulcloud_server.FileStorage.Environment.{
  Environment, Store, FileDto, CopyFiles, save, delete as delete_records, outside, find_one_by_id,
  find_one_by_id_marked_for_delete, find_by_school_id_and_parent_id,
  find_by_school_id_and_parent_id_and_marked_for_delete, find_by_security_check_request_token,
}

-- Chunks by length, as `countFileSize` sums them.
unfoldable pub count_file_size : (chunks : List ℕ) → ℕ
count_file_size [] = 0
count_file_size (chunk ∷ chunks) = chunk + count_file_size chunks

abbrev pub is_empty_list : List FileRecord → Bool
is_empty_list [] = true
is_empty_list (_ ∷ _) = false

unfoldable pub check_duplicated_names : List FileRecord → String → Result (Unit {0})
check_duplicated_names rs name = guard (not (any (has_name name) rs)) (conflict "FILE_NAME_EXISTS")

unfoldable pub check_file_name : FileRecord → (file_name : String) → Result (Unit {0})
check_file_name r file_name = guard (has_name file_name r) (not_found "FILE_NOT_FOUND")

unfoldable pub check_scan_status : FileRecord → Result (Unit {0})
check_scan_status r = guard (not (is_blocked r)) (not_acceptable "FILE_IS_BLOCKED")

module _ {D W F : Type 0} (env : Environment D W F) where
  unfoldable pub create_path : (school_id file_record_id : String) → Result String
  create_path school_id file_record_id =
      if school_id == "" || file_record_id == ""
      then throw (error "COULD_NOT_CREATE_PATH")
      else ok (env.join school_id file_record_id)

  unfoldable pub get_paths : List FileRecord → Result (List String)
  get_paths rs = map_result (λ r. create_path r.school_id r.id) rs

  -- antivirus.service.ts, send
  abbrev pub send_token : Option String → Action (Store D W) (Unit {0})
  send_token none = pure tt
  send_token (some token) =
      if env.enabled && not (token == "")
      then try_catch (outside env (env.publish token))
          (λ e. raise (internal_server_error "AntivirusService"))
      else pure tt

  unfoldable pub send : FileRecord → Action (Store D W) (Unit {0})
  send r = send_token r.security_check.request_token

  unfoldable pub get_file_record : (id : String) → Action (Store D W) FileRecord
  get_file_record id = find_one_by_id env id

  unfoldable pub get_file_record_by_security_check_request_token :
      String → Action (Store D W) FileRecord
  get_file_record_by_security_check_request_token token =
      find_by_security_check_request_token env token

  unfoldable pub get_file_record_marked_for_delete : (id : String) → Action (Store D W) FileRecord
  get_file_record_marked_for_delete id = find_one_by_id_marked_for_delete env id

  unfoldable pub get_file_records_of_parent : ParentInfo → Action (Store D W) (List FileRecord)
  get_file_records_of_parent params =
      find_by_school_id_and_parent_id env params.school_id params.parent_id

  unfoldable pub resolve_file_name : FileDto → ParentInfo → Action (Store D W) String
  resolve_file_name file params = get_file_records_of_parent params >>= λ rs.
      pure (
        if is_empty_list rs
        then file.name
        else resolve_file_name_duplicates env.naming file.name rs)

  unfoldable pub create_new_file_record :
      Fresh → FileDto → ParentInfo → (user_id : String) → Action (Store D W) FileRecord
  create_new_file_record fresh file params user_id = resolve_file_name file params >>= λ file_name.
      pure (create_file_record fresh file_name 0 file.mime_type params user_id)

  unfoldable pub throw_error_if_file_is_too_big : ℕ → Result (Unit {0})
  throw_error_if_file_is_too_big file_size =
      guard (not (ltb env.max_file_size file_size)) (bad_request "FILE_TOO_BIG")

  -- What is tried, with the record that has its size.
  unfoldable pub put_file : (path : String) → FileRecord → FileDto → Action (Store D W) FileRecord
  put_file path sized file = do
    outside env (env.create path file)
    of_result (throw_error_if_file_is_too_big sized.size)
    save env (sized ∷ [])
    send sized
    pure sized

  -- The `try` and its `catch`, once there is a path.
  unfoldable pub store_file : (path : String) → FileRecord → FileDto → Action (Store D W) FileRecord
  store_file path r file =
      try_catch (put_file path (record r { size = count_file_size file.chunks }) file)
        (λ e. do outside env (env.delete (path ∷ [])); delete_records env (r ∷ []); raise e)

  unfoldable pub create_file_in_storage_and_rollback_on_error :
      FileRecord → ParentInfo → FileDto → Action (Store D W) FileRecord
  create_file_in_storage_and_rollback_on_error r params file =
      of_result (create_path params.school_id r.id) >>= λ path. store_file path r file

  unfoldable pub upload_file :
      Fresh → (user_id : String) → ParentInfo → FileDto → Action (Store D W) FileRecord
  upload_file fresh user_id params file = do
    r ← create_new_file_record fresh file params user_id
    save env (r ∷ [])
    create_file_in_storage_and_rollback_on_error r params file

  unfoldable pub patch_filename : FileRecord → (file_name : String) → Action (Store D W) FileRecord
  patch_filename r file_name = do
    rs ← get_file_records_of_parent (get_parent_info r)
    of_result (check_duplicated_names rs file_name)
    renamed ← of_result (set_name file_name r)
    save env (renamed ∷ [])
    pure renamed

  unfoldable pub update_security_status :
      (now : ℕ) → (token : String) → ScanResultParams → Action (Store D W) (Unit {0})
  update_security_status now token params = do
    r ← find_by_security_check_request_token env token
    let result = map_scan_result_params_to_dto params in
        save env (update_security_check_status now result.status result.reason r ∷ [])

  unfoldable pub download_file :
      (school_id file_record_id : String) → (bytes_range : Option String) → Action (Store D W) F
  download_file school_id file_record_id bytes_range =
      of_result (create_path school_id file_record_id) >>= λ path.
      outside env (env.get path bytes_range)

  unfoldable pub download :
      FileRecord → (file_name : String) → (bytes_range : Option String) → Action (Store D W) F
  download r file_name bytes_range = do
    of_result (check_file_name r file_name)
    of_result (check_scan_status r)
    download_file r.school_id r.id bytes_range

  -- The records after `markForDelete` are the marked ones everywhere: they are the same objects.
  unfoldable pub delete_with_rollback_by_error : List FileRecord → Action (Store D W) (Unit {0})
  delete_with_rollback_by_error rs =
      try_catch (of_result (get_paths rs) >>= λ paths. outside env (env.move_to_trash paths))
        (λ e. save env rs >> raise (internal_server_error "FilesStorageService:delete"))

  unfoldable pub delete : (now : ℕ) → List FileRecord → Action (Store D W) (Unit {0})
  delete now rs = do
    save env (mark_all_for_delete now rs)
    delete_with_rollback_by_error (mark_all_for_delete now rs)

  unfoldable pub delete_files_of_parent :
      (now : ℕ) → ParentInfo → Action (Store D W) (List FileRecord)
  delete_files_of_parent now params = get_file_records_of_parent params >>= λ rs.
      if is_empty_list rs then pure [] else delete now rs >> pure (mark_all_for_delete now rs)

  unfoldable pub restore_with_rollback_by_error :
      (now : ℕ) → List FileRecord → Action (Store D W) (Unit {0})
  restore_with_rollback_by_error now rs =
      try_catch (of_result (get_paths rs) >>= λ paths. outside env (env.restore paths)) (λ e.
        save env (mark_all_for_delete now rs)
        >> raise (internal_server_error "FilesStorageService:restore"))

  unfoldable pub restore : (now : ℕ) → List FileRecord → Action (Store D W) (Unit {0})
  restore now rs = do
    save env (unmark_all_for_delete rs)
    restore_with_rollback_by_error now (unmark_all_for_delete rs)

  unfoldable pub restore_files_of_parent :
      (now : ℕ) → ParentInfo → Action (Store D W) (List FileRecord)
  restore_files_of_parent now params =
      find_by_school_id_and_parent_id_and_marked_for_delete env params.school_id params.parent_id
      >>= λ rs.
          if is_empty_list rs then pure [] else restore now rs >> pure (unmark_all_for_delete rs)
