-- ===== src/Examples/Files.antt =====
-- The theorems on the files storage at a database with two files of a course.
use schulcloud_server.Prelude.{
  Exception, ℕ, ◌<◌, ◌+◌, String, Bool, true, false, List, [], ◌∷◌, none, some, ok, throw, ◌≡◌, ◌≢◌,
  ◌⊎◌, inl, inr, refl, length, if◌then◌else◌, ◌==◌, string_eq, not_found, not_acceptable, error,
  bad_request, conflict, ==_iff, arith, Bool-cases, sym, some_inj, ap, ◌∙◌,
}
use schulcloud_server.FileStorage.Record.{
  FileRecord, FileSecurityCheck, ScanStatus, Fresh, ParentInfo, pending, blocked, of_course,
  of_task, get_parent_info, is_blocked, copy as copy_record,
}
use schulcloud_server.FileStorage.Names.{
  has_duplicate_name, resolve_file_name_duplicates, resolve_file_name_duplicates_within,
}
use schulcloud_server.FileStorage.Names.Resolved.{tried, resolve_file_name_duplicates_lem}
use schulcloud_server.FileStorage.ScanResult.{ScanResultParams}
use schulcloud_server.FileStorage.ScanResult.Reported.{Reported}
use schulcloud_server.Action.Yields.{Yields}
use schulcloud_server.FileStorage.Environment.{Store, FileDto, has_token}
use schulcloud_server.FileStorage.Service.{
  upload_file, get_file_records_of_parent, download, patch_filename, update_security_status,
}
use schulcloud_server.FileStorage.Service.Copying.{copy_one}
use schulcloud_server.FileStorage.Service.CopyingLaws.{HasCopy, copy_one_lem}
use schulcloud_server.FileStorage.Service.Kept.{Unchanged, SaveThrows, KeptAfter}
use schulcloud_server.FileStorage.Service.Uploading.{IsUploaded, upload_file_lem}
use schulcloud_server.FileStorage.Service.UniqueNames.{
  Live, Siblings, UniqueNames, patch_filename_lem, upload_file_names,
}
use schulcloud_server.FileStorage.Service.Scanning.{
  UniqueToken, scanned_as, download_lem, update_security_status_once,
}
use schulcloud_server.Examples.FileEnvironment.{Database, environment, keeps, naming}

abbrev course : ParentInfo
course = record { school_id = "school"; parent_id = "course"; parent_type = of_course }

abbrev task : ParentInfo
task = record { school_id = "school"; parent_id = "task"; parent_type = of_task }

abbrev unscanned : FileSecurityCheck
unscanned = record {
  status = pending;
  reason = "not yet scanned";
  request_token = some "token";
  created_at = 1;
  updated_at = 1;
}

abbrev infected : FileSecurityCheck
infected = record {
  status = blocked;
  reason = "Virus detected";
  request_token = none;
  created_at = 1;
  updated_at = 2;
}

abbrev file_of : (id name : String) → FileSecurityCheck → FileRecord
file_of id name check = record {
  id = id;
  deleted_since = none;
  size = 10;
  name = name;
  mime_type = "text/plain";
  security_check = check;
  parent_type = of_course;
  parent_id = "course";
  creator_id = "teacher";
  school_id = "school";
  is_copy_from = none;
}

abbrev notes : FileRecord
notes = file_of "file1" "notes.txt" unscanned

abbrev tool : FileRecord
tool = file_of "file2" "tool.exe" infected

abbrev files : List FileRecord
files = notes ∷ tool ∷ []

abbrev store : Store Database (Unit {0})
store = record { db = files; world = tt }

abbrev fresh : Fresh
fresh = record { id = "file3"; uuid = "new token"; now = 5 }

abbrev upload : FileDto
upload = record { name = "notes.txt"; mime_type = "text/plain"; chunks = 3 ∷ 4 ∷ [] }

abbrev clean : ScanResultParams
clean = record { virus_detected = some false; virus_signature = none; error = none }

-- Names are compared as texts: two of them differ if the comparison says so.
differ : {a b : String} → (a == b) ≡ false → a ≢ b
differ {a} {b} e h = ground (arith, ==_iff a b, e, h)

resolve_file_name_duplicates_lem_example :
    (i : ℕ) × (resolve_file_name_duplicates_within naming (length files + 2) "notes.txt" files
      ≡ some (tried naming "notes.txt" i))
    × (resolve_file_name_duplicates naming "notes.txt" files ≡ tried naming "notes.txt" i)
    × (has_duplicate_name files (tried naming "notes.txt" i) ≡ false)
    × ((j : ℕ) → j < i → has_duplicate_name files (tried naming "notes.txt" j) ≡ true)
resolve_file_name_duplicates_lem_example = resolve_file_name_duplicates_lem naming "notes.txt" files

upload_file_lem_example :
    Yields
      (λ r s'.
        (rs : List FileRecord) × (get_file_records_of_parent environment course store
          ≡ (ok rs, store))
        × IsUploaded 1000 fresh course upload rs r
        × ((id : String)
            → keeps.lookup s'.db id ≡ (if fresh.id == id then some r else keeps.lookup files id)))
      (λ _ s'. Unchanged environment keeps store s')
      (upload_file environment fresh "teacher" course upload store)
upload_file_lem_example =
    upload_file_lem environment keeps fresh "teacher" course upload store (differ refl)
      (differ refl) refl (λ paths w. refl) (λ rs d. refl)

download_lem_example :
    ((tool.name ≢ "tool.exe")
      × (download environment tool "tool.exe" none store
          ≡ (throw (not_found "FILE_NOT_FOUND"), store)))
    ⊎ ((tool.name ≡ "tool.exe")
        × (tool.security_check.status ≡ blocked)
        × (download environment tool "tool.exe" none store
            ≡ (throw (not_acceptable "FILE_IS_BLOCKED"), store)))
    ⊎ ((tool.name ≡ "tool.exe")
        × (tool.security_check.status ≢ blocked)
        × ((tool.school_id ≡ "") ⊎ (tool.id ≡ ""))
        × (download environment tool "tool.exe" none store
            ≡ (throw (error "COULD_NOT_CREATE_PATH"), store)))
    ⊎ ((tool.name ≡ "tool.exe")
        × (tool.security_check.status ≢ blocked)
        × (download environment tool "tool.exe" none store ≡ (
          (environment.get (environment.join "school" "file2") none tt).0,
          record {
            db = files;
            world = (environment.get (environment.join "school" "file2") none tt).1;
          },
        )))
download_lem_example = download_lem environment tool "tool.exe" none store

stored : (r : FileRecord) → keeps.lookup files r.id ≡ some r → (r ≡ notes) ⊎ (r ≡ tool)
stored r e = elim (Bool-cases ("file1" == r.id)) [
  | inl first ↦ inl (sym (some_inj (rw first at e)))
  | inr other ↦ elim (Bool-cases ("file2" == r.id)) [
    | inl second ↦ inr (sym (some_inj (rw (other, second) at e)))
    | inr neither ↦ absurd (found_nothing (rw (other, neither) at e))
  ]
]
  where
    found_nothing : ¬ (none ≡ some r)
    found_nothing h = cc

unique_names : UniqueNames environment keeps files
unique_names q r (found_q, _) (found_r, _) _ same = same_id (stored q found_q) (stored r found_r)
  where
    same_id : (q ≡ notes) ⊎ (q ≡ tool) → (r ≡ notes) ⊎ (r ≡ tool) → q.id ≡ r.id
    same_id (inl a) (inl b) = ap (λ (x : FileRecord). x.id) (a ∙ sym b)
    same_id (inr a) (inr b) = ap (λ (x : FileRecord). x.id) (a ∙ sym b)
    same_id (inl a) (inr b) = absurd (
        differ {a = "notes.txt"} {b = "tool.exe"} refl
          (sym (ap (λ (x : FileRecord). x.name) a) ∙ same ∙ ap (λ (x : FileRecord). x.name) b))
    same_id (inr a) (inl b) = absurd (
        differ {a = "tool.exe"} {b = "notes.txt"} refl
          (sym (ap (λ (x : FileRecord). x.name) a) ∙ same ∙ ap (λ (x : FileRecord). x.name) b))

unique_token : UniqueToken environment keeps "token" files
unique_token q r found_q found_r held_q held_r = same_id (stored q found_q) (stored r found_r)
  where
    holds : FileRecord → Bool
    holds x = has_token "token" x.security_check.request_token

    not_tool : (x : FileRecord) → holds x ≡ true → ¬ (x ≡ tool)
    not_tool x held e = clash (sym (ap holds e) ∙ held)
      where
        clash : ¬ (false ≡ true)
        clash h = cc

    same_id : (q ≡ notes) ⊎ (q ≡ tool) → (r ≡ notes) ⊎ (r ≡ tool) → q.id ≡ r.id
    same_id (inl a) (inl b) = ap (λ (x : FileRecord). x.id) (a ∙ sym b)
    same_id (inr a) _ = absurd (not_tool q held_q a)
    same_id _ (inr b) = absurd (not_tool r held_r b)

abbrev new_name : String
new_name = "tool.exe"

patch_filename_lem_example :
    Yields
      (λ a s'.
        (a ≡ record notes { name = new_name })
        × (new_name ≢ "")
        × (keeps.lookup s'.db "file1" ≡ some a)
        × UniqueNames environment keeps s'.db)
      (λ e s'.
        Unchanged environment keeps store s'
        × (((e ≡ bad_request "FILE_NAME_EMPTY") × (new_name ≡ ""))
            ⊎ ((e ≡ conflict "FILE_NAME_EXISTS")
                × (q : FileRecord) × Live environment keeps files q
                × Siblings environment keeps q notes
                × (q.name ≡ new_name))
            ⊎ (get_file_records_of_parent environment (get_parent_info notes) store
                ≡ (throw e, store))
            ⊎ SaveThrows environment (record notes { name = new_name } ∷ []) files e))
      (patch_filename environment notes new_name store)
patch_filename_lem_example =
    patch_filename_lem environment keeps notes new_name store (refl, refl) unique_names

upload_file_names_example :
    Yields
      (λ _ s'. UniqueNames environment keeps s'.db)
      (λ _ s'. UniqueNames environment keeps s'.db)
      (upload_file environment fresh "teacher" course upload store)
upload_file_names_example =
    upload_file_names environment keeps fresh "teacher" course upload store (differ refl)
      (differ refl) refl (λ paths w. refl) (λ rs d. refl) unique_names

update_security_status_once_example :
    Yields
      (λ _ s'.
        ((r : FileRecord) × (status : ScanStatus) × (reason : String) × (keeps.lookup files r.id
            ≡ some r)
          × (r.security_check.request_token ≡ some "token")
          × Reported clean status reason
          × ((id : String)
              → keeps.lookup s'.db id ≡ (
                  if r.id == id
                  then some (scanned_as 7 status reason r)
                  else keeps.lookup files id)))
        × ((e : Exception) × (update_security_status environment 8 "token" clean s'
              ≡ (throw e, s'))))
      (λ _ s'. Unchanged environment keeps store s')
      (update_security_status environment 7 "token" clean store)
update_security_status_once_example =
    update_security_status_once environment keeps 7 8 "token" clean clean store unique_token

copy_one_lem_example :
    Yields
      (λ a s'.
        (a.source_id ≡ "file1")
        × (a.name ≡ "notes.txt")
        × (((a.id ≡ none) × Unchanged environment keeps store s')
            ⊎ ((a.id ≡ some "file3")
                × (is_blocked notes ≡ false)
                × HasCopy environment keeps fresh (copy_record fresh "teacher" task notes) store s')
            ⊎ ((a.id ≡ none)
                × (is_blocked notes ≡ false)
                × ((e : Exception) × KeptAfter environment keeps
                      (copy_record fresh "teacher" task notes ∷ [])
                      (copy_record fresh "teacher" task notes ∷ [])
                      store
                      e)
                × HasCopy environment keeps fresh
                    (copy_record fresh "teacher" task notes)
                    store
                    s')))
      (λ _ _. ⊥)
      (copy_one environment "teacher" task fresh notes store)
copy_one_lem_example = copy_one_lem environment keeps "teacher" task fresh notes store refl
