-- ===== src/FileStorage/Record.antt =====
-- filerecord.entity.ts and helper/file-record.ts. An id is the text that `toHexString` gives, a date
-- is a number. What `new Date()`, `uuid()` and the database hand out comes with the call.
use schulcloud_server.Prelude.{
  ℕ, String, Bool, true, false, List, Option, none, some, Result, ok, bad_request, guard, ◌>>=◌,
  map, not, ◌==◌, string_eq, if◌then◌else◌,
}

pub data ScanStatus : Type 0 where
  pending verified blocked scan_error : ScanStatus

pub data FileRecordParentType : Type 0 where
  of_user of_school of_course of_task of_lesson of_submission : FileRecordParentType

pub record FileSecurityCheckProperties : Type 0 where
  pub status : Option ScanStatus
  pub reason : Option String
  pub request_token : Option String

pub record FileSecurityCheck : Type 0 where
  pub status : ScanStatus
  pub reason : String
  pub request_token : Option String
  pub created_at : ℕ
  pub updated_at : ℕ

-- What is new with each record: its id, the token that `uuid()` makes, and the date.
pub record Fresh : Type 0 where
  pub id : String
  pub uuid : String
  pub now : ℕ

-- FileRecordParams and IParentInfo.
pub record ParentInfo : Type 0 where
  pub school_id : String
  pub parent_id : String
  pub parent_type : FileRecordParentType

pub record FileRecordProperties : Type 0 where
  pub size : ℕ
  pub name : String
  pub mime_type : String
  pub parent : ParentInfo
  pub creator_id : String
  pub deleted_since : Option ℕ
  pub is_copy_from : Option String

pub record FileRecord : Type 0 where
  pub id : String
  pub deleted_since : Option ℕ
  pub size : ℕ
  pub name : String
  pub mime_type : String
  pub security_check : FileSecurityCheck
  pub parent_type : FileRecordParentType
  pub parent_id : String
  pub creator_id : String
  pub school_id : String
  pub is_copy_from : Option String

abbrev pub or_default {ℓ} : {A : Type ℓ} → Option A → A → A
or_default none d = d
or_default (some a) d = a

abbrev pub or_token : Option String → String → Option String
or_token none uuid = some uuid
or_token (some given) uuid = some given

unfoldable pub new_file_security_check : Fresh → FileSecurityCheckProperties → FileSecurityCheck
new_file_security_check fresh props = record {
  status = or_default props.status pending;
  reason = or_default props.reason "not yet scanned";
  request_token = or_token props.request_token fresh.uuid;
  created_at = fresh.now;
  updated_at = fresh.now;
}

unfoldable pub new_file_record : Fresh → FileRecordProperties → FileRecord
new_file_record fresh props = record {
  id = fresh.id;
  deleted_since = props.deleted_since;
  size = props.size;
  name = props.name;
  mime_type = props.mime_type;
  security_check =
      new_file_security_check fresh (record { status = none; reason = none; request_token = none });
  parent_type = props.parent.parent_type;
  parent_id = props.parent.parent_id;
  creator_id = props.creator_id;
  school_id = props.parent.school_id;
  is_copy_from = props.is_copy_from;
}

abbrev pub same_status : ScanStatus → ScanStatus → Bool
same_status pending pending = true
same_status verified verified = true
same_status blocked blocked = true
same_status scan_error scan_error = true
same_status _ _ = false

unfoldable pub has_name : String → FileRecord → Bool
has_name name r = r.name == name

unfoldable pub is_blocked : FileRecord → Bool
is_blocked r = same_status r.security_check.status blocked

unfoldable pub is_pending : FileRecord → Bool
is_pending r = same_status r.security_check.status pending

unfoldable pub is_verified : FileRecord → Bool
is_verified r = same_status r.security_check.status verified

unfoldable pub get_parent_info : FileRecord → ParentInfo
get_parent_info r = record {
  school_id = r.school_id;
  parent_id = r.parent_id;
  parent_type = r.parent_type;
}

unfoldable pub update_security_check_status :
    (now : ℕ) → ScanStatus → (reason : String) → FileRecord → FileRecord
update_security_check_status now status reason r = record r {
  security_check = record {
    status = status;
    reason = reason;
    request_token = none;
    created_at = r.security_check.created_at;
    updated_at = now;
  };
}

-- The copy of a verified record has the security check of its source.
unfoldable pub copy : Fresh → (user_id : String) → ParentInfo → FileRecord → FileRecord
copy fresh user_id target r =
    let made = new_file_record fresh (record {
      size = r.size;
      name = r.name;
      mime_type = r.mime_type;
      parent = target;
      creator_id = user_id;
      deleted_since = none;
      is_copy_from = some r.id;
    }) in
    if is_verified r then record made { security_check = r.security_check } else made

unfoldable pub mark_for_delete : (now : ℕ) → FileRecord → FileRecord
mark_for_delete now r = record r { deleted_since = some now }

unfoldable pub unmark_for_delete : FileRecord → FileRecord
unmark_for_delete r = record r { deleted_since = none }

-- helper/file-record.ts
unfoldable pub mark_all_for_delete : (now : ℕ) → List FileRecord → List FileRecord
mark_all_for_delete now rs = map (mark_for_delete now) rs

unfoldable pub unmark_all_for_delete : List FileRecord → List FileRecord
unmark_all_for_delete rs = map unmark_for_delete rs

unfoldable pub set_name : String → FileRecord → Result FileRecord
set_name name r =
    guard (not (name == "")) (bad_request "FILE_NAME_EMPTY") >>= λ _. ok (record r { name = name })

unfoldable pub create_file_record :
    Fresh
    → (name : String) → (size : ℕ) → (mime_type : String) → ParentInfo
    → (user_id : String) → FileRecord
create_file_record fresh name size mime_type params user_id = new_file_record fresh (record {
  size = size;
  name = name;
  mime_type = mime_type;
  parent = params;
  creator_id = user_id;
  deleted_since = none;
  is_copy_from = none;
})
