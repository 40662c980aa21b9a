-- ===== src/CopyHelper.antt =====
-- copy-helper.service.ts: the status of a copy from those of its parts.
pub mod Derived
use schulcloud_server.Prelude.{
  Bool, true, false, not, ◌&&◌, ◌||◌, List, map, all, any, filterb, length, ltb, if◌then◌else◌,
}

-- What became of a part.
pub data CopyStatusEnum : Type 0 where
  success fail not_doing not_implemented partial : CopyStatusEnum

abbrev pub same_status : CopyStatusEnum → CopyStatusEnum → Bool
same_status success success = true
same_status fail fail = true
same_status not_doing not_doing = true
same_status not_implemented not_implemented = true
same_status partial partial = true
same_status _ _ = false

unfoldable pub is_at_least_partial_successfull : CopyStatusEnum → Bool
is_at_least_partial_successfull status = same_status status partial || same_status status success

-- `deriveStatusFromElements`, on the statuses of the elements.
unfoldable pub derive_status_from_elements : List CopyStatusEnum → CopyStatusEnum
derive_status_from_elements elements_statuses =
    let filtered = filterb (λ s. not (same_status s not_doing)) elements_statuses in
    if ltb 0 (length filtered)
    then if all (λ s. not (is_at_least_partial_successfull s)) filtered
      then fail
      else if any (λ s. not (same_status s success)) filtered
      then partial
      else success
    else success
