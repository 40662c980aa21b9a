-- ===== src/FileStorage/Service/DeletingAll.antt =====
-- files-storage.service.ts: the deletion of all files of a parent.
use schulcloud_server.Prelude.{Bool, true, not, ◌&&◌, some, ◌≡◌, string_eq}
use schulcloud_server.FileStorage.Record.{FileRecord, ParentInfo}
use schulcloud_server.Action.Yields.{Yields}
use schulcloud_server.FileStorage.Environment.{Environment, Keeps, Store, by_parent, is_marked}
use schulcloud_server.FileStorage.Service.Kept.{Written}

module _ {D W F : Type 0} (env : Environment D W F) (keeps : Keeps env) where
  -- Every file of the parent that the database holds is marked for deletion.
  abbrev pub NoneLive : ParentInfo → Store D W → Type 0
  NoneLive params s =
      (r : FileRecord)
      → keeps.lookup s.db r.id ≡ some r
      → r.school_id ≡ params.school_id
      → r.parent_id ≡ params.parent_id
      → is_marked r ≡ true

  abbrev is_live : ParentInfo → FileRecord → Bool
  is_live params r = by_parent params.school_id params.parent_id r && not (is_marked r)
