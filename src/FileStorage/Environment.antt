-- ===== src/FileStorage/Environment.antt =====
-- What filerecord.repo.ts and files-storage.service.ts use of the database (@mikro-orm/core), of the
-- storage and of the message queue, which are parameters, and the queries of filerecord-scope.ts.
use schulcloud_server.Prelude.{
  ℕ, String, Bool, true, false, not, ◌&&◌, List, [], ◌∷◌, Option, none, some, Result, ok, throw,
  not_found, Exception, is_some, if◌then◌else◌, ◌==◌, string_eq, ◌≡◌, ◌↔◌, Memᴰ,
}
use schulcloud_server.FileStorage.Record.{FileRecord}
use schulcloud_server.FileStorage.Names.{Naming}
use schulcloud_server.Action.{Action, of_result, ◌>>=◌}

pub record FileDto : Type 0 where
  pub name : String
  pub mime_type : String
  -- The lengths of the chunks of the stream.
  pub chunks : List ℕ

pub record CopyFiles : Type 0 where
  pub source_path : String
  pub target_path : String

-- D is what the database holds, W what the storage and the queue hold, F the answer to a download.
pub record Environment (D W F : Type 0) : Type 0 where
  -- The entity manager, each call of which may throw: `find` is findAndCount, `find_one` is
  -- findOneOrFail before it fails for a missing record.
  pub persist_and_flush : List FileRecord → D → Result (Unit {0}) × D
  pub remove_and_flush : List FileRecord → D → Result (Unit {0}) × D
  pub find : (FileRecord → Bool) → D → Result (List FileRecord)
  pub find_one : (FileRecord → Bool) → D → Result (Option FileRecord)
  -- The storage client.
  pub create : (path : String) → FileDto → W → Result (Unit {0}) × W
  pub delete : (paths : List String) → W → Result (Unit {0}) × W
  pub move_to_trash : (paths : List String) → W → Result (Unit {0}) × W
  pub restore : (paths : List String) → W → Result (Unit {0}) × W
  pub copy : CopyFiles → W → Result (Unit {0}) × W
  pub get : (path : String) → (bytes_range : Option String) → W → Result F × W
  -- The antivirus service: whether it is enabled, and the message with the addresses that end in
  -- the token.
  pub enabled : Bool
  pub publish : (token : String) → W → Result (Unit {0}) × W
  pub max_file_size : ℕ
  -- `[schoolId, fileRecordId].join('/')`
  pub join : (school_id file_record_id : String) → String
  pub naming : Naming

-- What a lookup by id gives after these records were persisted, when it gave `old` before.
abbrev pub persisted :
    List FileRecord → (id : String) → (old : Option FileRecord) → Option FileRecord
persisted [] id old = old
persisted (r ∷ rs) id old = let rest = persisted rs id old in if r.id == id then some r else rest

abbrev pub removed : List FileRecord → (id : String) → (old : Option FileRecord) → Option FileRecord
removed [] id old = old
removed (r ∷ rs) id old = let rest = removed rs id old in if r.id == id then none else rest

-- The entity manager keeps one record under an id, and a query that returns gives exactly those
-- that fulfil it. A flush is a transaction: if it throws, nothing has been written.
pub record Keeps {D W F : Type 0} (env : Environment D W F) : Type 0 where
  pub lookup : D → (id : String) → Option FileRecord
  pub lookup-id : (d : D) (id : String) (r : FileRecord) → lookup d id ≡ some r → r.id ≡ id
  pub lookup-persist :
      (rs : List FileRecord) (d d' : D) (id : String)
      → env.persist_and_flush rs d ≡ (ok tt, d')
      → lookup d' id ≡ persisted rs id (lookup d id)
  pub lookup-persist_failed :
      (rs : List FileRecord) (d d' : D) (e : Exception) (id : String)
      → env.persist_and_flush rs d ≡ (throw e, d')
      → lookup d' id ≡ lookup d id
  pub lookup-remove :
      (rs : List FileRecord) (d d' : D) (id : String)
      → env.remove_and_flush rs d ≡ (ok tt, d')
      → lookup d' id ≡ removed rs id (lookup d id)
  pub lookup-remove_failed :
      (rs : List FileRecord) (d d' : D) (e : Exception) (id : String)
      → env.remove_and_flush rs d ≡ (throw e, d')
      → lookup d' id ≡ lookup d id
  pub find_iff :
      (p : FileRecord → Bool) (d : D) (rs : List FileRecord) (r : FileRecord)
      → env.find p d ≡ ok rs
      → Memᴰ r rs ↔ ((lookup d r.id ≡ some r) × (p r ≡ true))
  pub find_one-found :
      (p : FileRecord → Bool) (d : D) (r : FileRecord)
      → env.find_one p d ≡ ok (some r)
      → (lookup d r.id ≡ some r) × (p r ≡ true)
  pub find_one-none :
      (p : FileRecord → Bool) (d : D) (r : FileRecord)
      → env.find_one p d ≡ ok none
      → lookup d r.id ≡ some r
      → p r ≡ false

-- The state that a call of the service sees.
pub record Store (D W : Type 0) : Type 0 where
  pub db : D
  pub world : W

abbrev pub or_not_found : Option FileRecord → Result FileRecord
or_not_found none = throw (not_found "FileRecord")
or_not_found (some r) = ok r

abbrev pub is_marked : FileRecord → Bool
is_marked r = is_some r.deleted_since

abbrev pub by_parent : (school_id parent_id : String) → FileRecord → Bool
by_parent school_id parent_id r = r.school_id == school_id && r.parent_id == parent_id

abbrev pub has_token : String → Option String → Bool
has_token token none = false
has_token token (some t) = t == token

-- A call of the database that writes, and one that reads.
abbrev pub written : {D W : Type 0} → (D → Result (Unit {0}) × D) → Action (Store D W) (Unit {0})
written call s = let (r, d) = call s.db in (r, record { db = d; world = s.world })

abbrev pub asked : {D W A : Type 0} → (D → Result A) → Action (Store D W) A
asked call s = (call s.db, s)

module _ {D W F : Type 0} (env : Environment D W F) where
  unfoldable pub save : List FileRecord → Action (Store D W) (Unit {0})
  save rs = written (env.persist_and_flush rs)

  unfoldable pub delete : List FileRecord → Action (Store D W) (Unit {0})
  delete rs = written (env.remove_and_flush rs)

  abbrev pub find_one_or_fail : (FileRecord → Bool) → Action (Store D W) FileRecord
  find_one_or_fail p = asked (env.find_one p) >>= λ found. of_result (or_not_found found)

  unfoldable pub find_one_by_id : String → Action (Store D W) FileRecord
  find_one_by_id id = find_one_or_fail (λ r. r.id == id && not (is_marked r))

  unfoldable pub find_one_by_id_marked_for_delete : String → Action (Store D W) FileRecord
  find_one_by_id_marked_for_delete id = find_one_or_fail (λ r. r.id == id && is_marked r)

  unfoldable pub find_by_school_id_and_parent_id :
      (school_id parent_id : String) → Action (Store D W) (List FileRecord)
  find_by_school_id_and_parent_id school_id parent_id =
      asked (env.find (λ r. by_parent school_id parent_id r && not (is_marked r)))

  unfoldable pub find_by_school_id_and_parent_id_and_marked_for_delete :
      (school_id parent_id : String) → Action (Store D W) (List FileRecord)
  find_by_school_id_and_parent_id_and_marked_for_delete school_id parent_id =
      asked (env.find (λ r. by_parent school_id parent_id r && is_marked r))

  unfoldable pub find_by_security_check_request_token : String → Action (Store D W) FileRecord
  find_by_security_check_request_token token =
      find_one_or_fail (λ r. has_token token r.security_check.request_token)

  -- A call of the storage or of the queue.
  abbrev pub outside : {A : Type 0} → (W → Result A × W) → Action (Store D W) A
  outside call s = let (r, w) = call s.world in (r, record { db = s.db; world = w })
