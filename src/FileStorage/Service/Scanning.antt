-- ===== src/FileStorage/Service/Scanning.antt =====
-- files-storage.service.ts: the virus scan, its tokens, and the downloads that it blocks.
use schulcloud_server.Prelude.{
  Exception, Result, ok, clash, ℕ, String, Bool, true, ◌||◌, error, [], ◌∷◌, Option, none, some,
  throw, not_found, not_acceptable, ◌≡◌, ◌≢◌, ◌↔◌, ◌⊎◌, inl, inr, refl, sym, ap, ◌∙◌, arith,
  if◌then◌else◌, ◌==◌, string_eq, ==_iff, Bool-cases, some_inj,
}
use schulcloud_server.FileStorage.Record.{
  FileRecord, ScanStatus, pending, verified, blocked, scan_error, has_name, is_blocked, same_status,
  update_security_check_status,
}
use schulcloud_server.FileStorage.ScanResult.{
  ScanResultParams, ScanResult, map_scan_result_params_to_dto,
}
use schulcloud_server.FileStorage.ScanResult.Reported.{Reported, map_scan_result_params_to_dto_lem}
use schulcloud_server.Action.Yields.{Yields, Yields-throw, Yields-weaken}
use schulcloud_server.FileStorage.Environment.{
  Environment, Keeps, Store, has_token, find_by_security_check_request_token,
}
use schulcloud_server.FileStorage.Service.Kept.{Unchanged, Written, Yields-save}
use schulcloud_server.FileStorage.Service.{
  check_file_name, check_scan_status, create_path, download, download_file, update_security_status,
}

blocked_iff : (status : ScanStatus) → (same_status status blocked ≡ true) ↔ (status ≡ blocked)
blocked_iff pending = (λ e. (cc), λ e. (cc))
blocked_iff verified = (λ e. (cc), λ e. (cc))
blocked_iff blocked = (λ _. refl, λ _. refl)
blocked_iff scan_error = (λ e. (cc), λ e. (cc))

module _ {D W F : Type 0} (env : Environment D W F) where
  -- A download of a file by another name than its own throws a NotFoundException, a download of
  -- a blocked file by its name throws a NotAcceptableException, and any other one of a file
  -- with an empty school or id throws an error, none of them asking the storage; or the
  -- download is what the storage gives for the path of the school and the file and for the
  -- range of bytes, and the name fits and the file is not blocked.
  pub download_lem :
      (r : FileRecord) (file_name : String) (bytes_range : Option String) (s : Store D W)
      → ((r.name ≢ file_name)
          × (download env r file_name bytes_range s ≡ (throw (not_found "FILE_NOT_FOUND"), s)))
        ⊎ ((r.name ≡ file_name)
            × (r.security_check.status ≡ blocked)
            × (download env r file_name bytes_range s
                ≡ (throw (not_acceptable "FILE_IS_BLOCKED"), s)))
        ⊎ ((r.name ≡ file_name)
            × (r.security_check.status ≢ blocked)
            × ((r.school_id ≡ "") ⊎ (r.id ≡ ""))
            × (download env r file_name bytes_range s ≡ (throw (error "COULD_NOT_CREATE_PATH"), s)))
        ⊎ ((r.name ≡ file_name)
            × (r.security_check.status ≢ blocked)
            × (download env r file_name bytes_range s ≡ (
              (env.get (env.join r.school_id r.id) bytes_range s.world).0,
              record {
                db = s.db;
                world = (env.get (env.join r.school_id r.id) bytes_range s.world).1;
              },
            )))
  unfolding download download_file create_path check_file_name check_scan_status has_name is_blocked
  download_lem r file_name bytes_range s = elim (Bool-cases (r.name == file_name)) [
    | inr other ↦ inl (λ e. ground (arith, other, ==_iff r.name file_name, e), rw other refl)
    | inl same ↦ inr (elim (Bool-cases (same_status r.security_check.status blocked)) [
      | inl stops ↦ inl (
        (==_iff r.name file_name).0 same,
        (blocked_iff r.security_check.status).0 stops,
        rw (same, stops) refl,
      )
      | inr passes ↦ inr (elim (Bool-cases (r.school_id == "" || r.id == "")) [
        | inl no_path ↦ inl (
          (==_iff r.name file_name).0 same,
          λ e. clash (sym passes ∙ (blocked_iff r.security_check.status).1 e),
          one_empty no_path,
          rw (same, passes, no_path) refl,
        )
        | inr path ↦ inr (
          (==_iff r.name file_name).0 same,
          λ e. clash (sym passes ∙ (blocked_iff r.security_check.status).1 e),
          rw (same, passes, path) refl,
        )
      ])
    ])
  ]
    where
      one_empty : (r.school_id == "" || r.id == "") ≡ true → (r.school_id ≡ "") ⊎ (r.id ≡ "")
      one_empty e = elim (Bool-cases (r.school_id == "")) [
        | inl school ↦ inl ((==_iff r.school_id "").0 school)
        | inr filled ↦ inr ((==_iff r.id "").0 (rw filled at e))
      ]

-- The record with a finished scan.
abbrev pub scanned_as : (now : ℕ) → ScanStatus → (reason : String) → FileRecord → FileRecord
scanned_as now status reason r = record r {
  security_check = record r.security_check {
    status = status;
    reason = reason;
    request_token = none;
    updated_at = now;
  };
}

token_of : (o : Option String) (token : String) → has_token token o ≡ true → o ≡ some token
token_of none token h = cc
token_of (some given) token h = ap some ((==_iff given token).0 h)

module _ {D W F : Type 0} (env : Environment D W F) (keeps : Keeps env) where
  -- At most one record has the token.
  abbrev pub UniqueToken : String → D → Type 0
  UniqueToken token d =
      (q r : FileRecord)
      → keeps.lookup d q.id ≡ some q
      → keeps.lookup d r.id ≡ some r
      → has_token token q.security_check.request_token ≡ true
      → has_token token r.security_check.request_token ≡ true
      → q.id ≡ r.id

  -- If at most one record has the token, then a scan result that is reported with it and
  -- returns has stored on a record of the database, which had the token, the status and the
  -- reason that the report stands for, with the date and without a token, all else being as it
  -- was; and a second report with the same token throws and writes nothing. If the first one
  -- throws, the database gives under every id what it gave.
  pub update_security_status_once :
      (now later : ℕ) (token : String) (params again : ScanResultParams) (s : Store D W)
      → UniqueToken token s.db
      → Yields
          (λ _ s'.
            ((r : FileRecord) × (status : ScanStatus) × (reason : String) × (keeps.lookup s.db r.id
                ≡ some r)
              × (r.security_check.request_token ≡ some token)
              × Reported params status reason
              × ((id : String)
                  → keeps.lookup s'.db id ≡ (
                      if r.id == id
                      then some (scanned_as now status reason r)
                      else keeps.lookup s.db id)))
            × ((e : Exception) × (update_security_status env later token again s' ≡ (throw e, s'))))
          (λ _ s'. Unchanged env keeps s s')
          (update_security_status env now token params s)
  unfolding update_security_status find_by_security_check_request_token update_security_check_status
  update_security_status_once now later token params again s unique =
      first (env.find_one p s.db) refl
    where
      p : FileRecord → Bool
      p r = has_token token r.security_check.request_token

      result : ScanResult
      result = map_scan_result_params_to_dto params

      scanned : FileRecord → FileRecord
      scanned r = scanned_as now result.status result.reason r

      holds_none :
          (s' : Store D W) (r q : FileRecord)
          → Written env keeps (scanned r ∷ []) s s'
          → keeps.lookup s.db r.id ≡ some r
          → p r ≡ true
          → keeps.lookup s'.db q.id ≡ some q
          → ¬ (p q ≡ true)
      holds_none s' r q after stored fits found held = elim (Bool-cases (r.id == q.id)) [
        | inl same ↦
            let e : scanned r ≡ q = some_inj (sym (rw same at (after q.id)) ∙ found) in
            clash (ap p e ∙ held)
        | inr other ↦
            let before : keeps.lookup s.db q.id ≡ some q = sym (rw other at (after q.id)) ∙ found in
            clash (sym other ∙ (==_iff r.id q.id).1 (unique r q stored before fits held))
      ]

      second :
          (s' : Store D W) (r : FileRecord) (found : Result (Option FileRecord))
          → env.find_one p s'.db ≡ found
          → Written env keeps (scanned r ∷ []) s s'
          → keeps.lookup s.db r.id ≡ some r
          → p r ≡ true
          → (e : Exception) × (update_security_status env later token again s' ≡ (throw e, s'))
      second s' r (throw e) found after stored fits = (e, rw found refl)
      second s' r (ok none) found after stored fits = (not_found "FileRecord", rw found refl)
      second s' r (ok (some q)) found after stored fits =
          let (stored_q, held) = keeps.find_one-found p s'.db q found in
          absurd (holds_none s' r q after stored fits stored_q held)

      first :
          (found : Result (Option FileRecord))
          → env.find_one p s.db ≡ found
          → Yields
              (λ _ s'.
                ((r : FileRecord) × (status : ScanStatus) × (reason : String) × (keeps.lookup s.db
                      r.id
                    ≡ some r)
                  × (r.security_check.request_token ≡ some token)
                  × Reported params status reason
                  × ((id : String)
                      → keeps.lookup s'.db id ≡ (
                          if r.id == id
                          then some (scanned_as now status reason r)
                          else keeps.lookup s.db id)))
                × ((e : Exception) × (update_security_status env later token again s'
                      ≡ (throw e, s'))))
              (λ _ s'. Unchanged env keeps s s')
              (update_security_status env now token params s)
      first (throw e) found = rw found (Yields-throw (λ _. refl))
      first (ok none) found = rw found (Yields-throw (λ _. refl))
      first (ok (some r)) found =
          let (stored, fits) = keeps.find_one-found p s.db r found in
          rw found (
            Yields-weaken _ (Yields-save env keeps (scanned r ∷ []) s)
              (λ _ s' after. (
                (
                  r,
                  result.status,
                  result.reason,
                  stored,
                  token_of r.security_check.request_token token fits,
                  map_scan_result_params_to_dto_lem params,
                  after,
                ),
                second s' r (env.find_one p s'.db) refl after stored fits,
              ))
              (λ _ s' (_, same). same))
