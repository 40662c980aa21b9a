-- ===== src/FileStorage/ScanResult/Reported.antt =====
-- file-record.mapper.ts: what a report of the virus scan stands for, in words and as the mapper has it.
use schulcloud_server.Prelude.{
  String, Bool, true, false, Option, none, some, ◌≡◌, ◌≢◌, refl, ap, arith, ◌==◌, string_eq, ==_iff,
  Bool-cases, inl, inr,
}
use schulcloud_server.FileStorage.Record.{ScanStatus, verified, blocked, scan_error}
use schulcloud_server.FileStorage.ScanResult.{ScanResultParams, map_scan_result_params_to_dto}

-- What a report says of a file: a virus, with its name if there is one; else a scan that failed, with
-- its error; else nothing, where it does not say whether there is a virus, or the error is empty;
-- else a clean file.
pub data Reported (params : ScanResultParams) : ScanStatus → String → Type 0 where
  named_virus :
      (name : String)
      → params.virus_detected ≡ some true
      → params.virus_signature ≡ some name
      → Reported params blocked name
  some_virus :
      params.virus_detected ≡ some true
      → params.virus_signature ≡ none
      → Reported params blocked "Virus detected"
  failed_scan :
      (text : String)
      → params.virus_detected ≢ some true
      → params.error ≡ some text
      → text ≢ ""
      → Reported params scan_error text
  no_answer :
      params.virus_detected ≡ none
      → params.error ≡ none
      → Reported params scan_error "No scan result"
  no_error_text :
      params.virus_detected ≢ some true
      → params.error ≡ some ""
      → Reported params scan_error "No scan result"
  clean_file :
      params.virus_detected ≡ some false → params.error ≡ none → Reported params verified "Clean"

pub map_scan_result_params_to_dto_lem :
    (params : ScanResultParams)
    → Reported params
        (map_scan_result_params_to_dto params).status
        (map_scan_result_params_to_dto params).reason
unfolding map_scan_result_params_to_dto
map_scan_result_params_to_dto_lem params =
    go params.virus_detected params.virus_signature params.error
  where
    given : Option Bool → Option String → Option String → ScanResultParams
    given detected signature message = record {
      virus_detected = detected;
      virus_signature = signature;
      error = message;
    }

    go :
        (detected : Option Bool) (signature message : Option String)
        → Reported
            (given detected signature message)
            (map_scan_result_params_to_dto (given detected signature message)).status
            (map_scan_result_params_to_dto (given detected signature message)).reason
    go (some true) (some name) message = named_virus name refl refl
    go (some true) none message = some_virus refl refl
    go (some false) signature none = clean_file refl refl
    go none signature none = no_answer refl refl
    go (some false) signature (some text) = elim (Bool-cases (text == "")) [
      | inl blank ↦ rw blank (no_error_text (λ e. (cc)) (ap some ((==_iff text "").0 blank)))
      | inr filled ↦
          rw filled
            (failed_scan text (λ e. (cc)) refl (λ e. ground (arith, filled, e, ==_iff text "")))
    ]
    go none signature (some text) = elim (Bool-cases (text == "")) [
      | inl blank ↦ rw blank (no_error_text (λ e. (cc)) (ap some ((==_iff text "").0 blank)))
      | inr filled ↦
          rw filled
            (failed_scan text (λ e. (cc)) refl (λ e. ground (arith, filled, e, ==_iff text "")))
    ]
