-- ===== src/FileStorage/ScanResult.antt =====
-- file-record.mapper.ts: what the virus scan reports, as a status.
pub mod Reported
use schulcloud_server.Prelude.{
  String, Bool, true, false, Option, none, some, if◌then◌else◌, ◌==◌, string_eq,
}
use schulcloud_server.FileStorage.Record.{ScanStatus, verified, blocked, scan_error, or_default}

-- ScanResultParams; a missing property is `none`.
pub record ScanResultParams : Type 0 where
  pub virus_detected : Option Bool
  pub virus_signature : Option String
  pub error : Option String

pub record ScanResult : Type 0 where
  pub status : ScanStatus
  pub reason : String

abbrev pub not_scanned : Option Bool → Option String → ScanResult
not_scanned none message = record { status = scan_error; reason = "No scan result" }
not_scanned (some _) none = record { status = verified; reason = "Clean" }
not_scanned (some _) (some text) =
    if text == ""
    then record { status = scan_error; reason = "No scan result" }
    else record { status = verified; reason = "Clean" }

abbrev pub without_virus : Option Bool → Option String → ScanResult
without_virus detected none = not_scanned detected none
without_virus detected (some text) =
    if text == ""
    then not_scanned detected (some text)
    else record { status = scan_error; reason = text }

unfoldable pub map_scan_result_params_to_dto : ScanResultParams → ScanResult
map_scan_result_params_to_dto params = with_virus params.virus_detected
  where
    with_virus : Option Bool → ScanResult
    with_virus (some true) = record {
      status = blocked;
      reason = or_default params.virus_signature "Virus detected";
    }
    with_virus (some false) = without_virus (some false) params.error
    with_virus none = without_virus none params.error
