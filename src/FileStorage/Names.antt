-- ===== src/FileStorage/Names.antt =====
-- helper/file-name.ts. `path.parse` and the decimal text of a number are parameters.
pub mod Resolved
use Prim.Native.String.{◌++◌ as concat}
use schulcloud_server.Prelude.{
  ℕ, zero, suc, ◌+◌, String, Bool, true, false, List, Option, none, some, any, length, ◌≡◌,
  if◌then◌else◌,
}
use schulcloud_server.FileStorage.Record.{FileRecord, has_name, or_default}

pub record ParsedPath : Type 0 where
  pub name : String
  pub ext : String

-- `path.parse(filename)`, and the text of a number in a template.
pub record Naming : Type 0 where
  pub parse : String → ParsedPath
  pub show : ℕ → String
  pub show_inj : (i j : ℕ) → show i ≡ show j → i ≡ j

-- `${name} (${counter})${ext}`
unfoldable pub numbered : Naming → ParsedPath → (counter : ℕ) → String
numbered naming parsed counter =
    concat parsed.name (concat " (" (concat (naming.show counter) (concat ")" parsed.ext)))

-- Whether a record is found.
unfoldable pub has_duplicate_name : List FileRecord → String → Bool
has_duplicate_name rs name = any (has_name name) rs

module _ (naming : Naming) where
  -- The loop, which has run `counter` times; `none` if it runs `fuel` times more.
  abbrev pub search_name :
      (fuel : ℕ) → List FileRecord → ParsedPath → (counter : ℕ) → String → Option String
  search_name zero rs parsed counter new_filename = none
  search_name (suc fuel) rs parsed counter new_filename =
      let next = suc counter in
      let rest = search_name fuel rs parsed next (numbered naming parsed next) in
      if has_duplicate_name rs new_filename then rest else some new_filename

  unfoldable pub resolve_file_name_duplicates_within :
      (fuel : ℕ) → String → List FileRecord → Option String
  resolve_file_name_duplicates_within fuel filename rs =
      search_name fuel rs (naming.parse filename) 0 filename

  unfoldable pub resolve_file_name_duplicates : String → List FileRecord → String
  resolve_file_name_duplicates filename rs =
      or_default (resolve_file_name_duplicates_within (length rs + 2) filename rs) filename
