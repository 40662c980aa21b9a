-- ===== src/Tool/SchoolValidation.antt =====
-- school-external-tool-validation.service.ts. A ValidationError is told by the code at the start of
-- its message.
use schulcloud_server.Prelude.{
  ℕ, String, Bool, true, false, not, ◌&&◌, ◌||◌, List, [], ◌∷◌, Option, none, some, Result, ok,
  throw, validation_error, guard, ◌>>=◌, ◌>>◌, map, length, unique, find?, ◌==◌, string_eq, nat_eq,
  eqb, if◌then◌else◌,
}
use schulcloud_server.Domain.User.{EntityId}
use schulcloud_server.Tool.Parameters.{
  Parameter, ParameterType, string, number, boolean, auto_courseid, auto_coursename, auto_schoolid,
  Tool, Entry, SchoolTool, Scope, school_scope, same_scope,
}
use schulcloud_server.Tool.Validation.{filled}
pub mod Sound

-- What JavaScript and the database answer. `test_regex` is `new RegExp(pattern).test(text)`, which
-- throws where the pattern does not compile; `is_number` is `!isNaN(Number(text))`.
pub record Outside : Type 0 where
  pub to_lower_case : String → String
  pub is_number : String → Bool
  pub test_regex : (pattern text : String) → Result Bool
  pub find_external_tool_by_id : EntityId → Result Tool

module _ (outside : Outside) where
  -- `typeCheckers`
  unfoldable pub type_checker : ParameterType → String → Bool
  type_checker string text = true
  type_checker number text = outside.is_number text
  type_checker boolean text = text == "true" || text == "false"
  type_checker auto_courseid text = true
  type_checker auto_coursename text = true
  type_checker auto_schoolid text = true

  unfoldable pub check_for_duplicate_parameters : SchoolTool → Result (Unit {0})
  check_for_duplicate_parameters t =
      let names = map (λ (entry : Entry). outside.to_lower_case entry.name) t.parameters in
      guard (eqb (length (unique names)) (length t.parameters))
        (validation_error "tool_param_duplicate")

  unfoldable pub check_version_match : (school_tool_version tool_version : ℕ) → Result (Unit {0})
  check_version_match school_tool_version tool_version =
      guard (school_tool_version == tool_version) (validation_error "tool_version_mismatch")

  abbrev pub value_of : Option Entry → Option String
  value_of none = none
  value_of (some entry) = entry.value

  unfoldable pub check_optional_parameter : Parameter → Option Entry → Result (Unit {0})
  check_optional_parameter p found =
      guard (filled (value_of found) || p.is_optional) (validation_error "tool_param_required")

  abbrev pub fits_type : ParameterType → Option String → Bool
  fits_type type none = true
  fits_type type (some text) = type_checker type text

  unfoldable pub check_parameter_type : Entry → Parameter → Result (Unit {0})
  check_parameter_type entry p =
      guard (fits_type p.type entry.value) (validation_error "tool_param_type_mismatch")

  -- `value ?? ''`
  abbrev pub text_of : Option String → String
  text_of none = ""
  text_of (some text) = text

  abbrev pub matches : (regex : Option String) → String → Result Bool
  matches none text = ok true
  matches (some pattern) text = if pattern == "" then ok true else outside.test_regex pattern text

  unfoldable pub check_parameter_regex : Entry → Parameter → Result (Unit {0})
  check_parameter_regex entry p = matches p.regex (text_of entry.value) >>= λ fits.
      guard fits (validation_error "tool_param_value_regex")

  abbrev pub check_found : Option Entry → Parameter → Result (Unit {0})
  check_found none p = ok tt
  check_found (some entry) p = check_parameter_type entry p >> check_parameter_regex entry p

  abbrev pub find_entry : Parameter → List Entry → Option Entry
  find_entry p entries =
      find? (λ entry. outside.to_lower_case entry.name == outside.to_lower_case p.name) entries

  abbrev pub check_entry : Parameter → Option Entry → Result (Unit {0})
  check_entry p found =
      if same_scope school_scope p.scope
      then check_optional_parameter p found >> check_found found p
      else ok tt

  -- The `for` over the parameters of the tool.
  abbrev pub check_entries : List Parameter → List Entry → Result (Unit {0})
  check_entries [] entries = ok tt
  check_entries (p ∷ ps) entries = check_entry p (find_entry p entries) >> check_entries ps entries

  abbrev pub check_custom_parameter_entries :
      Option (List Parameter) → List Entry → Result (Unit {0})
  check_custom_parameter_entries none entries = ok tt
  check_custom_parameter_entries (some ps) entries = check_entries ps entries

  unfoldable pub validate : SchoolTool → Result (Unit {0})
  validate t = do
    check_for_duplicate_parameters t
    loaded ← outside.find_external_tool_by_id t.tool_id
    check_version_match t.tool_version loaded.version
    check_custom_parameter_entries loaded.parameters t.parameters
