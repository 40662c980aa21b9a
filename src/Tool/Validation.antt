-- ===== src/Tool/Validation.antt =====
-- common-tool-validation.service.ts. A ValidationError is told by the code at the start of its
-- message. What JavaScript does with regular expressions and with lower case, and the lookup of a
-- tool in the database, are parameters.
pub mod Duplicates
pub mod Acceptable
pub mod Accepted
use schulcloud_server.Prelude.{
  ℕ, zero, suc, String, Bool, true, false, not, ◌&&◌, ◌||◌, List, [], ◌∷◌, Option, none, some,
  Result, ok, throw, validation_error, guard, ◌>>=◌, ◌>>◌, any, all, ◌==◌, string_eq, nat_eq, eqb,
  if◌then◌else◌,
}
use schulcloud_server.Domain.User.{EntityId}
use schulcloud_server.Tool.Parameters.{Parameter, Tool, global, same_scope}

-- A tool as it is given: on an update properties may be missing.
pub record PartialTool : Type 0 where
  pub id : Option EntityId
  pub name : Option String
  pub parameters : Option (List Parameter)

-- `new RegExp(pattern)` either compiles or throws; `test` then answers.
pub record Engine : Type 0 where
  pub compiles : (pattern : String) → Bool
  pub test : (pattern text : String) → Bool
  pub to_locale_lower_case : String → String
  pub find_external_tool_by_name : String → Option Tool

-- `!!text`
abbrev pub filled : Option String → Bool
filled none = false
filled (some s) = not (s == "")

-- `items.some((item, index) => ...)`, from an index on.
abbrev pub any_indexed {ℓ} : {A : Type ℓ} → (ℕ → A → Bool) → (index : ℕ) → List A → Bool
any_indexed p index [] = false
any_indexed p index (x ∷ xs) = p index x || any_indexed p (suc index) xs

unfoldable pub is_custom_parameter_name_empty : List Parameter → Bool
is_custom_parameter_name_empty ps = any (λ p. p.name == "") ps

unfoldable pub is_regex_comment_mandatory_and_filled : Parameter → Bool
is_regex_comment_mandatory_and_filled p =
    if filled p.regex && not (filled p.regex_comment) then false else true

unfoldable pub is_global_parameter_valid : Parameter → Bool
is_global_parameter_valid p =
    if same_scope global p.scope && not (filled p.default) then false else true

-- The `forEach` at the end.
abbrev pub validate_each : List Parameter → Result (Unit {0})
validate_each [] = ok tt
validate_each (p ∷ ps) =
    guard (is_global_parameter_valid p) (validation_error "tool_param_default_required")
    >> (guard (is_regex_comment_mandatory_and_filled p) (validation_error "tool_param_regexComment")
        >> validate_each ps)

module _ (engine : Engine) where
  abbrev pub is_same_tool : Option Tool → Option EntityId → Bool
  is_same_tool none id = true
  is_same_tool (some duplicate) id = same_id duplicate.id id
    where
      same_id : Option EntityId → Option EntityId → Bool
      same_id none none = true
      same_id (some a) (some b) = a == b
      same_id _ _ = false

  abbrev pub is_free : Option String → Option EntityId → Bool
  is_free none id = true
  is_free (some name) id =
      if name == "" then true else is_same_tool (engine.find_external_tool_by_name name) id

  unfoldable pub is_name_unique : PartialTool → Bool
  is_name_unique t = is_free t.name t.id

  unfoldable pub has_duplicate_attributes : List Parameter → Bool
  has_duplicate_attributes ps =
      any_indexed
        (λ item_index item.
          any_indexed
            (λ other_index other.
              not (eqb item_index other_index)
              && engine.to_locale_lower_case item.name == engine.to_locale_lower_case other.name)
            0 ps)
        0 ps

  abbrev pub compiles_if_given : Option String → Bool
  compiles_if_given none = true
  compiles_if_given (some pattern) = if pattern == "" then true else engine.compiles pattern

  unfoldable pub validate_by_regex : List Parameter → Bool
  validate_by_regex ps = all (λ p. compiles_if_given p.regex) ps

  abbrev pub fits_if_given : (regex default : Option String) → Bool
  fits_if_given (some pattern) (some text) =
      if not (pattern == "") && not (text == "") then engine.test pattern text else true
  fits_if_given _ _ = true

  unfoldable pub validate_default_value : List Parameter → Bool
  validate_default_value ps = all (λ p. fits_if_given p.regex p.default) ps

  abbrev pub validate_parameters : Option (List Parameter) → Result (Unit {0})
  validate_parameters none = ok tt
  validate_parameters (some ps) =
      guard (not (is_custom_parameter_name_empty ps)) (validation_error "tool_param_name")
      >> (guard (not (has_duplicate_attributes ps)) (validation_error "tool_param_duplicate")
          >> (guard (validate_by_regex ps) (validation_error "tool_param_regex_invalid")
              >> (guard (validate_default_value ps) (validation_error "tool_param_default_regex")
                  >> validate_each ps)))

  unfoldable pub validate_common : PartialTool → Result (Unit {0})
  validate_common t =
      guard (is_name_unique t) (validation_error "tool_name_duplicate")
      >> validate_parameters t.parameters
