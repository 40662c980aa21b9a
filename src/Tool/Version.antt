-- ===== src/Tool/Version.antt =====
-- external-tool-version.service.ts
pub mod Breaking
pub mod Detected
pub mod Complete
use schulcloud_server.Prelude.{
  ℕ, ◌+◌, String, Bool, true, false, not, ◌&&◌, ◌||◌, List, Option, none, some, map, all, any,
  filterb, find?, includes, ◌==◌, string_eq, if◌then◌else◌,
}
use schulcloud_server.Tool.Parameters.{Parameter, Tool, same_scope, same_type}

-- `a !== b` on texts that may be missing, and on Booleans.
abbrev pub same_text : Option String → Option String → Bool
same_text none none = true
same_text (some a) (some b) = a == b
same_text _ _ = false

abbrev pub same_flag : Bool → Bool → Bool
same_flag true b = b
same_flag false b = not b

unfoldable pub has_new_required_parameter : (old_params new_params : List Parameter) → Bool
has_new_required_parameter old_params new_params =
    any (λ n. not n.is_optional && all (λ o. not (o.name == n.name)) old_params) new_params

unfoldable pub has_changed_parameter_names : (old_params new_params : List Parameter) → Bool
has_changed_parameter_names old_params new_params =
    let old_names = map (λ p. p.name) (filterb (λ p. not p.is_optional) old_params) in
    let new_names = map (λ p. p.name) (filterb (λ p. not p.is_optional) new_params) in
    any (λ n. not (includes new_names n)) old_names
    || any (λ n. not (includes old_names n)) new_names

-- `matchingParams.some(...)` with the parameter of the same name that `find` finds first.
abbrev pub changed : (Parameter → Parameter → Bool) → Option Parameter → Parameter → Bool
changed same none p = false
changed same (some n) p = not (same p n)

abbrev pub any_changed :
    (Parameter → Parameter → Bool) → (new_params matching : List Parameter) → Bool
any_changed same new_params matching =
    any (λ p. changed same (find? (λ n. n.name == p.name) new_params) p) matching

unfoldable pub has_changed_required_parameters : (new_params matching : List Parameter) → Bool
has_changed_required_parameters = any_changed (λ p n. same_flag p.is_optional n.is_optional)

unfoldable pub has_changed_parameter_regex : (new_params matching : List Parameter) → Bool
has_changed_parameter_regex = any_changed (λ p n. same_text p.regex n.regex)

unfoldable pub has_changed_parameter_types : (new_params matching : List Parameter) → Bool
has_changed_parameter_types = any_changed (λ p n. same_type p.type n.type)

unfoldable pub has_changed_parameter_scope : (new_params matching : List Parameter) → Bool
has_changed_parameter_scope = any_changed (λ p n. same_scope p.scope n.scope)

abbrev pub matching_params : (old_params new_params : List Parameter) → List Parameter
matching_params old_params new_params =
    filterb (λ o. any (λ n. o.name == n.name) new_params) old_params

-- The call of `hasChangedRequiredParameters` passes the old parameters as the new ones, and the new
-- ones as the matching ones.
unfoldable pub compare_parameters : (old_params new_params : List Parameter) → Bool
compare_parameters old_params new_params =
    let matching = matching_params old_params new_params in
    has_new_required_parameter old_params new_params
    || has_changed_required_parameters old_params new_params
    || has_changed_parameter_names old_params new_params
    || has_changed_parameter_regex new_params matching
    || has_changed_parameter_types new_params matching
    || has_changed_parameter_scope new_params matching

abbrev compared : Option (List Parameter) → Option (List Parameter) → Tool → Tool
compared (some old_params) (some new_params) new_tool =
    if compare_parameters old_params new_params
    then record new_tool { version = new_tool.version + 1 }
    else new_tool
compared _ _ new_tool = new_tool

unfoldable pub increase_version_of_new_tool_if_necessary : (old_tool new_tool : Tool) → Tool
increase_version_of_new_tool_if_necessary old_tool new_tool =
    compared old_tool.parameters new_tool.parameters new_tool
