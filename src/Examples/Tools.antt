-- ===== src/Examples/Tools.antt =====
-- The theorems on tools at a concrete tool.
use schulcloud_server.Prelude.{
  Option, ◌+◌, String, true, false, List, [], ◌∷◌, none, some, ok, throw, validation_error, ◌≡◌,
  refl, ◌⊎◌, All, ◌==◌, string_eq,
}
use schulcloud_server.Tool.Parameters.{
  Parameter, Tool, SchoolTool, course_scope, school_scope, query, string, number,
}
use schulcloud_server.Tool.Version.{increase_version_of_new_tool_if_necessary}
use schulcloud_server.Tool.Version.Breaking.{Breaking}
use schulcloud_server.Tool.Version.Complete.{increase_version_lem}
use schulcloud_server.Tool.Validation.{PartialTool, Engine, is_name_unique, validate_common}
use schulcloud_server.Tool.Validation.Acceptable.{IsAcceptable}
use schulcloud_server.Tool.Validation.Accepted.{validate_common_lem}
use schulcloud_server.Tool.ExternalValidation.{
  ConfiguredTool, ExternalTools, oauth2, validate_update, validate_update-oauth2,
}
use schulcloud_server.Tool.SchoolValidation.{
  Outside, validate, check_for_duplicate_parameters, check_version_match, check_optional_parameter,
  check_parameter_type, check_parameter_regex, type_checker,
}
use schulcloud_server.Tool.SchoolValidation.Sound.{IsServed, validate_lem}

abbrev level : Parameter
level = record {
  name = "level";
  default = none;
  regex = none;
  regex_comment = none;
  scope = course_scope;
  location = query;
  type = string;
  is_optional = false;
}

abbrev quiz : Tool
quiz = record { id = some 1; name = "Quiz"; parameters = some (level ∷ []); version = 3 }

-- The parameter is now a number.
abbrev new_quiz : Tool
new_quiz = record quiz { parameters = some (record level { type = number } ∷ []) }

increase_version_lem_example :
    (Breaking (level ∷ []) (record level { type = number } ∷ [])
      × (increase_version_of_new_tool_if_necessary quiz new_quiz
          ≡ record new_quiz { version = 3 + 1 }))
    ⊎ (¬ Breaking (level ∷ []) (record level { type = number } ∷ [])
        × (increase_version_of_new_tool_if_necessary quiz new_quiz ≡ new_quiz))
increase_version_lem_example =
    increase_version_lem quiz new_quiz (level ∷ []) (record level { type = number } ∷ []) refl refl
      refl refl

-- Patterns are plain texts here, which match themselves; no tool is stored.
abbrev plain : Engine
plain = record {
  compiles = λ pattern. true;
  test = λ pattern text. pattern == text;
  to_locale_lower_case = λ text. text;
  find_external_tool_by_name = λ name. none;
}

abbrev given : PartialTool
given = record { id = none; name = some "Quiz"; parameters = some (level ∷ level ∷ []) }

validate_common_lem_example :
    (IsAcceptable plain given × (validate_common plain given ≡ ok tt))
    ⊎ (¬ IsAcceptable plain given
        × (code : String) × (validate_common plain given ≡ throw (validation_error code)))
validate_common_lem_example = validate_common_lem plain given

-- The school states the level, a number.
abbrev graded_quiz : Tool
graded_quiz = record quiz {
  parameters = some (record level { type = number; scope = school_scope } ∷ []);
}

abbrev outside : Outside
outside = record {
  to_lower_case = λ text. text;
  is_number = λ text. text == "7";
  test_regex = λ pattern text. ok (pattern == text);
  find_external_tool_by_id = λ id. ok graded_quiz;
}

abbrev school_quiz : SchoolTool
school_quiz = record {
  name = none;
  tool_id = 1;
  parameters = record { name = "level"; value = some "7" } ∷ [];
  tool_version = 3;
}

validate_lem_example :
    (tool : Tool) × (outside.find_external_tool_by_id 1 ≡ ok tool)
    × (3 ≡ tool.version)
    × ((ps : List Parameter)
        → tool.parameters ≡ some ps
        → All (IsServed outside school_quiz.parameters) ps)
unfolding validate check_for_duplicate_parameters check_version_match check_optional_parameter
    check_parameter_type check_parameter_regex type_checker
validate_lem_example = validate_lem outside school_quiz refl

abbrev renamed_tool : ConfiguredTool
renamed_tool = record {
  tool = record { id = some 31; name = some "A new name"; parameters = none };
  config = some (oauth2 "client" none);
}

abbrev stored_tools : ExternalTools
stored_tools = record {
  id_by_client_id = λ client_id. none;
  config_by_id = λ id. ok (oauth2 "client" (some "secret"));
}

validate_update-oauth2_example :
    (validate_common plain renamed_tool.tool ≡ ok tt)
    × ((renamed_tool.config ≡ none)
        ⊎ ((s : Option String) × (renamed_tool.config ≡ some (oauth2 "client" s))))
unfolding validate_update validate_common is_name_unique
validate_update-oauth2_example =
    validate_update-oauth2 plain stored_tools 31 renamed_tool "client" (some "secret") refl refl
