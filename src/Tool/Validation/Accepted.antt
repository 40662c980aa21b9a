-- ===== src/Tool/Validation/Accepted.antt =====
-- `validateCommon` of common-tool-validation.service.ts.
use schulcloud_server.Prelude.{
  clash, sym, ◌∙◌, String, Bool, true, false, not, ◌&&◌, List, [], ◌∷◌, Option, none, some, Result,
  ok, throw, validation_error, guard, ◌>>◌, all, string_eq, ◌≡◌, refl, ◌⊎◌, inl, inr, arith,
}
use mathlib.Core.Path.{subst}
use schulcloud_server.Tool.Parameters.{Parameter}
use schulcloud_server.Tool.Validation.{
  PartialTool, Engine, is_name_unique, is_custom_parameter_name_empty, has_duplicate_attributes,
  validate_by_regex, validate_default_value, is_global_parameter_valid,
  is_regex_comment_mandatory_and_filled, validate_each, validate_parameters, validate_common,
}
use schulcloud_server.Tool.Validation.Acceptable.{
  parameter_ok, parameters_ok, IsAcceptable, IsAcceptable-iff,
}
use schulcloud_server.Tool.Validation.Duplicates.{has_duplicate_attributes_lem}

-- A call that checks: it returns, or throws a ValidationError.
abbrev Checks : Result (Unit {0}) → Bool → Type 0
Checks call accepted =
    ((accepted ≡ true) × (call ≡ ok tt))
    ⊎ ((accepted ≡ false) × (code : String) × (call ≡ throw (validation_error code)))

Checks-guard :
    (b rest : Bool) (code : String) (call : Result (Unit {0}))
    → Checks call rest
    → Checks (guard b (validation_error code) >> call) (b && rest)
Checks-guard true rest code call h = h
Checks-guard false rest code call h = inr (refl, code, refl)

each_ok : Parameter → Bool
each_ok p = is_global_parameter_valid p && is_regex_comment_mandatory_and_filled p

validate_each_lem : (ps : List Parameter) → Checks (validate_each ps) (all each_ok ps)
unfolding each_ok
validate_each_lem [] = inl (refl, refl)
validate_each_lem (p ∷ ps) =
    nest (is_global_parameter_valid p) (is_regex_comment_mandatory_and_filled p) _ _ (
      Checks-guard _ _ "tool_param_default_required" _
        (Checks-guard _ _ "tool_param_regexComment" _ (validate_each_lem ps)))
  where
    nest :
        (a b c : Bool) (call : Result (Unit {0}))
        → Checks call (a && (b && c))
        → Checks call ((a && b) && c)
    nest true b c call h = h
    nest false b c call h = h

module _ (engine : Engine) where
  gathered_each :
      (ps : List Parameter)
      → (not (is_custom_parameter_name_empty ps)
          && (validate_by_regex engine ps && (validate_default_value engine ps && all each_ok ps)))
        ≡ all (parameter_ok engine) ps
  unfolding is_custom_parameter_name_empty validate_by_regex validate_default_value each_ok
  gathered_each [] = refl
  gathered_each (p ∷ ps) = ground (arith, gathered_each ps)

  gathered :
      (ps : List Parameter)
      → (not (is_custom_parameter_name_empty ps)
          && (not (has_duplicate_attributes engine ps)
              && (validate_by_regex engine ps
                  && (validate_default_value engine ps && all each_ok ps))))
        ≡ parameters_ok engine (some ps)
  gathered ps = ground (arith, gathered_each ps, has_duplicate_attributes_lem engine ps)

  validate_parameters_lem :
      (o : Option (List Parameter)) → Checks (validate_parameters engine o) (parameters_ok engine o)
  validate_parameters_lem none = inl (refl, refl)
  validate_parameters_lem (some ps) =
      subst (Checks (validate_parameters engine (some ps))) (gathered ps) (
        Checks-guard _ _ "tool_param_name" _ (
          Checks-guard _ _ "tool_param_duplicate" _ (
            Checks-guard _ _ "tool_param_regex_invalid" _
              (Checks-guard _ _ "tool_param_default_regex" _ (validate_each_lem ps)))))

  -- A tool is accepted if it is in order and refused with a ValidationError otherwise. In order
  -- means that a tool found by its name, if the name is not empty, has its id; that no
  -- parameter's name is empty and no two are the same in lower case; and that for each
  -- parameter a pattern that is given compiles and fits a default that is given, a global one
  -- has a default that is not empty, and one with a pattern has a comment that is not empty.
  pub validate_common_lem :
      (t : PartialTool)
      → (IsAcceptable engine t × (validate_common engine t ≡ ok tt))
        ⊎ (¬ IsAcceptable engine t
            × (code : String) × (validate_common engine t ≡ throw (validation_error code)))
  unfolding validate_common
  validate_common_lem t = go (
      Checks-guard (is_name_unique engine t) _ "tool_name_duplicate" _
        (validate_parameters_lem t.parameters))
    where
      go :
          Checks
            (validate_common engine t)
            (is_name_unique engine t && parameters_ok engine t.parameters)
          → (IsAcceptable engine t × (validate_common engine t ≡ ok tt))
            ⊎ (¬ IsAcceptable engine t
                × (code : String) × (validate_common engine t ≡ throw (validation_error code)))
      go (inl (accepted, returns)) = inl ((IsAcceptable-iff engine t).0 accepted, returns)
      go (inr (refused, code, throws)) =
          inr (λ h. clash (sym refused ∙ (IsAcceptable-iff engine t).1 h), code, throws)
