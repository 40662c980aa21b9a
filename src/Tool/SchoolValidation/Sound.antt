-- ===== src/Tool/SchoolValidation/Sound.antt =====
-- school-external-tool-validation.service.ts, and what it asks of the entries of a school.
use schulcloud_server.Prelude.{
  Bool, true, false, List, [], ◌∷◌, Option, none, some, Exception, ok, guard, >>=-returns, arith,
  ◌≡◌, refl, All, nat_eq, ==_iff, ◌≢◌, ◌⊎◌, inl, inr, sym, ap, ◌∙◌, Bool-cases, some_inj, String,
  ◌==◌, string_eq, if◌then◌else◌,
}
use schulcloud_server.Tool.Parameters.{
  Parameter, ParameterType, string, number, boolean, auto_courseid, auto_coursename, auto_schoolid,
  Tool, Entry, SchoolTool, school_scope, same_scope,
}
use schulcloud_server.Tool.Validation.{filled}
use schulcloud_server.Tool.SchoolValidation.{
  Outside, check_for_duplicate_parameters, check_version_match, check_optional_parameter,
  check_parameter_type, value_of, fits_type, find_entry, check_found, check_entry, check_entries,
  type_checker, validate,
}

guard-returns : (b : Bool) (e : Exception) → guard b e ≡ ok tt → b ≡ true
guard-returns true e h = refl
guard-returns false e h = cc

module _ (outside : Outside) where
  -- What a text of the type looks like.
  abbrev pub HasType : ParameterType → String → Type 0
  HasType string text = Unit
  HasType number text = outside.is_number text ≡ true
  HasType boolean text = (text ≡ "true") ⊎ (text ≡ "false")
  HasType auto_courseid text = Unit
  HasType auto_coursename text = Unit
  HasType auto_schoolid text = Unit

  -- The value of the entry that bears the name of the parameter, up to case.
  abbrev pub value_in : List Entry → Parameter → Option String
  value_in [] p = none
  value_in (entry ∷ entries) p =
      let rest = value_in entries p in
      if outside.to_lower_case entry.name == outside.to_lower_case p.name then entry.value else rest

  -- A required parameter of school scope has a value that is not empty, and a value that is given
  -- looks as the parameter's type asks.
  abbrev pub IsServed : List Entry → Parameter → Type 0
  IsServed entries p =
      p.scope ≡ school_scope
      → (p.is_optional ≡ false → (text : String) × (value_in entries p ≡ some text) × (text ≢ ""))
        × ((text : String) → value_in entries p ≡ some text → HasType p.type text)

  value_of_found :
      (entries : List Entry) (p : Parameter)
      → value_of outside (find_entry outside p entries) ≡ value_in entries p
  value_of_found [] p = refl
  value_of_found (entry ∷ entries) p =
      elim (Bool-cases (outside.to_lower_case entry.name == outside.to_lower_case p.name)) [
        | inl here ↦ rw here refl
        | inr there ↦ rw there (value_of_found entries p)
      ]

  has_type :
      (type : ParameterType) (o : Option String) (text : String)
      → fits_type outside type o ≡ true
      → o ≡ some text
      → HasType type text
  unfolding type_checker
  has_type type none text h e = absurd (no_text e)
    where
      no_text : ¬ (none ≡ some text)
      no_text e = cc
  has_type type (some given) text h e =
      of_type type (ap (type_checker outside type) (sym (some_inj e)) ∙ h)
    where
      of_type : (type : ParameterType) → type_checker outside type text ≡ true → HasType type text
      of_type string h = tt
      of_type number h = h
      of_type boolean h = elim (Bool-cases (text == "true")) [
        | inl same ↦ inl ((==_iff text "true").0 same)
        | inr other ↦ inr ((==_iff text "false").0 (rw other at h))
      ]
      of_type auto_courseid h = tt
      of_type auto_coursename h = tt
      of_type auto_schoolid h = tt

  has_text : (o : Option String) → filled o ≡ true → (text : String) × (o ≡ some text) × (text ≢ "")
  has_text none h = cc
  has_text (some text) h = (text, refl, λ blank. ground (arith, h, blank, ==_iff text ""))

  check_found_lem :
      (found : Option Entry) (p : Parameter)
      → check_found outside found p ≡ ok tt
      → fits_type outside p.type (value_of outside found) ≡ true
  unfolding check_parameter_type
  check_found_lem none p h = refl
  check_found_lem (some entry) p h =
      let (_, typed, _) = >>=-returns (check_parameter_type outside entry p) _ h in
      guard-returns _ _ typed

  check_entry_lem :
      (entries : List Entry) (p : Parameter)
      → check_entry outside p (find_entry outside p entries) ≡ ok tt
      → IsServed entries p
  unfolding check_optional_parameter
  check_entry_lem entries p h scope =
      let here : same_scope school_scope p.scope ≡ true = rw scope refl in
      let (_, given, typed) =
        >>=-returns (check_optional_parameter outside p (find_entry outside p entries)) _
          (rw here at h) in
      let has = guard-returns _ _ given in
      (
        λ required.
            let (text, found, differs) =
              has_text (value_of outside (find_entry outside p entries))
                (ground (arith, has, required)) in
            (text, sym (value_of_found entries p) ∙ found, differs),
        λ text found.
            has_type p.type (value_of outside (find_entry outside p entries)) text
              (check_found_lem (find_entry outside p entries) p typed)
              (value_of_found entries p ∙ found),
      )

  check_entries_lem :
      (ps : List Parameter) (entries : List Entry)
      → check_entries outside ps entries ≡ ok tt
      → All (IsServed entries) ps
  check_entries_lem [] entries h = tt
  check_entries_lem (p ∷ ps) entries h =
      let (_, first, rest) =
        >>=-returns (check_entry outside p (find_entry outside p entries)) _ h in
      (check_entry_lem entries p first, check_entries_lem ps entries rest)

  -- A tool of a school that is accepted has the version of its external tool. For every
  -- parameter of school scope of that tool, the entry with its name up to case has a value that
  -- is not empty if the parameter is required; and a value that it has is a number for a number
  -- parameter, and true or false for a boolean one.
  pub validate_lem :
      (t : SchoolTool)
      → validate outside t ≡ ok tt
      → (tool : Tool) × (outside.find_external_tool_by_id t.tool_id ≡ ok tool)
        × (t.tool_version ≡ tool.version)
        × ((ps : List Parameter) → tool.parameters ≡ some ps → All (IsServed t.parameters) ps)
  unfolding validate check_version_match
  validate_lem t h =
      let (_, _, h1) = >>=-returns (check_for_duplicate_parameters outside t) _ h in
      let (tool, loaded, h2) = >>=-returns (outside.find_external_tool_by_id t.tool_id) _ h1 in
      let (_, versions, h3) =
        >>=-returns (check_version_match outside t.tool_version tool.version) _ h2 in
      (
        tool,
        loaded,
        (==_iff t.tool_version tool.version).0 (guard-returns _ _ versions),
        λ ps e. check_entries_lem ps t.parameters (rw e at h3),
      )
