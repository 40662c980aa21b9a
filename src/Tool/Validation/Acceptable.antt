-- ===== src/Tool/Validation/Acceptable.antt =====
-- common-tool-validation.service.ts: what `validateCommon` asks of a tool, as a test and in words.
use schulcloud_server.Prelude.{
  String, Bool, true, false, not, ◌&&◌, List, [], ◌∷◌, Option, none, some, map, all, is_distinct,
  ◌==◌, string_eq, nat_eq, ◌≡◌, ◌≢◌, ◌↔◌, refl, sym, ap, ◌∙◌, inl, inr, arith, clash, All,
  Bool-cases, ==_iff, some_inj,
}
use schulcloud_server.Domain.User.{EntityId}
use schulcloud_server.Tool.Parameters.{
  Parameter, Tool, Scope, global, course_scope, school_scope, same_scope,
}
use schulcloud_server.Tool.Validation.{
  PartialTool, Engine, filled, is_free, is_same_tool, is_name_unique, is_global_parameter_valid,
  is_regex_comment_mandatory_and_filled, compiles_if_given, fits_if_given,
}
use schulcloud_server.Tool.Validation.Duplicates.{key}

-- What is asked of one parameter.
abbrev pub parameter_ok : Engine → Parameter → Bool
parameter_ok engine p =
    not (p.name == "")
    && compiles_if_given engine p.regex
    && fits_if_given engine p.regex p.default
    && is_global_parameter_valid p
    && is_regex_comment_mandatory_and_filled p

-- What is asked of all of them.
abbrev pub parameters_ok : Engine → Option (List Parameter) → Bool
parameters_ok engine none = true
parameters_ok engine (some ps) = all (parameter_ok engine) ps && is_distinct (map (key engine) ps)

-- A text is there, and is not empty.
abbrev pub Given : Option String → Type 0
Given o = (text : String) × (o ≡ some text) × (text ≢ "")

Given-iff : (o : Option String) → (filled o ≡ true) ↔ Given o
Given-iff none = (λ e. (cc), λ (text, e, _). (cc))
Given-iff (some s) = (
  λ e. (s, refl, λ blank. ground (arith, e, blank, ==_iff s "")),
  λ (text, e, differs). ground (arith, some_inj e, differs, ==_iff s ""),
)

==_false : {a b : String} → a ≢ b → (a == b) ≡ false
==_false {a} {b} differ = ground (arith, ==_iff a b, differ)

global_scope : (scope : Scope) → (same_scope global scope ≡ true) ↔ (scope ≡ global)
global_scope global = (λ _. refl, λ _. refl)
global_scope course_scope = (λ e. (cc), λ e. (cc))
global_scope school_scope = (λ e. (cc), λ e. (cc))

module _ (engine : Engine) where
  -- A tool that bears the name is the one that is checked.
  abbrev pub IsFree : Option String → PartialTool → Type 0
  IsFree none t = Unit
  IsFree (some name) t =
      name ≢ ""
      → (tool : Tool) → engine.find_external_tool_by_name name ≡ some tool
      → tool.id ≡ t.id

  -- A parameter has a name; its pattern compiles and fits its default; if it is global it has a
  -- default, and if it has a pattern it has a comment on it.
  pub record IsInOrder (p : Parameter) : Type 0 where
    pub named : p.name ≢ ""
    pub compiles :
        (pattern : String) → p.regex ≡ some pattern → pattern ≢ "" → engine.compiles pattern ≡ true
    pub fits :
        (pattern text : String)
        → p.regex ≡ some pattern
        → p.default ≡ some text
        → pattern ≢ ""
        → text ≢ ""
        → engine.test pattern text ≡ true
    pub has_default : p.scope ≡ global → Given p.default
    pub has_comment : Given p.regex → Given p.regex_comment

  abbrev pub AreInOrder : Option (List Parameter) → Type 0
  AreInOrder none = Unit
  AreInOrder (some ps) =
      All IsInOrder ps
      × (is_distinct (map (λ (p : Parameter). engine.to_locale_lower_case p.name) ps) ≡ true)

  abbrev pub IsAcceptable : PartialTool → Type 0
  IsAcceptable t = IsFree t.name t × AreInOrder t.parameters

  same_tool :
      (found : Option Tool) (id : Option EntityId)
      → (is_same_tool engine found id ≡ true) ↔ ((tool : Tool) → found ≡ some tool → tool.id ≡ id)
  same_tool none id = (λ _ tool e. (cc), λ _. refl)
  same_tool (some given) id = (
    λ h tool e. ap (λ (x : Tool). x.id) (sym (some_inj e)) ∙ same_to given.id id h,
    λ h. ap (is_same_tool engine (some given)) (sym (h given refl)) ∙ same_self given.id,
  )
    where
      same_to :
          (a b : Option EntityId)
          → is_same_tool engine (some (record given { id = a })) b ≡ true
          → a ≡ b
      same_to none none h = refl
      same_to none (some b) h = cc
      same_to (some a) none h = cc
      same_to (some a) (some b) h = ap some ((==_iff a b).0 h)

      same_self :
          (a : Option EntityId) → is_same_tool engine (some (record given { id = a })) a ≡ true
      same_self none = refl
      same_self (some a) = (==_iff a a).1 refl

  is_free_iff :
      (name : Option String) (t : PartialTool) → (is_free engine name t.id ≡ true) ↔ IsFree name t
  is_free_iff none t = (λ _. tt, λ _. refl)
  is_free_iff (some name) t = elim (Bool-cases (name == "")) [
    | inl blank ↦ (λ _ filled. absurd (filled ((==_iff name "").0 blank)), λ _. rw blank refl)
    | inr filled ↦ (
      λ e _ tool found.
          (same_tool (engine.find_external_tool_by_name name) t.id).0 (rw filled at e) tool found,
      λ h. rw filled (
          (same_tool (engine.find_external_tool_by_name name) t.id).1
            (h (λ blank. ground (arith, filled, blank, ==_iff name "")))),
    )
  ]

  compiles_iff :
      (o : Option String)
      → (compiles_if_given engine o ≡ true)
        ↔ ((pattern : String) → o ≡ some pattern → pattern ≢ "" → engine.compiles pattern ≡ true)
  compiles_iff none = (λ _ pattern e. (cc), λ _. refl)
  compiles_iff (some text) = elim (Bool-cases (text == "")) [
    | inl blank ↦ (
      λ _ pattern e filled. absurd (filled (sym (some_inj e) ∙ (==_iff text "").0 blank)),
      λ _. rw blank refl,
    )
    | inr filled ↦ (
      λ h pattern e _. ap engine.compiles (sym (some_inj e)) ∙ rw filled at h,
      λ h. rw filled (h text refl (λ blank. ground (arith, filled, blank, ==_iff text ""))),
    )
  ]

  fits_iff :
      (o default : Option String)
      → (fits_if_given engine o default ≡ true) ↔ (
          (pattern text : String)
          → o ≡ some pattern
          → default ≡ some text
          → pattern ≢ ""
          → text ≢ ""
          → engine.test pattern text ≡ true)
  fits_iff none default = (λ _ pattern text e. (cc), λ _. refl)
  fits_iff (some pattern) none = (λ _ _ text _ e. (cc), λ _. refl)
  fits_iff (some pattern) (some text) = (
    λ h a b e k filled_a filled_b.
        ap (λ x. engine.test x b) (sym (some_inj e))
        ∙ ap (engine.test pattern) (sym (some_inj k))
        ∙ ground (arith, h, pattern_filled e filled_a, text_filled k filled_b),
    λ h. elim (Bool-cases (pattern == "")) [
      | inl blank ↦ rw blank refl
      | inr filled ↦ elim (Bool-cases (text == "")) [
        | inl blank_text ↦ rw (filled, blank_text) refl
        | inr filled_text ↦
            rw (filled, filled_text)
              (h pattern text refl refl (λ e. ground (arith, filled, e, ==_iff pattern ""))
                (λ e. ground (arith, filled_text, e, ==_iff text "")))
      ]
    ],
  )
    where
      pattern_filled : {a : String} → some pattern ≡ some a → a ≢ "" → (pattern == "") ≡ false
      pattern_filled e filled = ==_false (λ blank. filled (sym (some_inj e) ∙ blank))

      text_filled : {b : String} → some text ≡ some b → b ≢ "" → (text == "") ≡ false
      text_filled e filled = ==_false (λ blank. filled (sym (some_inj e) ∙ blank))

  global_iff :
      (p : Parameter) → (is_global_parameter_valid p ≡ true) ↔ (p.scope ≡ global → Given p.default)
  unfolding is_global_parameter_valid
  global_iff p = elim (Bool-cases (filled p.default)) [
    | inl has ↦ (λ _ _. (Given-iff p.default).0 has, λ _. ground (arith, has))
    | inr lacks ↦ (
      λ h is_global.
          absurd (clash (sym (ground (arith, lacks, h)) ∙ (global_scope p.scope).1 is_global)),
      λ h. elim (Bool-cases (same_scope global p.scope)) [
        | inl is_global ↦
            absurd
              (clash (sym lacks ∙ (Given-iff p.default).1 (h ((global_scope p.scope).0 is_global))))
        | inr other ↦ rw other refl
      ],
    )
  ]

  comment_iff :
      (p : Parameter)
      → (is_regex_comment_mandatory_and_filled p ≡ true) ↔ (Given p.regex → Given p.regex_comment)
  unfolding is_regex_comment_mandatory_and_filled
  comment_iff p = elim (Bool-cases (filled p.regex_comment)) [
    | inl has ↦ (λ _ _. (Given-iff p.regex_comment).0 has, λ _. ground (arith, has))
    | inr lacks ↦ (
      λ h given. absurd (clash (sym (ground (arith, lacks, h)) ∙ (Given-iff p.regex).1 given)),
      λ h. elim (Bool-cases (filled p.regex)) [
        | inl given ↦
            absurd
              (clash (sym lacks ∙ (Given-iff p.regex_comment).1 (h ((Given-iff p.regex).0 given))))
        | inr without ↦ rw without refl
      ],
    )
  ]

  IsInOrder-iff : (p : Parameter) → (parameter_ok engine p ≡ true) ↔ IsInOrder p
  IsInOrder-iff p = (
    λ h. record {
      named = λ e. ground (arith, h, e, ==_iff p.name "");
      compiles = (compiles_iff p.regex).0 (ground (arith, h));
      fits = (fits_iff p.regex p.default).0 (ground (arith, h));
      has_default = (global_iff p).0 (ground (arith, h));
      has_comment = (comment_iff p).0 (ground (arith, h));
    },
    λ o.
        rw
          (
            ==_false o.named,
            (compiles_iff p.regex).1 o.compiles,
            (fits_iff p.regex p.default).1 o.fits,
            (global_iff p).1 o.has_default,
            (comment_iff p).1 o.has_comment,
          )
          refl,
  )

  AreInOrder-iff : (o : Option (List Parameter)) → (parameters_ok engine o ≡ true) ↔ AreInOrder o
  AreInOrder-iff none = (λ _. tt, λ _. refl)
  AreInOrder-iff (some ps) = (
    λ h. (all_to ps (ground (arith, h)), ground (arith, h)),
    λ (each, distinct). rw (all_from ps each, distinct) refl,
  )
    where
      all_to : (ps : List Parameter) → all (parameter_ok engine) ps ≡ true → All IsInOrder ps
      all_to [] h = tt
      all_to (p ∷ ps) h = ((IsInOrder-iff p).0 (ground (arith, h)), all_to ps (ground (arith, h)))

      all_from : (ps : List Parameter) → All IsInOrder ps → all (parameter_ok engine) ps ≡ true
      all_from [] h = refl
      all_from (p ∷ ps) (first, others) = rw ((IsInOrder-iff p).1 first, all_from ps others) refl

  pub IsAcceptable-iff :
      (t : PartialTool)
      → ((is_name_unique engine t && parameters_ok engine t.parameters) ≡ true) ↔ IsAcceptable t
  unfolding is_name_unique
  IsAcceptable-iff t = (
    λ h. (
      (is_free_iff t.name t).0 (ground (arith, h)),
      (AreInOrder-iff t.parameters).0 (ground (arith, h)),
    ),
    λ (free, in_order).
        rw ((is_free_iff t.name t).1 free, (AreInOrder-iff t.parameters).1 in_order) refl,
  )
