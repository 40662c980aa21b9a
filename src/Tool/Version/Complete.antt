-- ===== src/Tool/Version/Complete.antt =====
-- From a breaking change to the answer of external-tool-version.service.ts.
use schulcloud_server.Prelude.{
  ◌⊎◌, ◌+◌, true, false, not, ◌&&◌, List, some, all, any, Memᴰ, arith, includes, is_distinct, ◌==◌,
  string_eq, ◌≡◌, refl, sym, inl, inr, Bool-cases, ==_iff, any_from, filter_from,
}
use schulcloud_server.Tool.Parameters.{Parameter, Tool, same_scope, same_type}
use schulcloud_server.Tool.Version.{
  same_text, same_flag, has_new_required_parameter, has_changed_parameter_names,
  has_changed_required_parameters, has_changed_parameter_regex, has_changed_parameter_types,
  has_changed_parameter_scope, matching_params, compare_parameters,
  increase_version_of_new_tool_if_necessary,
}
use schulcloud_server.Tool.Version.Breaking.{
  names, Breaking, required_added, required_removed, altered, any_changed_from, lost_name_from,
  all_other-includes, required_names,
}
use schulcloud_server.Tool.Version.Detected.{compare_parameters-Breaking}

module _ (olds news : List Parameter) (d : is_distinct (names olds) ≡ true)
    (d' : is_distinct (names news) ≡ true) where
  matched :
      (o n : Parameter)
      → Memᴰ o olds
      → Memᴰ n news
      → o.name ≡ n.name
      → Memᴰ o (matching_params olds news)
  matched o n m m' named =
      filter_from (λ o. any (λ n. o.name == n.name) news) olds o m
        (any_from (λ n. o.name == n.name) news n m' ((==_iff o.name n.name).1 named))

  new_required_from :
      (n : Parameter)
      → Memᴰ n news
      → n.is_optional ≡ false
      → includes (names olds) n.name ≡ false
      → has_new_required_parameter olds news ≡ true
  unfolding has_new_required_parameter
  new_required_from n m required absent =
      any_from (λ n. not n.is_optional && all (λ o. not (o.name == n.name)) olds) news n m
        (rw (required, all_other-includes olds n.name, absent) refl)

  changed_names_from :
      (o : Parameter)
      → Memᴰ o olds
      → o.is_optional ≡ false
      → includes (names news) o.name ≡ false
      → has_changed_parameter_names olds news ≡ true
  unfolding has_changed_parameter_names required_names
  changed_names_from o m required absent =
      ground (arith, lost_name_from olds news o m required absent)

  changed_required_from :
      (o n : Parameter)
      → Memᴰ o olds
      → Memᴰ n news
      → o.name ≡ n.name
      → same_flag o.is_optional n.is_optional ≡ false
      → has_changed_required_parameters olds news ≡ true
  unfolding has_changed_required_parameters
  changed_required_from o n m m' named differ =
      any_changed_from (λ p n. same_flag p.is_optional n.is_optional) olds news n o d m' m
        (sym named) (ground (arith, differ))

  changed_regex_from :
      (o n : Parameter)
      → Memᴰ o olds
      → Memᴰ n news
      → o.name ≡ n.name
      → same_text o.regex n.regex ≡ false
      → has_changed_parameter_regex news (matching_params olds news) ≡ true
  unfolding has_changed_parameter_regex
  changed_regex_from o n m m' named differ =
      any_changed_from (λ p n. same_text p.regex n.regex) news (matching_params olds news) o n d'
        (matched o n m m' named) m' named differ

  changed_types_from :
      (o n : Parameter)
      → Memᴰ o olds
      → Memᴰ n news
      → o.name ≡ n.name
      → same_type o.type n.type ≡ false
      → has_changed_parameter_types news (matching_params olds news) ≡ true
  unfolding has_changed_parameter_types
  changed_types_from o n m m' named differ =
      any_changed_from (λ p n. same_type p.type n.type) news (matching_params olds news) o n d'
        (matched o n m m' named) m' named differ

  changed_scope_from :
      (o n : Parameter)
      → Memᴰ o olds
      → Memᴰ n news
      → o.name ≡ n.name
      → same_scope o.scope n.scope ≡ false
      → has_changed_parameter_scope news (matching_params olds news) ≡ true
  unfolding has_changed_parameter_scope
  changed_scope_from o n m m' named differ =
      any_changed_from (λ p n. same_scope p.scope n.scope) news (matching_params olds news) o n d'
        (matched o n m m' named) m' named differ

  compare_parameters_of_Breaking : Breaking olds news → compare_parameters olds news ≡ true
  unfolding compare_parameters
  compare_parameters_of_Breaking (required_added n m required absent) =
      ground (arith, new_required_from n m required absent)
  compare_parameters_of_Breaking (required_removed o m required absent) =
      ground (arith, changed_names_from o m required absent)
  compare_parameters_of_Breaking (altered o n m m' named differ) = ground (
    arith,
    differ,
    changed_required_from o n m m' named,
    changed_regex_from o n m m' named,
    changed_types_from o n m m' named,
    changed_scope_from o n m m' named,
  )

-- Where both versions of a tool have parameters and neither names one twice, the version is
-- raised by one if a required parameter was added or removed or a parameter of the same name
-- changed its regex, type, scope or whether it is optional, and the tool stays as it is
-- otherwise.
pub increase_version_lem :
    (old_tool new_tool : Tool) (olds news : List Parameter)
    → old_tool.parameters ≡ some olds
    → new_tool.parameters ≡ some news
    → is_distinct (names olds) ≡ true
    → is_distinct (names news) ≡ true
    → (Breaking olds news
        × (increase_version_of_new_tool_if_necessary old_tool new_tool
            ≡ record new_tool { version = new_tool.version + 1 }))
      ⊎ (¬ Breaking olds news
          × (increase_version_of_new_tool_if_necessary old_tool new_tool ≡ new_tool))
unfolding increase_version_of_new_tool_if_necessary
increase_version_lem old_tool new_tool olds news e e' d d' =
    elim (Bool-cases (compare_parameters olds news)) [
      | inl breaking ↦
          inl (compare_parameters-Breaking olds news breaking, rw (e, e', breaking) refl)
      | inr same ↦ inr (
        (λ b. (ground (arith, same, compare_parameters_of_Breaking olds news d d' b))),
        rw (e, e', same) refl,
      )
    ]
