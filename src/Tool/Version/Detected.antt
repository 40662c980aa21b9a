-- ===== src/Tool/Version/Detected.antt =====
-- From the answer of external-tool-version.service.ts to a breaking change.
use schulcloud_server.Prelude.{
  Bool, true, false, not, ◌&&◌, ◌||◌, List, all, any, arith, includes, ◌==◌, string_eq, ◌≡◌, refl,
  sym, inl, inr, any_to, filter_to,
}
use schulcloud_server.Tool.Parameters.{Parameter, same_scope, same_type}
use schulcloud_server.Tool.Version.{
  same_text, same_flag, has_new_required_parameter, has_changed_parameter_names,
  has_changed_required_parameters, has_changed_parameter_regex, has_changed_parameter_types,
  has_changed_parameter_scope, matching_params, compare_parameters,
}
use schulcloud_server.Tool.Version.Breaking.{
  Breaking, required_added, required_removed, altered, any_changed_to, either, lost_name,
  all_other-includes, required_names,
}

module _ (olds news : List Parameter) where
  new_required_to : has_new_required_parameter olds news ≡ true → Breaking olds news
  unfolding has_new_required_parameter
  new_required_to h =
      let (n, m, e) =
        any_to (λ n. not n.is_optional && all (λ o. not (o.name == n.name)) olds) news h in
      required_added n m (ground (arith, e)) (ground (arith, e, all_other-includes olds n.name))

  changed_required_to : has_changed_required_parameters olds news ≡ true → Breaking olds news
  unfolding has_changed_required_parameters
  changed_required_to h =
      let (n, o, m, m', named, differ) =
        any_changed_to (λ p n. same_flag p.is_optional n.is_optional) olds news h in
      altered o n m' m (sym named) (ground (arith, differ))

  changed_names_to : has_changed_parameter_names olds news ≡ true → Breaking olds news
  unfolding has_changed_parameter_names required_names
  changed_names_to h =
      elim (either (any (λ k. not (includes (required_names news) k)) (required_names olds))
        (any (λ k. not (includes (required_names olds) k)) (required_names news)) h) [
          | inl lost ↦
              let (o, m, required, why) = lost_name olds news lost in
              elim why [
                | inl absent ↦ required_removed o m required absent
                | inr (n, m', named, optional) ↦
                    altered o n m m' named (ground (arith, required, optional))
              ]
          | inr lost ↦
              let (n, m, required, why) = lost_name news olds lost in
              elim why [
                | inl absent ↦ required_added n m required absent
                | inr (o, m', named, optional) ↦
                    altered o n m' m (sym named) (ground (arith, required, optional))
              ]
        ]

  changed_regex_to :
      has_changed_parameter_regex news (matching_params olds news) ≡ true → Breaking olds news
  unfolding has_changed_parameter_regex
  changed_regex_to h =
      let (o, n, m, m', named, differ) =
        any_changed_to (λ p n. same_text p.regex n.regex) news (matching_params olds news) h in
      altered o n ((filter_to _ olds o m).0) m' named (ground (arith, differ))

  changed_types_to :
      has_changed_parameter_types news (matching_params olds news) ≡ true → Breaking olds news
  unfolding has_changed_parameter_types
  changed_types_to h =
      let (o, n, m, m', named, differ) =
        any_changed_to (λ p n. same_type p.type n.type) news (matching_params olds news) h in
      altered o n ((filter_to _ olds o m).0) m' named (ground (arith, differ))

  changed_scope_to :
      has_changed_parameter_scope news (matching_params olds news) ≡ true → Breaking olds news
  unfolding has_changed_parameter_scope
  changed_scope_to h =
      let (o, n, m, m', named, differ) =
        any_changed_to (λ p n. same_scope p.scope n.scope) news (matching_params olds news) h in
      altered o n ((filter_to _ olds o m).0) m' named (ground (arith, differ))

  pub compare_parameters-Breaking : compare_parameters olds news ≡ true → Breaking olds news
  unfolding compare_parameters
  compare_parameters-Breaking h =
      six _ _ _ _ _ _ h new_required_to changed_required_to changed_names_to changed_regex_to
        changed_types_to changed_scope_to
    where
      six :
          (a b c d e f : Bool)
          → (a || b || c || d || e || f) ≡ true
          → (a ≡ true → Breaking olds news)
          → (b ≡ true → Breaking olds news)
          → (c ≡ true → Breaking olds news)
          → (d ≡ true → Breaking olds news)
          → (e ≡ true → Breaking olds news)
          → (f ≡ true → Breaking olds news)
          → Breaking olds news
      six true b c d e f h k _ _ _ _ _ = k refl
      six false true c d e f h _ k _ _ _ _ = k refl
      six false false true d e f h _ _ k _ _ _ = k refl
      six false false false true e f h _ _ _ k _ _ = k refl
      six false false false false true f h _ _ _ _ k _ = k refl
      six false false false false false f h _ _ _ _ _ k = k h
