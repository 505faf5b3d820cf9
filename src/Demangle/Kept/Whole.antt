-- ===== src/Demangle/Kept/Whole.antt =====
-- All decoders of include/cwd_demangle.h keep their session.
use libcwd.Base.{ℕ, suc, zero}
use libcwd.Demangle.Kept.Rules.{Keeping, Keeps-stop}
use libcwd.Demangle.Kept.Typing.{
  Keeps-decode_type_with_postfix, Keeps-eat_qualifiers, Keeps-cv_run,
  Keeps-decode_bare_function_type, Keeps-more_parameters, Keeps-decode_class_enum_type,
}
use libcwd.Demangle.Kept.Expressing.{
  Keeps-decode_expression, Keeps-decode_template_args, Keeps-more_template_args,
  Keeps-decode_operator_name,
}
use libcwd.Demangle.Kept.Decoding.{
  Keeps-decode_substitution, Keeps-decode_template_param, Keeps-decode_literal,
}
use libcwd.Demangle.Kept.Naming.{
  Keeps-decode_nested_name, Keeps-nested_prefixes, Keeps-decode_unqualified_name,
  Keeps-decode_unscoped_name, Keeps-decode_name,
}
use libcwd.Demangle.Kept.Encoding.{
  Keeps-decode_local_name, Keeps-decode_special_name, Keeps-decode_encoding,
}
use libcwd.Demangle.Grammar.{ImplementationDetails, Decoders}
use libcwd.Demangle.Grammar.Knot.{exhausted, over, decoders}

module _ (id : ImplementationDetails) where
  Keeping-exhausted : Keeping (exhausted id)
  Keeping-exhausted = record {
    type_with_postfix_keeps = λ _ _ _. Keeps-stop _;
    eat_qualifiers_keeps = λ _ _ _. Keeps-stop _;
    cv_run_keeps = λ _ _. Keeps-stop _;
    bare_function_type_keeps = λ _. Keeps-stop _;
    more_parameters_keeps = λ _. Keeps-stop _;
    expression_keeps = λ _. Keeps-stop _;
    template_args_keeps = λ _. Keeps-stop _;
    more_template_args_keeps = λ _. Keeps-stop _;
    substitution_keeps = λ _ _. Keeps-stop _;
    template_param_keeps = λ _ _. Keeps-stop _;
    literal_keeps = λ _. Keeps-stop _;
    operator_name_keeps = λ _. Keeps-stop _;
    class_enum_type_keeps = λ _. Keeps-stop _;
    nested_name_keeps = λ _ _. Keeps-stop _;
    nested_prefixes_keeps = λ _ _ _. Keeps-stop _;
    local_name_keeps = λ _. Keeps-stop _;
    unqualified_name_keeps = λ _. Keeps-stop _;
    unscoped_name_keeps = λ _. Keeps-stop _;
    name_keeps = λ _ _. Keeps-stop _;
    special_name_keeps = λ _. Keeps-stop _;
    encoding_keeps = λ _ _ _. Keeps-stop _;
  }

  Keeping-over : (d : Decoders) → Keeping d → Keeping (over id d)
  unfolding over
  Keeping-over d k = record {
    type_with_postfix_keeps = Keeps-decode_type_with_postfix id d k;
    eat_qualifiers_keeps = Keeps-eat_qualifiers id d k;
    cv_run_keeps = Keeps-cv_run id d k;
    bare_function_type_keeps = Keeps-decode_bare_function_type id d k;
    more_parameters_keeps = Keeps-more_parameters id d k;
    expression_keeps = Keeps-decode_expression id d k;
    template_args_keeps = Keeps-decode_template_args id d k;
    more_template_args_keeps = Keeps-more_template_args id d k;
    substitution_keeps = Keeps-decode_substitution id d k;
    template_param_keeps = Keeps-decode_template_param id d k;
    literal_keeps = Keeps-decode_literal id d k;
    operator_name_keeps = Keeps-decode_operator_name id d k;
    class_enum_type_keeps = Keeps-decode_class_enum_type id d k;
    nested_name_keeps = Keeps-decode_nested_name id d k;
    nested_prefixes_keeps = Keeps-nested_prefixes id d k;
    local_name_keeps = Keeps-decode_local_name id d k;
    unqualified_name_keeps = Keeps-decode_unqualified_name id d k;
    unscoped_name_keeps = Keeps-decode_unscoped_name id d k;
    name_keeps = Keeps-decode_name id d k;
    special_name_keeps = Keeps-decode_special_name id d k;
    encoding_keeps = Keeps-decode_encoding id d k;
  }

-- A decoder that returns, whether it failed or not, has kept the text of its session and the place of
-- function_name_, is as deep in types as before, and has changed the number of no substitution and
-- of no template argument: these are only added behind the others.
pub Keeping-decoders : (id : ImplementationDetails) (fuel : ℕ) → Keeping (decoders id fuel)
unfolding decoders
Keeping-decoders id zero = Keeping-exhausted id
Keeping-decoders id (suc fuel) = Keeping-over id (decoders id fuel) (Keeping-decoders id fuel)
