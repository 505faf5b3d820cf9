-- ===== src/Demangle/Kept/Typing.antt =====
-- What decode_type_with_postfix and decode_bare_function_type keep.
use libcwd.Base.{ℕ, Bool, Option, none, some}
use libcwd.Demangle.Machine.{Machine}
use libcwd.Demangle.Kept.{Keeps}
use libcwd.Demangle.Kept.Rules.{keeps, Keeping, Keeps-within_type}
use libcwd.Demangle.Grammar.{
  ImplementationDetails, Decoders, Eaten, failed, whole_type, rest_follows,
}
use libcwd.Demangle.Grammar.Types.{
  add_cv_qualifier, array_expression, array_number, array_type, cv_run, decode_bare_function_type,
  decode_class_enum_type, eat_qualifiers, function_type, member_function, member_qualifiers,
  more_parameters, no_parameters, pointer_to_member, vendor_extension,
}
use libcwd.Demangle.Grammar.Whole.{
  after_qualifiers, complex_type, decode_type_with_postfix, finish_type, is_suppressed, list_of,
  named_type, param_type, rest_of_type, substituted_type, type_within,
}
use libcwd.Demangle.Kept.Decoding.{Keeps-decode_type}
use libcwd.Demangle.Kept.Listing.{
  Keeps-add_qualifier_start, Keeps-decode_qualifiers, Keeps-suppress,
}

pub Keeps-list_of : (o : Option ℕ) (w : Machine) → Keeps w (list_of o w)
unfolding list_of
Keeps-list_of none w = search (keeps) depth 60 fits 4000
Keeps-list_of (some l) w = search (keeps) depth 60 fits 4000

module _ (id : ImplementationDetails) (d : Decoders) (k : Keeping d) where
  pub Keeps-decode_class_enum_type :
      (output : ℕ) (w : Machine) → Keeps w (decode_class_enum_type id d output w)
  unfolding decode_class_enum_type
  Keeps-decode_class_enum_type output w = search (keeps, k.name_keeps) depth 60 fits 4000

  pub Keeps-more_parameters : (output : ℕ) (w : Machine) → Keeps w (more_parameters id d output w)
  unfolding more_parameters
  Keeps-more_parameters output w =
      search (keeps, k.more_parameters_keeps, (Keeps-decode_type id d k)) depth 60 fits 4000

  pub Keeps-no_parameters : (output : ℕ) (w : Machine) → Keeps w (no_parameters id d output w)
  unfolding no_parameters
  Keeps-no_parameters output w = search (keeps) depth 60 fits 4000

  pub Keeps-decode_bare_function_type :
      (output : ℕ) (w : Machine) → Keeps w (decode_bare_function_type id d output w)
  unfolding decode_bare_function_type
  Keeps-decode_bare_function_type output w =
      search (keeps, k.more_parameters_keeps, (Keeps-decode_type id d k), Keeps-no_parameters) depth
        60 fits 4000

  pub Keeps-cv_run : (c : ℕ) (count : ℕ) (w : Machine) → Keeps w (cv_run id d c count w)
  unfolding cv_run
  Keeps-cv_run c count w = search (keeps, k.cv_run_keeps) depth 60 fits 4000

  pub Keeps-add_cv_qualifier :
      (l : ℕ) (start : ℕ) (count : ℕ) (w : Machine)
      → Keeps w (add_cv_qualifier id d l start count w)
  unfolding add_cv_qualifier
  Keeps-add_cv_qualifier l start count w =
      search (keeps, Keeps-add_qualifier_start) depth 60 fits 4000

  pub Keeps-vendor_extension :
      (prefix : ℕ) (postfix : ℕ) (l : ℕ) (start : ℕ) (w : Machine)
      → Keeps w (vendor_extension id d prefix postfix l start w)
  unfolding vendor_extension
  Keeps-vendor_extension prefix postfix l start w =
      search (keeps, k.eat_qualifiers_keeps, Keeps-add_qualifier_start) depth 60 fits 4000

  pub Keeps-array_number : (index : ℕ) (w : Machine) → Keeps w (array_number id d index w)
  unfolding array_number
  Keeps-array_number index w = search (keeps) depth 60 fits 4000

  pub Keeps-array_expression :
      (index : ℕ) (saved_pos : ℕ) (w : Machine) → Keeps w (array_expression id d index saved_pos w)
  unfolding array_expression
  Keeps-array_expression index saved_pos w = search (keeps, k.expression_keeps) depth 60 fits 4000

  pub Keeps-array_type :
      (prefix : ℕ) (postfix : ℕ) (l : ℕ) (start : ℕ) (w : Machine)
      → Keeps w (array_type id d prefix postfix l start w)
  unfolding array_type
  Keeps-array_type prefix postfix l start w =
      search
        (
          keeps, k.eat_qualifiers_keeps, Keeps-add_qualifier_start, Keeps-array_number,
          Keeps-array_expression,
        )
        depth 60 fits 4000

  pub Keeps-member_qualifiers :
      (start : ℕ) (count : ℕ) (w : Machine) → Keeps w (member_qualifiers id d start count w)
  unfolding member_qualifiers
  Keeps-member_qualifiers start count w =
      search (keeps, Keeps-decode_qualifiers, Keeps-add_cv_qualifier) depth 60 fits 4000

  pub Keeps-member_function :
      (prefix : ℕ) (postfix : ℕ) (l : ℕ) (start : ℕ) (class_type : ℕ) (c : ℕ) (w : Machine)
      → Keeps w (member_function id d prefix postfix l start class_type c w)
  unfolding member_function
  Keeps-member_function prefix postfix l start class_type c w =
      search
        (
          keeps, k.type_with_postfix_keeps, k.cv_run_keeps, k.bare_function_type_keeps,
          Keeps-decode_qualifiers, Keeps-member_qualifiers,
        )
        depth 60 fits 4000

  pub Keeps-pointer_to_member :
      (prefix : ℕ) (postfix : ℕ) (l : ℕ) (start : ℕ) (w : Machine)
      → Keeps w (pointer_to_member id d prefix postfix l start w)
  unfolding pointer_to_member
  Keeps-pointer_to_member prefix postfix l start w =
      search
        (
          keeps,
          k.eat_qualifiers_keeps,
          Keeps-add_qualifier_start,
          (Keeps-decode_type id d k),
          Keeps-member_function,
        )
        depth 60 fits 4000

  pub Keeps-eat_qualifiers :
      (prefix : ℕ) (postfix : ℕ) (l : ℕ) (w : Machine)
      → Keeps w (eat_qualifiers id d prefix postfix l w)
  unfolding eat_qualifiers
  Keeps-eat_qualifiers prefix postfix l w =
      search
        (
          keeps, k.eat_qualifiers_keeps, k.cv_run_keeps, Keeps-add_qualifier_start,
          Keeps-add_cv_qualifier, Keeps-vendor_extension, Keeps-array_type, Keeps-pointer_to_member,
        )
        depth 60 fits 4000

  pub Keeps-function_type :
      (prefix : ℕ) (postfix : ℕ) (l : ℕ) (start : ℕ) (w : Machine)
      → Keeps w (function_type id d prefix postfix l start w)
  unfolding function_type
  Keeps-function_type prefix postfix l start w =
      search (keeps, k.type_with_postfix_keeps, k.bare_function_type_keeps, Keeps-decode_qualifiers)
        depth 60 fits 4000

  pub Keeps-is_suppressed :
      (recursive : Bool) (l : ℕ) (w : Machine) → Keeps w (is_suppressed id d recursive l w)
  unfolding is_suppressed
  Keeps-is_suppressed recursive l w = search (keeps) depth 60 fits 4000

  pub Keeps-finish_type :
      (recursive : Bool) (prefix : ℕ) (postfix : ℕ) (l : ℕ) (w : Machine)
      → Keeps w (finish_type id d recursive prefix postfix l w)
  unfolding finish_type
  Keeps-finish_type recursive prefix postfix l w =
      search (keeps, Keeps-suppress, Keeps-decode_qualifiers) depth 60 fits 4000

  pub Keeps-param_type :
      (recursive : Bool) (prefix : ℕ) (postfix : ℕ) (l : ℕ) (start : ℕ) (w : Machine)
      → Keeps w (param_type id d recursive prefix postfix l start w)
  unfolding param_type
  Keeps-param_type recursive prefix postfix l start w =
      search
        (
          keeps, k.template_args_keeps, k.template_param_keeps, Keeps-decode_qualifiers,
          Keeps-is_suppressed,
        )
        depth 60 fits 4000

  pub Keeps-substituted_type :
      (recursive : Bool) (prefix : ℕ) (postfix : ℕ) (l : ℕ) (start : ℕ) (w : Machine)
      → Keeps w (substituted_type id d recursive prefix postfix l start w)
  unfolding substituted_type
  Keeps-substituted_type recursive prefix postfix l start w =
      search
        (
          keeps, k.template_args_keeps, k.substitution_keeps, Keeps-decode_qualifiers,
          Keeps-is_suppressed,
        )
        depth 60 fits 4000

  pub Keeps-named_type :
      (recursive : Bool) (prefix : ℕ) (postfix : ℕ) (l : ℕ) (start : ℕ) (w : Machine)
      → Keeps w (named_type id d recursive prefix postfix l start w)
  unfolding named_type
  Keeps-named_type recursive prefix postfix l start w =
      search (keeps, k.class_enum_type_keeps, Keeps-finish_type) depth 60 fits 4000

  pub Keeps-complex_type :
      (prefix : ℕ) (l : ℕ) (c : ℕ) (w : Machine) → Keeps w (complex_type id d prefix l c w)
  unfolding complex_type
  Keeps-complex_type prefix l c w = search (keeps, Keeps-add_qualifier_start) depth 60 fits 4000

  pub Keeps-rest_of_type :
      (recursive : Bool) (prefix : ℕ) (postfix : ℕ) (l : ℕ) (w : Machine)
      → Keeps w (rest_of_type id d recursive prefix postfix l w)
  unfolding rest_of_type
  Keeps-rest_of_type recursive prefix postfix l w =
      search
        (
          keeps, Keeps-function_type, Keeps-finish_type, Keeps-param_type, Keeps-substituted_type,
          Keeps-named_type, Keeps-complex_type,
        )
        depth 60 fits 4000

  pub Keeps-after_qualifiers :
      (recursive : Bool) (prefix : ℕ) (postfix : ℕ) (l : ℕ) (o : Eaten) (w : Machine)
      → Keeps w (after_qualifiers id d recursive prefix postfix l o w)
  unfolding after_qualifiers
  Keeps-after_qualifiers recursive prefix postfix l failed w = search (keeps) depth 60 fits 4000
  Keeps-after_qualifiers recursive prefix postfix l whole_type w = search (keeps) depth 60 fits 4000
  Keeps-after_qualifiers recursive prefix postfix l rest_follows w =
      search (keeps, Keeps-rest_of_type) depth 60 fits 4000

  pub Keeps-type_within :
      (prefix : ℕ) (postfix : ℕ) (qualifiers : Option ℕ) (w : Machine)
      → Keeps w (type_within id d prefix postfix qualifiers w)
  unfolding type_within
  Keeps-type_within prefix postfix qualifiers w =
      search (keeps, k.eat_qualifiers_keeps, Keeps-list_of, Keeps-after_qualifiers) depth 60 fits
        4000

  pub Keeps-decode_type_with_postfix :
      (prefix : ℕ) (postfix : ℕ) (qualifiers : Option ℕ) (w : Machine)
      → Keeps w (decode_type_with_postfix id d prefix postfix qualifiers w)
  unfolding decode_type_with_postfix
  Keeps-decode_type_with_postfix prefix postfix qualifiers w =
      Keeps-within_type (type_within id d prefix postfix qualifiers) _ w
        (Keeps-type_within prefix postfix qualifiers) (λ a v. search (keeps) depth 60 fits 4000)
