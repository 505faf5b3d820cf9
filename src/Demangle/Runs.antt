-- ===== src/Demangle/Runs.antt =====
-- Symbols of tests/demangler.cpp through the model of the demangler.
use libcwd.Base.{◌≡◌, refl, some, none, false, [], codes}
use libcwd.Demangle.Machine.{undefined_access}
use libcwd.Demangle.{
  char_at, current, next_peek, next, eat_current, is_digit, is_lower, is_upper, to_lower,
}
use libcwd.Demangle.Leaf.{
  digits_loop, decode_non_negative_decimal_integer, decode_number, decode_builtin_type, length_loop,
  copy_loop, read_at, has_prefix, same_around, is_anonymous, skip_name, name_of_length,
  after_length, decode_source_name, decode_call_offset,
}
use libcwd.Demangle.Operators.{offset_of, hash_of, has_opcode, accepts, find_operator, first_entry}
use libcwd.Demangle.Machine.{
  ◌>>=◌, return, branch, stop, overrun, frame, set_pos, set_result, set_depth, set_flags, read_char,
  read_current, read_next_peek, read_next, eat, get_string, set_string, emit, fresh, leaf,
  add_substitution, add_template_arg,
}
use libcwd.Demangle.Qualifiers.{
  new_list, get_list, set_list, set_suppressed, suppress, add_qualifier_start, put_arrays, put_if,
  decode_KVrA, add_qualified, qualifiers_loop, decode_qualifiers,
}
use libcwd.Demangle.Grammar.{decode_type}
use libcwd.Demangle.Grammar.Leaves.{
  seq_id_loop, parameter_loop, read_word, more_words, read_words, copy_hex, put_real, after_words,
  decode_real,
}
use libcwd.Demangle.Grammar.References.{
  standard_name, prefixes_loop, expand, resolve, numbered, decode_substitution, decode_argument,
  at_argument, parameter_value, decode_template_param,
}
use libcwd.Demangle.Grammar.Literals.{
  move_on, nested_encoding, literal_type, literal_value, literal_suffix, typed_literal,
  decode_literal,
}
use libcwd.Demangle.Grammar.Expressions.{
  cast_operator, operator_entry, decode_operator_name, third_operand, second_operand, operation,
  is_typedef, typename, size_of, dependent_name, decode_expression, template_arg,
  more_template_args, end_template_args, decode_template_args,
}
use libcwd.Demangle.Grammar.Types.{
  decode_class_enum_type, more_parameters, no_parameters, decode_bare_function_type, cv_run,
  add_cv_qualifier, vendor_extension, array_number, array_expression, array_type, member_qualifiers,
  member_function, pointer_to_member, eat_qualifiers, function_type,
}
use libcwd.Demangle.Grammar.Whole.{
  list_of, is_suppressed, finish_type, param_type, substituted_type, named_type, complex_type,
  rest_of_type, after_qualifiers, type_within, decode_type_with_postfix,
}
use libcwd.Demangle.Grammar.Unqualified.{
  source_name, operator_function, ctor_dtor, decode_unqualified_name, decode_unscoped_name,
  nested_part, nested_prefixes, decode_nested_name, is_substitution, end_name, decode_name,
}
use libcwd.Demangle.Grammar.Encodings.{
  in_session, entity_name, discriminator, decode_local_name, skip_digits, construction_vtable,
  thunk_target, typed_name, guard_variable, decode_special_name, return_type, function_encoding,
  named_encoding, decode_encoding,
}
use libcwd.Demangle.Grammar.Knot.{
  over, decoders, after_encoding, global_symbol, symbol, after_type, type,
}
use libcwd.Demangle.Library.{demangle_symbol, demangle_type}
use libcwd.Demangle.Grammar.Knot.{name_of}
use libcwd.Demangle.Grammar.{ImplementationDetails}

-- The options with the decode_real of cwd_demangle.h.
abbrev pub plain : ImplementationDetails
plain = record {
  style_void = false;
  style_literal = false;
  style_literal_int = false;
  style_compact_expr_ops = false;
  style_sizeof_typename = false;
  override_real = λ _ _. none;
}

pub symbols :
    (name_of (symbol plain 50 (codes "_Z1fi")) ≡ some (codes "f(int)"))
    × (name_of (symbol plain 50 (codes "_ZN3foo3barIiEEvPKcS2_"))
        ≡ some (codes "void foo::bar<int>(char const*, char const*)"))
    × (name_of (symbol plain 50 (codes "_Z3fooIA6_KiEvA9_KT_rVPrS4_"))
        ≡ some (
            codes
              "void foo<int const [6]>(int const [9][6], int const restrict (* volatile restrict) [9][6])"))
    × (name_of (symbol plain 50 (codes "_ZngILi42EEvN1AIXplT_Li2EEE1TE"))
        ≡ some (codes "void operator-<42>(A<(42) + (2)>::T)"))
    × (name_of (symbol plain 50 (codes "_Z9hairyfuncM1YKFPVPFrPA2_PM1XKFKPA3_ilEPcEiE"))
        ≡ some (
            codes
              "hairyfunc(int (* const (X::** (* restrict (* volatile* (Y::*)(int) const)(char*)) [2])(long) const) [3])"))
    × (name_of (symbol plain 50 (codes "_Z1xINiEE")) ≡ some (codes "_Z1xINiEE"))
    × (name_of (symbol plain 50 (codes "_GLOBAL__I__Z2fnv"))
        ≡ some (codes "global constructors keyed to _Z2fnv"))
    × (name_of (symbol plain 50 (codes "_ZTch0_h16_N1C1fEv")) ≡ some (codes "_ZTch0_h16_N1C1fEv"))
    × (name_of (demangle_symbol 50 (some (codes "_Z1fi")) (codes "in ")) ≡ some (codes "in f(int)"))
    × (name_of (demangle_symbol 50 (some (codes "_Z")) (codes "in ")) ≡ some (codes "_Z"))
    × (name_of (demangle_type 50 (some (codes "PFvPA3_iE")) [])
        ≡ some (codes "void (*)(int (*) [3])"))
    × (symbol plain 50 (codes "_Z1fILb") ≡ undefined_access)
    × (symbol plain 50 (codes "_ZcvT_") ≡ undefined_access)
unfolding demangle_symbol demangle_type char_at current next_peek next eat_current is_digit is_lower
    is_upper to_lower digits_loop decode_non_negative_decimal_integer decode_number
    decode_builtin_type length_loop copy_loop read_at has_prefix same_around is_anonymous skip_name
    name_of_length after_length decode_source_name decode_call_offset offset_of hash_of has_opcode
    accepts find_operator first_entry ◌>>=◌ return branch stop overrun frame set_pos set_result
    set_depth set_flags read_char read_current read_next_peek read_next eat get_string set_string
    emit fresh leaf add_substitution add_template_arg new_list get_list set_list set_suppressed
    suppress add_qualifier_start put_arrays put_if decode_KVrA add_qualified qualifiers_loop
    decode_qualifiers decode_type seq_id_loop parameter_loop read_word more_words read_words
    copy_hex put_real after_words decode_real standard_name prefixes_loop expand resolve numbered
    decode_substitution decode_argument at_argument parameter_value decode_template_param move_on
    nested_encoding literal_type literal_value literal_suffix typed_literal decode_literal
    cast_operator operator_entry decode_operator_name third_operand second_operand operation
    is_typedef typename size_of dependent_name decode_expression template_arg more_template_args
    end_template_args decode_template_args decode_class_enum_type more_parameters no_parameters
    decode_bare_function_type cv_run add_cv_qualifier vendor_extension array_number array_expression
    array_type member_qualifiers member_function pointer_to_member eat_qualifiers function_type
    list_of is_suppressed finish_type param_type substituted_type named_type complex_type
    rest_of_type after_qualifiers type_within decode_type_with_postfix source_name operator_function
    ctor_dtor decode_unqualified_name decode_unscoped_name nested_part nested_prefixes
    decode_nested_name is_substitution end_name decode_name in_session entity_name discriminator
    decode_local_name skip_digits construction_vtable thunk_target typed_name guard_variable
    decode_special_name return_type function_encoding named_encoding decode_encoding over decoders
    after_encoding global_symbol symbol after_type type
symbols = (refl, refl, refl, refl, refl, refl, refl, refl, refl, refl, refl, refl, refl)
