-- ===== src/Demangle/Kept/Naming.antt =====
-- What the decoders of names keep.
use libcwd.Base.{ℕ, Bool}
use libcwd.Demangle.Machine.{Machine}
use libcwd.Demangle.Kept.{Keeps}
use libcwd.Demangle.Kept.Rules.{keeps, Keeping}
use libcwd.Demangle.Grammar.{ImplementationDetails, Decoders}
use libcwd.Demangle.Grammar.Unqualified.{
  ctor_dtor, decode_name, decode_nested_name, decode_unqualified_name, decode_unscoped_name,
  end_name, is_substitution, nested_part, nested_prefixes, operator_function, source_name,
}

module _ (id : ImplementationDetails) (d : Decoders) (k : Keeping d) where
  pub Keeps-source_name : (output : ℕ) (w : Machine) → Keeps w (source_name d output w)
  unfolding source_name
  Keeps-source_name output w = search (keeps) depth 60 fits 4000

  pub Keeps-operator_function : (output : ℕ) (w : Machine) → Keeps w (operator_function d output w)
  unfolding operator_function
  Keeps-operator_function output w = search (keeps, k.operator_name_keeps) depth 60 fits 4000

  pub Keeps-ctor_dtor :
      (output : ℕ) (tilde : Bool) (first : ℕ) (w : Machine)
      → Keeps w (ctor_dtor d output tilde first w)
  unfolding ctor_dtor
  Keeps-ctor_dtor output tilde first w = search (keeps) depth 60 fits 4000

  pub Keeps-decode_unqualified_name :
      (output : ℕ) (w : Machine) → Keeps w (decode_unqualified_name d output w)
  unfolding decode_unqualified_name
  Keeps-decode_unqualified_name output w =
      search (keeps, Keeps-source_name, Keeps-operator_function, Keeps-ctor_dtor) depth 60 fits 4000

  pub Keeps-decode_unscoped_name :
      (output : ℕ) (w : Machine) → Keeps w (decode_unscoped_name d output w)
  unfolding decode_unscoped_name
  Keeps-decode_unscoped_name output w = search (keeps, k.unqualified_name_keeps) depth 60 fits 4000

  pub Keeps-nested_part :
      (output : ℕ) (start : ℕ) (number : ℕ) (w : Machine)
      → Keeps w (nested_part d output start number w)
  unfolding nested_part
  Keeps-nested_part output start number w =
      search
        (
          keeps, k.template_args_keeps, k.substitution_keeps, k.template_param_keeps,
          k.unqualified_name_keeps,
        )
        depth 60 fits 4000

  pub Keeps-nested_prefixes :
      (output : ℕ) (start : ℕ) (number : ℕ) (w : Machine)
      → Keeps w (nested_prefixes d output start number w)
  unfolding nested_prefixes
  Keeps-nested_prefixes output start number w =
      search (keeps, k.nested_prefixes_keeps, Keeps-nested_part) depth 60 fits 4000

  pub Keeps-decode_nested_name :
      (output : ℕ) (qualifiers : ℕ) (w : Machine)
      → Keeps w (decode_nested_name d output qualifiers w)
  unfolding decode_nested_name
  Keeps-decode_nested_name output qualifiers w =
      search (keeps, k.cv_run_keeps, k.nested_prefixes_keeps) depth 60 fits 4000

  pub Keeps-is_substitution : (c : ℕ) (w : Machine) → Keeps w (is_substitution d c w)
  unfolding is_substitution
  Keeps-is_substitution c w = search (keeps) depth 60 fits 4000

  pub Keeps-end_name : (output : ℕ) (start : ℕ) (w : Machine) → Keeps w (end_name d output start w)
  unfolding end_name
  Keeps-end_name output start w = search (keeps, k.template_args_keeps) depth 60 fits 4000

  pub Keeps-decode_name :
      (output : ℕ) (qualifiers : ℕ) (w : Machine) → Keeps w (decode_name d output qualifiers w)
  unfolding decode_name
  Keeps-decode_name output qualifiers w =
      search
        (
          keeps, k.substitution_keeps, k.nested_name_keeps, k.local_name_keeps,
          k.unscoped_name_keeps, Keeps-is_substitution, Keeps-end_name,
        )
        depth 60 fits 4000
