-- ===== src/Demangle/Kept/Decoding.antt =====
-- What decode_substitution, decode_template_param and decode_literal keep.
use libcwd.Base.{ℕ, suc, zero, Option, none, some}
use Prim.Native.String.{String}
use libcwd.Demangle.Machine.{
  Machine, SubstitutionNt, Substitution, type, template_template_param, unscoped_template_name,
}
use libcwd.Demangle.Kept.{Keeps}
use libcwd.Demangle.Kept.Rules.{keeps, Keeping, Keeps-set_depth}
use libcwd.Demangle.Grammar.{ImplementationDetails, Decoders}
use libcwd.Demangle.Grammar.{decode_type}
use libcwd.Demangle.Grammar.Literals.{
  decode_literal, literal_suffix, literal_type, literal_value, move_on, nested_encoding,
  typed_literal,
}
use libcwd.Demangle.Grammar.References.{
  at_argument, decode_argument, decode_substitution, decode_template_param, expand, numbered,
  parameter_value, prefixes_loop, resolve, standard_name,
}
use libcwd.Demangle.Kept.Listing.{Keeps-suppress}
use libcwd.Demangle.Kept.Reading.{Keeps-decode_real, Keeps-parameter_loop, Keeps-seq_id_loop}

pub Keeps-standard_name :
    (output : ℕ) (qualifiers : Option ℕ) (full : String) (short : String) (w : Machine)
    → Keeps w (standard_name output qualifiers full short w)
unfolding standard_name
Keeps-standard_name output qualifiers full short w =
    search (keeps, Keeps-suppress) depth 60 fits 4000

pub Keeps-move_on : (start : ℕ) (o : Option ℕ) (w : Machine) → Keeps w (move_on start o w)
unfolding move_on
Keeps-move_on start none w = search (keeps) depth 60 fits 4000
Keeps-move_on start (some n) w = search (keeps) depth 60 fits 4000

module _ (id : ImplementationDetails) (d : Decoders) (k : Keeping d) where
  pub Keeps-decode_type :
      (output : ℕ) (qualifiers : Option ℕ) (w : Machine)
      → Keeps w (decode_type d output qualifiers w)
  unfolding decode_type
  Keeps-decode_type output qualifiers w =
      search (keeps, k.type_with_postfix_keeps) depth 60 fits 4000

  pub Keeps-prefixes_loop :
      (output : ℕ) (number : ℕ) (o : ℕ) (w : Machine) → Keeps w (prefixes_loop d output number o w)
  unfolding prefixes_loop
  Keeps-prefixes_loop output number zero w = search (keeps) depth 60 fits 4000
  Keeps-prefixes_loop output number (suc cnt) w =
      search
        (
          keeps,
          k.template_args_keeps,
          k.substitution_keeps,
          k.unqualified_name_keeps,
          (Keeps-prefixes_loop output number cnt),
        )
        depth 60 fits 4000

  pub Keeps-expand :
      (output : ℕ) (qualifiers : Option ℕ) (number : ℕ) (o : SubstitutionNt) (w : Machine)
      → Keeps w (expand d output qualifiers number o w)
  unfolding expand
  Keeps-expand output qualifiers number type w =
      search (keeps, Keeps-decode_type) depth 60 fits 4000
  Keeps-expand output qualifiers number template_template_param w =
      search (keeps, k.template_param_keeps) depth 60 fits 4000
  Keeps-expand output qualifiers number unscoped_template_name w =
      search (keeps, k.unscoped_name_keeps, Keeps-suppress) depth 60 fits 4000
  Keeps-expand output qualifiers number _ w =
      search (keeps, Keeps-suppress, Keeps-prefixes_loop) depth 60 fits 4000

  pub Keeps-resolve :
      (output : ℕ) (qualifiers : Option ℕ) (o : Option Substitution) (w : Machine)
      → Keeps w (resolve d output qualifiers o w)
  unfolding resolve
  Keeps-resolve output qualifiers none w = search (keeps) depth 60 fits 4000
  Keeps-resolve output qualifiers (some sub) w =
      search (keeps, Keeps-set_depth, Keeps-expand) depth 60 fits 4000

  pub Keeps-numbered :
      (output : ℕ) (qualifiers : Option ℕ) (o : Option ℕ) (w : Machine)
      → Keeps w (numbered d output qualifiers o w)
  unfolding numbered
  Keeps-numbered output qualifiers none w = search (keeps) depth 60 fits 4000
  Keeps-numbered output qualifiers (some value) w = search (keeps, Keeps-resolve) depth 60 fits 4000

  pub Keeps-decode_substitution :
      (output : ℕ) (qualifiers : Option ℕ) (w : Machine)
      → Keeps w (decode_substitution d output qualifiers w)
  unfolding decode_substitution
  Keeps-decode_substitution output qualifiers w =
      search (keeps, Keeps-suppress, Keeps-seq_id_loop, Keeps-standard_name, Keeps-numbered) depth
        60 fits 4000

  pub Keeps-decode_argument :
      (output : ℕ) (qualifiers : Option ℕ) (w : Machine)
      → Keeps w (decode_argument d output qualifiers w)
  unfolding decode_argument
  Keeps-decode_argument output qualifiers w =
      search (keeps, k.expression_keeps, k.literal_keeps, Keeps-decode_type) depth 60 fits 4000

  pub Keeps-at_argument :
      (output : ℕ) (qualifiers : Option ℕ) (o : Option ℕ) (w : Machine)
      → Keeps w (at_argument d output qualifiers o w)
  unfolding at_argument
  Keeps-at_argument output qualifiers none w = search (keeps) depth 60 fits 4000
  Keeps-at_argument output qualifiers (some p) w =
      search (keeps, Keeps-set_depth, Keeps-decode_argument) depth 60 fits 4000

  pub Keeps-parameter_value : (w : Machine) → Keeps w (parameter_value d w)
  unfolding parameter_value
  Keeps-parameter_value w = search (keeps, Keeps-parameter_loop) depth 60 fits 4000

  pub Keeps-decode_template_param :
      (output : ℕ) (qualifiers : Option ℕ) (w : Machine)
      → Keeps w (decode_template_param d output qualifiers w)
  unfolding decode_template_param
  Keeps-decode_template_param output qualifiers w =
      search (keeps, Keeps-at_argument, Keeps-parameter_value) depth 60 fits 4000

  pub Keeps-nested_encoding :
      (skipped : ℕ) (output : ℕ) (w : Machine) → Keeps w (nested_encoding id d skipped output w)
  unfolding nested_encoding
  Keeps-nested_encoding skipped output w =
      search (keeps, k.encoding_keeps, Keeps-move_on) depth 60 fits 4000

  pub Keeps-literal_type :
      (output : ℕ) (c : ℕ) (w : Machine) → Keeps w (literal_type id d output c w)
  unfolding literal_type
  Keeps-literal_type output c w = search (keeps, Keeps-decode_type) depth 60 fits 4000

  pub Keeps-literal_value :
      (output : ℕ) (c : ℕ) (w : Machine) → Keeps w (literal_value id d output c w)
  unfolding literal_value
  Keeps-literal_value output c w = search (keeps, Keeps-decode_real) depth 60 fits 4000

  pub Keeps-literal_suffix :
      (output : ℕ) (c : ℕ) (w : Machine) → Keeps w (literal_suffix id d output c w)
  unfolding literal_suffix
  Keeps-literal_suffix output c w = search (keeps) depth 60 fits 4000

  pub Keeps-typed_literal :
      (output : ℕ) (c : ℕ) (w : Machine) → Keeps w (typed_literal id d output c w)
  unfolding typed_literal
  Keeps-typed_literal output c w =
      search (keeps, Keeps-literal_type, Keeps-literal_value, Keeps-literal_suffix) depth 60 fits
        4000

  pub Keeps-decode_literal : (output : ℕ) (w : Machine) → Keeps w (decode_literal id d output w)
  unfolding decode_literal
  Keeps-decode_literal output w =
      search (keeps, Keeps-nested_encoding, Keeps-typed_literal) depth 60 fits 4000
