-- ===== src/Demangle/Kept/Expressing.antt =====
-- What decode_operator_name, decode_expression and decode_template_args keep.
use libcwd.Base.{ℕ, Bool, Option, none, some}
use libcwd.Demangle.{Bytes}
use libcwd.Demangle.Machine.{Machine}
use libcwd.Demangle.Operators.{Entry}
use libcwd.Demangle.Kept.{Keeps}
use libcwd.Demangle.Kept.Rules.{keeps, Keeping, Keeps-set_depth}
use libcwd.Demangle.Grammar.{ImplementationDetails, Decoders}
use libcwd.Demangle.Grammar.Expressions.{
  cast_operator, decode_expression, decode_operator_name, decode_template_args, dependent_name,
  end_template_args, is_typedef, more_template_args, operation, operator_entry, second_operand,
  size_of, template_arg, third_operand, typename,
}
use libcwd.Demangle.Kept.Decoding.{Keeps-decode_type}

module _ (id : ImplementationDetails) (d : Decoders) (k : Keeping d) where
  pub Keeps-cast_operator : (output : ℕ) (w : Machine) → Keeps w (cast_operator id d output w)
  unfolding cast_operator
  Keeps-cast_operator output w = search (keeps, (Keeps-decode_type id d k)) depth 60 fits 4000

  pub Keeps-operator_entry :
      (output : ℕ) (opcode0 : ℕ) (second : ℕ) (o : Option Entry) (w : Machine)
      → Keeps w (operator_entry id d output opcode0 second o w)
  unfolding operator_entry
  Keeps-operator_entry output opcode0 second none w =
      search (keeps, Keeps-cast_operator) depth 60 fits 4000
  Keeps-operator_entry output opcode0 second (some e) w = search (keeps) depth 60 fits 4000

  pub Keeps-decode_operator_name :
      (output : ℕ) (w : Machine) → Keeps w (decode_operator_name id d output w)
  unfolding decode_operator_name
  Keeps-decode_operator_name output w = search (keeps, Keeps-operator_entry) depth 60 fits 4000

  pub Keeps-third_operand :
      (output : ℕ) (b : Bool) (w : Machine) → Keeps w (third_operand id d output b w)
  unfolding third_operand
  Keeps-third_operand output b w = search (keeps, k.expression_keeps) depth 60 fits 4000

  pub Keeps-second_operand :
      (output : ℕ) (op : Bytes) (is_eq : Bool) (is_greater : Bool) (has_third : Bool) (w : Machine)
      → Keeps w (second_operand id d output op is_eq is_greater has_third w)
  unfolding second_operand
  Keeps-second_operand output op is_eq is_greater has_third w =
      search (keeps, k.expression_keeps, Keeps-third_operand) depth 60 fits 4000

  pub Keeps-operation :
      (output : ℕ) (opcode0 : ℕ) (second : ℕ) (o : Option Entry) (w : Machine)
      → Keeps w (operation id d output opcode0 second o w)
  unfolding operation
  Keeps-operation output opcode0 second none w =
      search (keeps, k.expression_keeps, (Keeps-decode_type id d k)) depth 60 fits 4000
  Keeps-operation output opcode0 second (some e) w =
      search (keeps, k.expression_keeps, Keeps-second_operand) depth 60 fits 4000

  pub Keeps-is_typedef : (w : Machine) → Keeps w (is_typedef id d w)
  unfolding is_typedef
  Keeps-is_typedef w = search (keeps) depth 60 fits 4000

  pub Keeps-typename : (output : ℕ) (w : Machine) → Keeps w (typename id d output w)
  unfolding typename
  Keeps-typename output w = search (keeps, Keeps-is_typedef) depth 60 fits 4000

  pub Keeps-size_of :
      (output : ℕ) (opcode1 : ℕ) (w : Machine) → Keeps w (size_of id d output opcode1 w)
  unfolding size_of
  Keeps-size_of output opcode1 w =
      search (keeps, k.expression_keeps, (Keeps-decode_type id d k), Keeps-typename) depth 60 fits
        4000

  pub Keeps-dependent_name : (output : ℕ) (w : Machine) → Keeps w (dependent_name id d output w)
  unfolding dependent_name
  Keeps-dependent_name output w =
      search (keeps, k.template_args_keeps, k.unqualified_name_keeps, (Keeps-decode_type id d k))
        depth 60 fits 4000

  pub Keeps-decode_expression :
      (output : ℕ) (w : Machine) → Keeps w (decode_expression id d output w)
  unfolding decode_expression
  Keeps-decode_expression output w =
      search
        (
          keeps, k.template_param_keeps, k.literal_keeps, Keeps-operation, Keeps-size_of,
          Keeps-dependent_name,
        )
        depth 60 fits 4000

  pub Keeps-template_arg : (output : ℕ) (w : Machine) → Keeps w (template_arg id d output w)
  unfolding template_arg
  Keeps-template_arg output w =
      search (keeps, k.expression_keeps, k.literal_keeps, (Keeps-decode_type id d k)) depth 60 fits
        4000

  pub Keeps-more_template_args :
      (output : ℕ) (w : Machine) → Keeps w (more_template_args id d output w)
  unfolding more_template_args
  Keeps-more_template_args output w =
      search (keeps, k.more_template_args_keeps, Keeps-template_arg) depth 60 fits 4000

  pub Keeps-end_template_args :
      (output : ℕ) (prev_size : ℕ) (w : Machine)
      → Keeps w (end_template_args id d output prev_size w)
  unfolding end_template_args
  Keeps-end_template_args output prev_size w = search (keeps, Keeps-set_depth) depth 60 fits 4000

  pub Keeps-decode_template_args :
      (output : ℕ) (w : Machine) → Keeps w (decode_template_args id d output w)
  unfolding decode_template_args
  Keeps-decode_template_args output w =
      search (keeps, k.more_template_args_keeps, Keeps-set_depth, Keeps-end_template_args) depth 60
        fits 4000
