-- ===== src/Demangle/Grammar/Knot.antt =====
-- The decoders, each call of which costs a unit of fuel, and demangle::symbol and demangle::type over
-- them. Not every input comes to an end (Demangle.Endless), so that the fuel is the caller's.
use libcwd.Base.{
  ℕ, suc, zero, ◌+◌, ◌-◌, ◌^◌, Bool, false, not, ◌&&◌, ◌||◌, Option, none, some, [], ◌∷◌, ◌++◌, leb,
  ◌==◌, if◌then◌else◌, length, drop, codes,
}
use libcwd.Demangle.{Bytes, char_at}
use libcwd.Demangle.Leaf.{has_prefix}
use libcwd.Demangle.Machine.{
  read_current, Machine, Ending, ok, undefined_access, out_of_fuel, stop, run, string_at, ◌>>=◌,
  return, branch, ◌is◌,
}
use libcwd.Demangle.Grammar.{ImplementationDetails, Decoders, decode_type}
use libcwd.Demangle.Grammar.References.{decode_substitution, decode_template_param}
use libcwd.Demangle.Grammar.Literals.{decode_literal}
use libcwd.Demangle.Grammar.Expressions.{
  decode_operator_name, decode_expression, decode_template_args, more_template_args,
}
use libcwd.Demangle.Grammar.Types.{
  decode_class_enum_type, decode_bare_function_type, more_parameters, cv_run, eat_qualifiers,
}
use libcwd.Demangle.Grammar.Whole.{decode_type_with_postfix}
use libcwd.Demangle.Grammar.Unqualified.{
  decode_unqualified_name, decode_unscoped_name, decode_nested_name, nested_prefixes, decode_name,
}
use libcwd.Demangle.Grammar.Encodings.{
  new_frame, decode_local_name, decode_special_name, decode_encoding,
}

module _ (id : ImplementationDetails) where
  abbrev pub exhausted : Decoders
  exhausted = record {
    type_with_postfix = λ _ _ _. stop;
    eat_qualifiers = λ _ _ _. stop;
    cv_run = λ _ _. stop;
    bare_function_type = λ _. stop;
    more_parameters = λ _. stop;
    expression = λ _. stop;
    template_args = λ _. stop;
    more_template_args = λ _. stop;
    substitution = λ _ _. stop;
    template_param = λ _ _. stop;
    literal = λ _. stop;
    operator_name = λ _. stop;
    class_enum_type = λ _. stop;
    nested_name = λ _ _. stop;
    nested_prefixes = λ _ _ _. stop;
    local_name = λ _. stop;
    unqualified_name = λ _. stop;
    unscoped_name = λ _. stop;
    name = λ _ _. stop;
    special_name = λ _. stop;
    encoding = λ _ _ _. stop;
  }

  -- All decoders over `d`.
  unfoldable pub over : Decoders → Decoders
  over d = record {
    type_with_postfix = decode_type_with_postfix id d;
    eat_qualifiers = eat_qualifiers id d;
    cv_run = cv_run id d;
    bare_function_type = decode_bare_function_type id d;
    more_parameters = more_parameters id d;
    expression = decode_expression id d;
    template_args = decode_template_args id d;
    more_template_args = more_template_args id d;
    substitution = decode_substitution d;
    template_param = decode_template_param d;
    literal = decode_literal id d;
    operator_name = decode_operator_name id d;
    class_enum_type = decode_class_enum_type id d;
    nested_name = decode_nested_name d;
    nested_prefixes = nested_prefixes d;
    local_name = decode_local_name id d;
    unqualified_name = decode_unqualified_name d;
    unscoped_name = decode_unscoped_name d;
    name = decode_name d;
    special_name = decode_special_name id d;
    encoding = decode_encoding id d;
  }

  unfoldable pub decoders : ℕ → Decoders
  decoders zero = exhausted
  decoders (suc fuel) = over (decoders fuel)

-- INT_MAX
abbrev pub int_max : ℕ
int_max = 2 ^ 31 - 1

-- A machine with one string, the result, and a session on the text.
abbrev pub start_machine : Bytes → Machine
start_machine input = record {
  frame = new_frame input int_max 1;
  strings = [] ∷ [] ∷ [];
  qualifier_lists = [];
}

-- A string, or what keeps the call from returning one.
abbrev pub Answer : Type 0
Answer = Ending Bytes

abbrev pub name_of : Answer → Option Bytes
name_of (ok name w) = some name
name_of undefined_access = none
name_of out_of_fuel = none

-- The result if it is one, and else the input.
abbrev pub answer_of : Bytes → Bool → Machine → Answer
answer_of input b w = ok (if b then string_at 0 w else input) w

abbrev pub initial_call : Bytes → Bytes → Answer
initial_call input name = ok name (start_machine input)

-- cnt < 0 || input[cnt + 2] != 0
unfoldable pub after_encoding : Bytes → Ending (Option ℕ) → Answer
after_encoding input (ok none w) = answer_of input false w
after_encoding input (ok (some cnt) w) =
    if leb (cnt + 2) (length input)
    then answer_of input (char_at input (cnt + 2) == 0) w
    else undefined_access
after_encoding input undefined_access = undefined_access
after_encoding input out_of_fuel = out_of_fuel

-- The name of a global constructor or destructor function.
unfoldable pub global_symbol : Bytes → Bytes
global_symbol input =
    let kind = char_at input 9 in
    if has_prefix (codes "_GLOBAL__") input
      && (kind is "D" || kind is "I")
      && char_at input 10 is "_"
    then (if kind is "D"
        then codes "global destructors keyed to "
        else codes "global constructors keyed to ")
      ++ drop 11 input
    else input

unfoldable pub symbol : ImplementationDetails → ℕ → Bytes → Answer
symbol id fuel input =
    let encoding =
      after_encoding input
        ((decoders id fuel).encoding 0 (drop 2 input) int_max (start_machine [])) in
    if not (char_at input 0 is "_")
    then initial_call input input
    else if char_at input 1 is "G"
    then initial_call input (global_symbol input)
    else if char_at input 1 is "Z"
    then encoding
    else initial_call input input

unfoldable pub after_type : Bytes → Ending (Bool × ℕ) → Answer
after_type input (ok (b, c) w) = answer_of input (b && c == 0) w
after_type input undefined_access = undefined_access
after_type input out_of_fuel = out_of_fuel

-- demangle::type, of NULL first. remaining_input_characters() is asked after a success only.
unfoldable pub type : ImplementationDetails → ℕ → Option Bytes → Answer
type id fuel none = initial_call [] (codes "(null)")
type id fuel (some input) = after_type input (
    run (start_machine input) (
      decode_type (decoders id fuel) 0 none >>= λ b.
      branch b (read_current >>= λ c. return (b, c)) (return (b, 0))))
