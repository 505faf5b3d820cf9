-- ===== src/Demangle/Grammar/Encodings.antt =====
-- decode_local_name, decode_special_name and decode_encoding, which opens a session of its own.
use libcwd.Base.{
  ℕ, suc, zero, ◌+◌, Bool, true, false, not, ◌&&◌, ◌||◌, Option, none, some, [], ◌∷◌, ◌++◌, leb,
  ◌==◌, if◌then◌else◌, length,
}
use libcwd.Demangle.{Bytes, is_digit}
use libcwd.Demangle.Leaf.{decode_number, decode_call_offset}
use libcwd.Demangle.Machine.{
  Frame, Machine, Ending, ok, undefined_access, out_of_fuel, M, ◌>>=◌, ◌>>◌, return, branch, stop,
  frame, fail, give, read_current, read_next, eat, skip, restore_pos, fresh, get_string, put, emit,
  leaf, ◌is◌, ◌>>!◌,
}
use libcwd.Demangle.Grammar.{ImplementationDetails, Decoders, decode_type}
use libcwd.Demangle.Grammar.Leaves.{text_fuel}
use libcwd.Demangle.Grammar.Literals.{nested_encoding}

-- session(in, len, id), whose function_name_ is at a place.
abbrev pub new_frame : Bytes → ℕ → ℕ → Frame
new_frame str len name = record {
  cursor = record { str = str; len = len; pos = 0; result = true };
  depth = record { inside_template_args = 0; inside_type = 0; inside_substitution = 0 };
  flags = record {
    saw_destructor = false;
    name_is_cdtor = false;
    name_is_template = false;
    name_is_conversion_operator = false;
    template_args_need_space = false;
    template_arg_pos_offset = 0;
  };
  function_name = name;
  template_arg_pos = [];
  substitutions_pos = [];
}

abbrev pub back_to : {A : Type 0} → Frame → Ending A → Ending A
back_to fr (ok a w) = ok a (record w { frame = fr })
back_to fr undefined_access = undefined_access
back_to fr out_of_fuel = out_of_fuel

abbrev pub opened : Bytes → ℕ → Machine → Machine
opened str len w = record w {
  frame = new_frame str len (length w.strings);
  strings = w.strings ++ [] ∷ [];
}

-- Run in a session of its own.
unfoldable pub in_session : {A : Type 0} → Bytes → ℕ → M A → M A
in_session str len m w = back_to w.frame (m (opened str len w))

module _ (id : ImplementationDetails) (d : Decoders) where
  unfoldable pub entity_name : ℕ → M Bool
  entity_name output w =
      (do
        qualifiers ← fresh
        d.name output qualifiers >>! (do s ← get_string qualifiers; emit output s; return true))
        w

  -- current() == '_' && next() != 'n' && !decode_number(discriminator), negated
  unfoldable pub discriminator : M Bool
  discriminator w =
      (do
        c ← read_current
        branch (not (c is "_")) (return true)
            (do n ← read_next; branch (n is "n") (return true) (fresh >>= leaf decode_number)))
        w

  unfoldable pub decode_local_name : ℕ → M Bool
  decode_local_name output w =
      (do
        z ← read_current
        fr ← frame
        branch (not (z is "Z") || leb fr.cursor.len (fr.cursor.pos + 1)) fail (
            nested_encoding id d 1 output >>! (do
              e ← eat
              branch (not (e is "E")) fail (do
                put output "::"
                c ← read_current
                branch (c is "s") (do skip; put output "string literal"; return true)
                      (entity_name output)
                    >>! discriminator
                    >>! give))))
        w

  -- while (isdigit(current())) eat_current();
  unfoldable pub skip_digits : ℕ → M (Unit {0})
  skip_digits zero w = stop w
  skip_digits (suc fuel) w =
      (do c ← read_current; branch (is_digit c) (skip >>= λ _. skip_digits fuel) (return tt)) w

  unfoldable pub construction_vtable : ℕ → M Bool
  construction_vtable output w =
      (do
        first ← fresh
        put output "construction vtable for "
        skip
        decode_type d first none >>! (do
          fuel ← text_fuel
          skip_digits fuel
          c ← eat
          branch (not (c is "_")) fail (
              decode_type d output none
              >>! (do put output "-in-"; s ← get_string first; emit output s; give))))
        w

  -- The target of a thunk.
  unfoldable pub thunk_target : ℕ → M Bool
  thunk_target output w = (nested_encoding id d 0 output >>! give) w

  abbrev pub call_offset : ℕ → M Bool
  call_offset output = leaf decode_call_offset output

  unfoldable pub typed_name : ℕ → M Bool
  typed_name output w = (do skip; _ ← decode_type d output none; give) w

  unfoldable pub guard_variable : ℕ → M Bool
  guard_variable output w =
      (do
        v ← read_next
        branch (not (v is "V")) fail
            (do put output "guard variable for "; skip; entity_name output >>! give))
        w

  unfoldable pub decode_special_name : ℕ → M Bool
  decode_special_name output w =
      (do
        g ← read_current
        branch (g is "G") (guard_variable output) (
            branch (not (g is "T")) fail (do
              c ← read_next
              branch (c is "V") (do put output "vtable for "; typed_name output)
                  (branch (c is "T") (do put output "VTT for "; typed_name output)
                    (branch (c is "I") (do put output "typeinfo for "; typed_name output)
                      (branch (c is "S") (do put output "typeinfo name for "; typed_name output)
                        (branch (c is "c")
                          (do
                            put output "covariant return thunk to "
                            call_offset output >>! call_offset output >>! thunk_target output)
                          (branch (c is "C") (construction_vtable output) (do
                            v ← read_current
                            put output
                                (if v is "v" then "virtual thunk to " else "non-virtual thunk to ")
                            call_offset output >>! thunk_target output)))))))))
        w

  -- The position behind what was read_char, or INT_MIN.
  abbrev pub here_if : Bool → M (Option ℕ)
  here_if b = frame >>= λ fr. return (if b then some fr.cursor.pos else none)

  unfoldable pub return_type : ℕ → ℕ → M Bool
  return_type output return_postfix w =
      (do
        fr ← frame
        let f = fr.flags
        branch (f.name_is_template && not (f.name_is_cdtor || f.name_is_conversion_operator))
            (do
              b ← d.type_with_postfix output return_postfix none
              branch b (put output " " >>= λ _. return true) (return false))
            (return true))
        w

  -- A <function name> with its parameters.
  unfoldable pub function_encoding : ℕ → ℕ → ℕ → M (Option ℕ)
  function_encoding output name qualifiers w =
      (do
        return_postfix ← fresh
        b ← return_type output return_postfix
        branch b
            (do
              s ← get_string name
              emit output s
              b' ← d.bare_function_type output
              branch b'
                  (do
                    q ← get_string qualifiers
                    emit output q
                    r ← get_string return_postfix
                    emit output r
                    here_if true)
                  (return none))
            (return none))
        w

  unfoldable pub named_encoding : ℕ → M (Option ℕ)
  named_encoding output w =
      (do
        name ← fresh
        qualifiers ← fresh
        b ← d.name name qualifiers
        branch b
            (do
              c ← read_current
              branch (c == 0 || c is "E")
                  (do
                    s ← get_string name
                    emit output s
                    q ← get_string qualifiers
                    emit output q
                    here_if true)
                  (function_encoding output name qualifiers))
            (return none))
        w

  unfoldable pub decode_encoding : ℕ → Bytes → ℕ → M (Option ℕ)
  decode_encoding output str len w =
      branch (len == 0) (return none)
        (in_session str len (do
          b ← d.special_name output
          branch b (here_if true) (do restore_pos 0; named_encoding output)))
        w
