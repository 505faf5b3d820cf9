-- ===== src/Demangle/Grammar/Unqualified.antt =====
-- decode_unqualified_name, decode_unscoped_name, decode_nested_name and decode_name.
use libcwd.Base.{
  ℕ, ◌+◌, ◌-◌, Bool, true, false, not, ◌||◌, none, [], ◌∷◌, ◌++◌, leb, ltb, ◌==◌, if◌then◌else◌,
  drop, take, codes,
}
use libcwd.Demangle.{Bytes, is_digit, is_lower}
use libcwd.Demangle.Leaf.{decode_source_name}
use libcwd.Demangle.Machine.{
  nested_name_prefix, nested_name_template_prefix, unscoped_template_name, Flags, M, ◌>>=◌, ◌>>◌,
  return, branch, frame, set_flags, fail, give, position, read_current, read_next, read_next_peek,
  skip, get_string, set_string, put, emit, leaf, ◌is◌, ◌>>!◌, add_substitution,
}
use libcwd.Demangle.Grammar.{Decoders}
use libcwd.Demangle.Grammar.References.{set_space}

abbrev plain_name : Flags → Flags
plain_name f = record f {
  name_is_template = false;
  name_is_cdtor = false;
  name_is_conversion_operator = false;
}

-- What stands for a cv qualifier of a nested name; the last one comes first.
abbrev pub cv_names : Bytes → Bytes
cv_names [] = []
cv_names (c ∷ cs) =
    cv_names cs
    ++ (if c is "K"
        then codes " const"
        else if c is "V"
        then codes " volatile"
        else codes " restrict")

module _ (d : Decoders) where
  -- A name that starts with a digit. The output is function_name_ itself within a cast operator.
  unfoldable pub source_name : ℕ → M Bool
  source_name output w =
      (do
        fr ← frame
        let recursive = fr.function_name == output
        branch recursive (return tt) (set_string fr.function_name [])
        set_flags plain_name
        leaf decode_source_name fr.function_name >>! (do
          s ← get_string fr.function_name
          branch recursive (return tt) (emit output s)
          give))
        w

  unfoldable pub operator_function : ℕ → M Bool
  operator_function output w =
      (do
        fr ← frame
        set_string fr.function_name []
        set_flags plain_name
        d.operator_name fr.function_name
            >>! (do s ← get_string fr.function_name; emit output s; give))
        w

  -- `tilde` is for a destructor. The digit is one of three.
  unfoldable pub ctor_dtor : ℕ → Bool → ℕ → M Bool
  ctor_dtor output tilde first w =
      (do
        c ← read_next
        branch (ltb c first || ltb (first + 2) c) fail (do
          branch tilde
              (do put output "~"; set_flags (λ (f : Flags). record f { saw_destructor = true }))
              (return tt)
          set_flags (λ (f : Flags). record f { name_is_cdtor = true })
          skip
          fr ← frame
          s ← get_string fr.function_name
          emit output s
          give))
        w

  unfoldable pub decode_unqualified_name : ℕ → M Bool
  decode_unqualified_name output w =
      (do
        fr ← frame
        branch (not (fr.depth.inside_template_args == 0)) (leaf decode_source_name output >>! give)
            (do
              c ← read_current
              branch (is_digit c) (source_name output) (
                  branch (is_lower c) (operator_function output) (
                    branch (c is "C") (ctor_dtor output false 49)
                      (branch (c is "D") (ctor_dtor output true 48) fail)))))
        w

  unfoldable pub decode_unscoped_name : ℕ → M Bool
  decode_unscoped_name output w =
      (do
        let unqualified : M Bool = d.unqualified_name output >>= λ _. give
        c ← read_current
        branch (c is "S")
            (do
              t ← read_next
              branch (not (t is "t")) fail (do skip; put output "std::"; unqualified))
            unqualified)
        w

  -- A part of a nested name, with its substitution; to return true is not to fail.
  unfoldable pub nested_part : ℕ → ℕ → ℕ → M Bool
  nested_part output start number w =
      (do
        c ← read_current
        branch (c is "S") (d.substitution output none) (
            branch (c is "I")
              (d.template_args output >>! (do
                e ← read_current
                branch (e is "E") (return tt) (add_substitution start nested_name_prefix number)
                return true))
              (branch (c is "T") (d.template_param output none) (d.unqualified_name output) >>! (do
                e ← read_current
                branch (e is "E") (return tt) (
                    branch (e is "I") (add_substitution start nested_name_template_prefix number)
                      (add_substitution start nested_name_prefix number))
                return true))))
        w

  -- for (;;), after `number` prefixes
  unfoldable pub nested_prefixes : ℕ → ℕ → ℕ → M Bool
  nested_prefixes output start number w =
      (nested_part output start (number + 1) >>! (do
        e ← read_current
        branch (e is "E") (do skip; give)
            (do
              fr ← frame
              branch (not (e is "I")) (put output "::")
                  (branch fr.flags.template_args_need_space (put output " ") (return tt))
              set_space false
              d.nested_prefixes output start (number + 1))))
        w

  unfoldable pub decode_nested_name : ℕ → ℕ → M Bool
  decode_nested_name output qualifiers w =
      (do
        c ← read_current
        fr ← frame
        branch (not (c is "N") || leb fr.cursor.len (fr.cursor.pos + 1)) fail (do
          q ← read_next
          _ ← d.cv_run q 0
          start ← position
          let cvs = take (start - (fr.cursor.pos + 1)) (drop (fr.cursor.pos + 1) fr.cursor.str)
          emit qualifiers (cv_names cvs)
          d.nested_prefixes output start 0))
        w

  -- A substitution that is not St stands for the name itself.
  unfoldable pub is_substitution : ℕ → M Bool
  is_substitution c w =
      branch (c is "S")
        (do
          fr ← frame
          branch (leb fr.cursor.len (fr.cursor.pos + 1)) (return true)
              (read_next_peek >>= λ t. return (not (t is "t"))))
        (return false) w

  unfoldable pub end_name : ℕ → ℕ → M Bool
  end_name output start w =
      (do
        c ← read_current
        branch (c is "I")
              (do add_substitution start unscoped_template_name 0; d.template_args output)
              (return true)
            >>! (do set_space false; give))
        w

  unfoldable pub decode_name : ℕ → ℕ → M Bool
  decode_name output qualifiers w =
      (do
        start ← position
        c ← read_current
        b ← is_substitution c
        branch b (d.substitution output none >>! end_name output start) (
            branch (c is "N") (d.nested_name output qualifiers >>= λ _. give) (
              branch (c is "Z") (d.local_name output >>= λ _. give)
                (d.unscoped_name output >>! end_name output start))))
        w
